-- ===== src/Config/Managed/Client/Answers.antt =====
-- What a response that is accepted leaves in the cache (src/config/managed/policy_client.rs).
use cli_framework.Prelude.{
  ◌≡◌, inl, inr, refl, sym, Option, none, some, Result, ok, ok-inj, eqb, Bool-cases, Result-cases,
}
use cli_framework.Config.Service.Types.{Policy}
use cli_framework.Config.Managed.Cache.{PolicyCacheEntry, write_cache}
use cli_framework.Config.Managed.Client.{
  PolicyOutcome, fresh, PolicyClientError, Response, PolicyClient, written_then, handle_ok,
  handle_not_modified, handle_response,
}

module _ {W : Type 0} (client : PolicyClient W) where
  -- The outcome of a fetch that ends with a write is the one given, or an error.
  written_ok :
      (entry : PolicyCacheEntry) (given : Result PolicyClientError PolicyOutcome)
      (outcome : PolicyOutcome) (w : W)
      → (written_then client entry given w).0 ≡ ok outcome
      → (given ≡ ok outcome)
        × (write_cache client.cache entry w ≡ (ok tt, (written_then client entry given w).1))
  unfolding written_then
  written_ok entry given outcome w h = elim (Result-cases (write_cache client.cache entry w).0) [
    | inr (e, k) ↦ cc (rw (written_then, k) at h)
    | inl (done, k) ↦
        let step : (written_then client entry given w).1 ≡ (write_cache client.cache entry w).1 =
          rw (written_then, k) refl in
        (rw (written_then, k) at h, λ i. (k i, sym step i))
  ]

  -- Between the two worlds an entry of the outcome's policy was written, fetched now.
  abbrev pub HasLeft : PolicyOutcome → W → W → Type 0
  HasLeft outcome w after =
      (policy : Policy) × ((entry : PolicyCacheEntry) × ((outcome ≡ fresh policy)
          × ((client.policy_from_value entry.policy ≡ ok policy)
              × ((entry.fetched_at_epoch_secs ≡ client.now_epoch_secs w)
                  × (write_cache client.cache entry w ≡ (ok tt, after))))))

  ok_fresh :
      (resp : Response) (outcome : PolicyOutcome) (w : W)
      → (handle_ok client resp w).0 ≡ ok outcome
      → HasLeft outcome w (handle_ok client resp w).1
  unfolding handle_ok
  ok_fresh resp outcome w h = elim (Result-cases resp.body) [
    | inr (e, k) ↦ cc (rw (handle_ok, k) at h)
    | inl (bytes, k) ↦ elim (Result-cases (client.value_from_slice bytes)) [
      | inr (e, l) ↦ cc (rw (handle_ok, k, l) at h)
      | inl (raw, l) ↦ elim (Result-cases (client.policy_from_value raw)) [
        | inr (e, m) ↦ cc (rw (handle_ok, k, l, m) at h)
        | inl (policy, m) ↦
            let entry : PolicyCacheEntry = record {
              policy = raw;
              etag = resp.etag;
              fetched_at_epoch_secs = client.now_epoch_secs w;
            } in
            let (given, written) =
              written_ok entry (ok (fresh policy)) outcome w (rw (handle_ok, k, l, m) at h) in
            rw (handle_ok, k, l, m) (policy, (entry, (sym (ok-inj given), (m, (refl, written)))))
      ]
    ]
  ]

  not_modified_fresh :
      (resp : Response) (cached : Option PolicyCacheEntry) (outcome : PolicyOutcome) (w : W)
      → (handle_not_modified client resp cached w).0 ≡ ok outcome
      → HasLeft outcome w (handle_not_modified client resp cached w).1
  unfolding handle_not_modified
  not_modified_fresh resp none outcome w h = cc
  not_modified_fresh resp (some cached) outcome w h =
      let (given, written) = written_ok _ _ outcome w h in
      elim (Result-cases (client.policy_from_value cached.policy)) [
        | inr (e, m) ↦ cc (rw m at given)
        | inl (policy, m) ↦ (policy, (_, (sym (ok-inj (rw m at given)), (m, (refl, written)))))
      ]

  pub response_fresh :
      (resp : Response) (cached : Option PolicyCacheEntry) (outcome : PolicyOutcome) (w : W)
      → (handle_response client resp cached w).0 ≡ ok outcome
      → HasLeft outcome w (handle_response client resp cached w).1
  unfolding handle_response
  response_fresh resp cached outcome w h = elim (Bool-cases (eqb resp.status 200)) [
    | inl a ↦ rw (handle_response, a) (ok_fresh resp outcome w (rw (handle_response, a) at h))
    | inr a ↦ elim (Bool-cases (eqb resp.status 304)) [
      | inl b ↦
          rw (handle_response, a, b)
            (not_modified_fresh resp cached outcome w (rw (handle_response, a, b) at h))
      | inr b ↦ cc (rw (handle_response, a, b) at h)
    ]
  ]
