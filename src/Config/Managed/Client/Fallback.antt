-- ===== src/Config/Managed/Client/Fallback.antt =====
-- When a fetch answers from the cache (src/config/managed/policy_client.rs).
use cli_framework.Prelude.{
  ℕ, ◌-◌, ◌≡◌, ◌≢◌, ◌≤◌, ◌<◌, ◌⊎◌, inl, inr, refl, sym, ap, ◌∙◌, subst, Bool, true, false, Option,
  none, some, ok, err, leb, arith, Bool-cases, Result-cases,
}
use cli_framework.Config.Service.Types.{Policy, StaleAction, warn, refuse}
use cli_framework.Config.Managed.Cache.{PolicyCacheEntry, write_cache, clear_cache}
use cli_framework.Config.Managed.Client.{
  PolicyOutcome, fresh, from_cache, unmanaged, denied, HttpError, PolicyClient, HttpFailureClass,
  unauthorized, forbidden, not_found, server_or_network, client_error_class, classify,
  fall_back_to_cache, handle_error, handle_response, fetch, fetch_with_cached, cached_or_none,
  etag_of,
}
use cli_framework.Config.Managed.Client.Answers.{response_fresh}

-- The entry's policy is of the age that `stale` tells, and may be used at that age.
abbrev pub IsUsable : {W : Type 0} → PolicyClient W → PolicyCacheEntry → Policy → W → Bool → Type 0
IsUsable client entry policy w stale =
    ((stale ≡ false)
      × (client.now_epoch_secs w - entry.fetched_at_epoch_secs ≤ policy.max_cache_age_secs))
    ⊎ ((stale ≡ true)
        × ((policy.max_cache_age_secs < client.now_epoch_secs w - entry.fetched_at_epoch_secs)
            × (policy.stale_action ≡ warn)))

action-cases : (a : StaleAction) → (a ≡ warn) ⊎ (a ≡ refuse)
action-cases warn = inl refl
action-cases refuse = inr refl

class-cases :
    (c : HttpFailureClass)
    → (c ≡ unauthorized)
      ⊎ ((c ≡ forbidden)
          ⊎ ((c ≡ not_found)
              ⊎ ((c ≡ server_or_network) ⊎ ((status : ℕ) × (c ≡ client_error_class status)))))
class-cases unauthorized = inl refl
class-cases forbidden = inr (inl refl)
class-cases not_found = inr (inr (inl refl))
class-cases server_or_network = inr (inr (inr (inl refl)))
class-cases (client_error_class status) = inr (inr (inr (inr (status, refl))))

module _ {W : Type 0} (client : PolicyClient W) where
  fall_back_inv :
      (e : HttpError) (cached : Option PolicyCacheEntry) (w : W) (policy : Policy) (stale : Bool)
      → fall_back_to_cache client e cached w ≡ ok (from_cache policy stale)
      → (entry : PolicyCacheEntry) × ((cached ≡ some entry)
          × ((client.policy_from_value entry.policy ≡ ok policy)
              × IsUsable client entry policy w stale))
  unfolding fall_back_to_cache
  fall_back_inv e none w policy stale h = cc
  fall_back_inv e (some entry) w policy stale h =
      elim (Result-cases (client.policy_from_value entry.policy)) [
        | inr (message, k) ↦ cc (rw (fall_back_to_cache, k) at h)
        | inl (found, k) ↦
            elim (Bool-cases (
              leb (client.now_epoch_secs w - entry.fetched_at_epoch_secs)
                found.max_cache_age_secs)) [
                  | inl young ↦
                      let same : found ≡ policy = cc (rw (fall_back_to_cache, k, young) at h) in
                      let timely : stale ≡ false = cc (rw (fall_back_to_cache, k, young) at h) in
                      (
                        entry,
                        (
                          refl,
                          (
                            k ∙ ap ok same,
                            inl (
                              timely,
                              subst
                                  (λ (p : Policy).
                                    client.now_epoch_secs w - entry.fetched_at_epoch_secs
                                    ≤ p.max_cache_age_secs)
                                  same (ground arith),
                            ),
                          ),
                        ),
                      )
                  | inr old ↦ elim (action-cases found.stale_action) [
                    | inr refused ↦ cc (rw (fall_back_to_cache, k, old, refused) at h)
                    | inl warned ↦
                        let same : found ≡ policy =
                          cc (rw (fall_back_to_cache, k, old, warned) at h) in
                        let late : stale ≡ true =
                          cc (rw (fall_back_to_cache, k, old, warned) at h) in
                        (
                          entry,
                          (
                            refl,
                            (
                              k ∙ ap ok same,
                              inr (
                                late,
                                (
                                  subst
                                      (λ (p : Policy).
                                        p.max_cache_age_secs
                                        < client.now_epoch_secs w - entry.fetched_at_epoch_secs)
                                      same (ground arith),
                                  subst (λ (p : Policy). p.stale_action ≡ warn) same warned,
                                ),
                              ),
                            ),
                          ),
                        )
                  ]
                ]
      ]

  fall_back_not_fresh :
      (e : HttpError) (cached : Option PolicyCacheEntry) (w : W) (policy : Policy)
      → fall_back_to_cache client e cached w ≢ ok (fresh policy)
  unfolding fall_back_to_cache
  fall_back_not_fresh e none w policy h = cc
  fall_back_not_fresh e (some entry) w policy h =
      elim (Result-cases (client.policy_from_value entry.policy)) [
        | inr (message, k) ↦ cc (rw (fall_back_to_cache, k) at h)
        | inl (found, k) ↦
            elim (Bool-cases (
              leb (client.now_epoch_secs w - entry.fetched_at_epoch_secs)
                found.max_cache_age_secs)) [
                  | inl young ↦ cc (rw (fall_back_to_cache, k, young) at h)
                  | inr old ↦ elim (action-cases found.stale_action) [
                    | inr refused ↦ cc (rw (fall_back_to_cache, k, old, refused) at h)
                    | inl warned ↦ cc (rw (fall_back_to_cache, k, old, warned) at h)
                  ]
                ]
      ]

  -- An error of the request leads to no fresh policy, and to the cached one only where the server or
  -- the network failed.
  error_inv :
      (e : HttpError) (cached : Option PolicyCacheEntry) (outcome : PolicyOutcome) (w : W)
      → (handle_error client e cached w).0 ≡ ok outcome
      → ((outcome ≡ denied) ⊎ (outcome ≡ unmanaged))
        ⊎ ((classify e ≡ server_or_network)
            × ((handle_error client e cached w ≡ (fall_back_to_cache client e cached w, w))
                × (fall_back_to_cache client e cached w ≡ ok outcome)))
  unfolding handle_error
  error_inv e cached outcome w h = elim (class-cases (classify e)) [
    | inl c ↦ inl (inl (cc (rw (handle_error, c) at h)))
    | inr (inl c) ↦ inl (inl (cc (rw (handle_error, c) at h)))
    | inr (inr (inl c)) ↦ elim (Result-cases (clear_cache client.cache w).0) [
      | inl (done, k) ↦ inl (inr (cc (rw (handle_error, c, k) at h)))
      | inr (x, k) ↦ cc (rw (handle_error, c, k) at h)
    ]
    | inr (inr (inr (inl c))) ↦ inr (c, (rw (handle_error, c) refl, rw (handle_error, c) at h))
    | inr (inr (inr (inr (status, c)))) ↦ cc (rw (handle_error, c) at h)
  ]

  -- A fetch answers with the cached policy only where the request failed at the server or in the
  -- network (never for a caller who was denied), an entry with that policy was cached, and the policy
  -- is no older than it allows, or warns of its age and tells the client to go on.
  pub fetch-from_cache :
      (w : W) (policy : Policy) (stale : Bool)
      → (fetch client w).0 ≡ ok (from_cache policy stale)
      → (e : HttpError) × ((entry : PolicyCacheEntry) × (((client.execute
                (etag_of (cached_or_none client w))
                w).0
              ≡ err e)
            × ((classify e ≡ server_or_network)
                × ((cached_or_none client w ≡ some entry)
                    × ((client.policy_from_value entry.policy ≡ ok policy)
                        × IsUsable client entry policy (fetch client w).1 stale)))))
  unfolding fetch fetch_with_cached
  fetch-from_cache w policy stale h =
      let cached = cached_or_none client w in
      let executed : W = (client.execute (etag_of cached) w).1 in
      elim (Result-cases (client.execute (etag_of cached) w).0) [
        | inl (resp, k) ↦
            let (other, (_, (e, _))) =
              response_fresh client resp cached (from_cache policy stale) executed
                (rw (fetch_with_cached, k) at h) in
            cc
        | inr (e, k) ↦
            let answered : fetch_with_cached client cached w
                ≡ handle_error client e cached executed =
              rw (fetch_with_cached, k) refl in
            elim (error_inv e cached (from_cache policy stale) executed
              (sym (ap (λ p. p.0) answered) ∙ h)) [
                | inl other ↦ elim other [ inl d ↦ cc | inr d ↦ cc ]
                | inr (c, (same, answer)) ↦
                    let (entry, (found, (parsed, usable))) =
                      fall_back_inv e cached executed policy stale answer in
                    let last : executed ≡ (fetch_with_cached client cached w).1 =
                      sym (ap (λ p. p.1) answered ∙ ap (λ p. p.1) same) in
                    (
                      e,
                      (
                        entry,
                        (
                          k,
                          (
                            c,
                            (
                              found,
                              (
                                parsed,
                                subst (λ x. IsUsable client entry policy x stale) last usable,
                              ),
                            ),
                          ),
                        ),
                      ),
                    )
              ]
      ]

  -- A fresh policy is in the cache afterwards.
  pub fetch_fresh :
      (w : W) (policy : Policy)
      → (fetch client w).0 ≡ ok (fresh policy)
      → (entry : PolicyCacheEntry) × ((client.policy_from_value entry.policy ≡ ok policy)
          × ((entry.fetched_at_epoch_secs
                ≡ client.now_epoch_secs (client.execute (etag_of (cached_or_none client w)) w).1)
              × (write_cache client.cache entry
                    (client.execute (etag_of (cached_or_none client w)) w).1
                  ≡ (ok tt, (fetch client w).1))))
  unfolding fetch fetch_with_cached
  fetch_fresh w policy h =
      let cached = cached_or_none client w in
      let executed : W = (client.execute (etag_of cached) w).1 in
      elim (Result-cases (client.execute (etag_of cached) w).0) [
        | inl (resp, k) ↦
            let answered : fetch_with_cached client cached w
                ≡ handle_response client resp cached executed =
              rw (fetch_with_cached, k) refl in
            let (found, (entry, (same, (parsed, (time, written))))) =
              response_fresh client resp cached (fresh policy) executed
                (sym (ap (λ p. p.0) answered) ∙ h) in
            let equal : found ≡ policy = cc in
            (entry, (parsed ∙ ap ok equal, (time, written ∙ (λ i. (ok tt, (sym answered i).1)))))
        | inr (e, k) ↦
            elim (error_inv e cached (fresh policy) executed (rw (fetch_with_cached, k) at h)) [
              | inl other ↦ elim other [ inl d ↦ cc | inr d ↦ cc ]
              | inr (c, (same, answer)) ↦
                  absurd (fall_back_not_fresh e cached executed policy answer)
            ]
      ]
