-- ===== src/Config/Managed/Client/Offline.antt =====
-- A client that has its policy goes on to have it without the server (src/config/managed).
use cli_framework.Prelude.{
  ℕ, ◌+◌, ◌-◌, ◌≡◌, ◌≢◌, ◌≤◌, refl, ap, ◌∙◌, true, false, List, [], ◌∷◌, some, ok, err, leb, arith,
  Result-cases, inl, inr,
}
use cli_framework.Config.Service.Types.{Policy}
use cli_framework.Config.Managed.Cache.{PolicyCacheEntry, PolicyCache, read_cache, write_cache}
use cli_framework.Config.Managed.Client.{
  fresh, from_cache, PolicyClient, HttpError, server_or_network, classify, fall_back_to_cache,
  handle_error, fetch, fetch_with_cached, cached_or_none, cached_policy, etag_of,
}
use cli_framework.Config.Managed.Client.Fallback.{fetch_fresh}

-- A backend gives back what it wrote, and serde what it printed, which is not empty.
abbrev pub IsReadBack : {W : Type 0} → PolicyCache W → Type 0
IsReadBack {W} cache =
    ((bytes : List ℕ) (w after : W)
      → cache.backend.write bytes w ≡ (ok tt, after)
      → cache.backend.read after ≡ ok bytes)
    × ((entry : PolicyCacheEntry) (bytes : List ℕ)
        → cache.serde.to_vec_pretty entry ≡ ok bytes
        → (bytes ≢ []) × (cache.serde.from_slice bytes ≡ ok entry))

read-bytes :
    {W : Type 0} (cache : PolicyCache W) (entry : PolicyCacheEntry) (bytes : List ℕ) (w : W)
    → cache.backend.read w ≡ ok bytes
    → bytes ≢ []
    → cache.serde.from_slice bytes ≡ ok entry
    → read_cache cache w ≡ ok (some entry)
unfolding read_cache
read-bytes cache entry [] w read some_bytes parsed = absurd (some_bytes refl)
read-bytes cache entry (b ∷ bytes) w read some_bytes parsed = rw (read_cache, read, parsed) refl

pub read-write :
    {W : Type 0} (cache : PolicyCache W) (entry : PolicyCacheEntry) (w after : W)
    → IsReadBack cache
    → write_cache cache entry w ≡ (ok tt, after)
    → read_cache cache after ≡ ok (some entry)
unfolding write_cache
read-write cache entry w after (stores, prints) h =
    elim (Result-cases (cache.serde.to_vec_pretty entry)) [
      | inr (e, k) ↦ cc (rw (write_cache, k) at h)
      | inl (bytes, k) ↦
          let (some_bytes, parsed) = prints entry bytes k in
          read-bytes cache entry bytes after (stores bytes w after (rw (write_cache, k) at h))
            some_bytes parsed
    ]

same_read :
    {W : Type 0} (cache : PolicyCache W) (w later : W)
    → cache.backend.read later ≡ cache.backend.read w
    → read_cache cache later ≡ read_cache cache w
unfolding read_cache
same_read cache w later h = rw (read_cache, h) refl

module _ {W : Type 0} (client : PolicyClient W) where
  -- After a fetch of a fresh policy, as long as nothing else writes the cache, a fetch that fails at
  -- the server or in the network within the policy's own bound on its age answers with that policy,
  -- not stale. The backend gives back what it wrote, and serde what it printed.
  pub fetch-offline :
      (w later : W) (policy : Policy) (e : HttpError)
      → IsReadBack client.cache
      → (fetch client w).0 ≡ ok (fresh policy)
      → client.cache.backend.read later ≡ client.cache.backend.read (fetch client w).1
      → (client.execute (etag_of (cached_or_none client later)) later).0 ≡ err e
      → classify e ≡ server_or_network
      → client.now_epoch_secs (client.execute (etag_of (cached_or_none client later)) later).1
        ≤ client.now_epoch_secs (client.execute (etag_of (cached_or_none client w)) w).1
          + policy.max_cache_age_secs
      → (fetch client later).0 ≡ ok (from_cache policy false)
  unfolding fetch fetch_with_cached handle_error fall_back_to_cache cached_or_none
  fetch-offline w later policy e laws h unchanged failed class young =
      let (entry, (parsed, (time, written))) = fetch_fresh client w policy h in
      let read : read_cache client.cache later ≡ ok (some entry) =
        same_read client.cache (fetch client w).1 later unchanged
        ∙ read-write client.cache entry _ (fetch client w).1 laws written in
      let cached : cached_or_none client later ≡ some entry = rw (cached_or_none, read) refl in
      let executed : W = (client.execute (etag_of (cached_or_none client later)) later).1 in
      let answered : fetch_with_cached client (cached_or_none client later) later
          ≡ handle_error client e (cached_or_none client later) executed =
        rw (fetch_with_cached, failed) refl in
      let served : fall_back_to_cache client e (some entry) executed
          ≡ ok (from_cache policy false) =
        let timely : leb (client.now_epoch_secs executed - entry.fetched_at_epoch_secs)
              policy.max_cache_age_secs
            ≡ true =
          ground (arith, young, time) in
        rw (fall_back_to_cache, parsed, timely) refl in
      let fell : (handle_error client e (cached_or_none client later) executed).0
          ≡ fall_back_to_cache client e (cached_or_none client later) executed =
        rw (handle_error, class) refl in
      ap (λ p. p.0) answered
      ∙ fell
      ∙ ap (λ c. fall_back_to_cache client e c executed) cached
      ∙ served

  -- ... and so does `cached_policy`.
  pub cached_policy-fetch :
      (w : W) (policy : Policy)
      → IsReadBack client.cache
      → (fetch client w).0 ≡ ok (fresh policy)
      → cached_policy client (fetch client w).1 ≡ ok (some policy)
  unfolding cached_policy
  cached_policy-fetch w policy laws h =
      let (entry, (parsed, (time, written))) = fetch_fresh client w policy h in
      let read = read-write client.cache entry _ (fetch client w).1 laws written in
      rw (cached_policy, read, parsed) refl
