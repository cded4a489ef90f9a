-- ===== src/Config/Managed/Client/Corrupt.antt =====
-- What becomes of a cached document that is no policy (src/config/managed/policy_client.rs).
use cli_framework.Prelude.{◌≡◌, refl, sym, ap, ◌∙◌, subst, String, some, ok, err, or_else}
use cli_framework.Config.Managed.Cache.{PolicyCacheEntry, read_cache, write_cache}
use cli_framework.Config.Managed.Client.{
  cache_corrupt, Response, PolicyClient, written_then, handle_not_modified, handle_response, fetch,
  fetch_with_cached, cached_or_none,
}
use cli_framework.Config.Managed.Client.Offline.{IsReadBack, read-write}

module _ {W : Type 0} (client : PolicyClient W) where
  -- The entry that a 304 writes.
  abbrev pub refreshed : Response → PolicyCacheEntry → W → PolicyCacheEntry
  refreshed resp cached w = record {
    policy = cached.policy;
    etag = or_else resp.etag cached.etag;
    fetched_at_epoch_secs = client.now_epoch_secs w;
  }

  not_modified_corrupt :
      (resp : Response) (entry : PolicyCacheEntry) (message : String) (w : W)
      → client.policy_from_value entry.policy ≡ err message
      → (write_cache client.cache (refreshed resp entry w) w).0 ≡ ok tt
      → handle_not_modified client resp (some entry) w ≡ (
        err (cache_corrupt client.app message),
        (write_cache client.cache (refreshed resp entry w) w).1,
      )
  unfolding handle_not_modified written_then
  not_modified_corrupt resp entry message w corrupt written =
      rw (handle_not_modified, written_then, written, corrupt) refl

  -- Where the cached document is no policy and the server answers that it has not changed, the fetch
  -- fails, and the cache then holds the same document with the same tag (or that of the answer), so
  -- that the next fetch asks with that tag again. The write of the cache succeeds, the backend gives
  -- back what it wrote, and serde what it printed.
  pub fetch-not_modified_corrupt :
      (w : W) (entry : PolicyCacheEntry) (message : String) (resp : Response)
      → IsReadBack client.cache
      → cached_or_none client w ≡ some entry
      → client.policy_from_value entry.policy ≡ err message
      → (client.execute entry.etag w).0 ≡ ok resp
      → resp.status ≡ 304
      → (write_cache client.cache
          (refreshed resp entry (client.execute entry.etag w).1)
          (client.execute entry.etag w).1).0
        ≡ ok tt
      → ((fetch client w).0 ≡ err (cache_corrupt client.app message))
        × (cached_or_none client (fetch client w).1
            ≡ some (refreshed resp entry (client.execute entry.etag w).1))
  unfolding fetch fetch_with_cached handle_response cached_or_none
  fetch-not_modified_corrupt w entry message resp laws cached corrupt answer status written =
      let executed : W = (client.execute entry.etag w).1 in
      let again : PolicyCacheEntry = refreshed resp entry executed in
      let asked : fetch client w ≡ fetch_with_cached client (some entry) w =
        ap (λ c. fetch_with_cached client c w) cached in
      let answered : fetch_with_cached client (some entry) w
          ≡ handle_response client resp (some entry) executed =
        rw (fetch_with_cached, answer) refl in
      let unchanged : handle_response client resp (some entry) executed
          ≡ handle_not_modified client resp (some entry) executed =
        rw (handle_response, status) refl in
      let all : fetch client w
          ≡ (err (cache_corrupt client.app message), (write_cache client.cache again executed).1) =
        asked
        ∙ answered
        ∙ unchanged
        ∙ not_modified_corrupt resp entry message executed corrupt written in
      let read : read_cache client.cache (write_cache client.cache again executed).1
          ≡ ok (some again) =
        read-write client.cache again executed (write_cache client.cache again executed).1 laws
          (λ i. (written i, (write_cache client.cache again executed).1)) in
      (
        ap (λ p. p.0) all,
        subst (λ x. cached_or_none client x ≡ some again) (sym (ap (λ p. p.1) all))
            (rw (cached_or_none, read) refl),
      )
