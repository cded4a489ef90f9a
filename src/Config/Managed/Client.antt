-- ===== src/Config/Managed/Client.antt =====
-- src/config/managed/policy_client.rs: the fetch of a policy. The HTTP client, its errors as
-- `classify` reads them, serde and the clock are parameters. The world holds the cache's file.
pub mod Answers
pub mod Fallback
pub mod Offline
pub mod Corrupt
use cli_framework.Prelude.{
  ℕ, ◌-◌, String, Bool, true, false, not, ◌&&◌, List, Option, none, some, Result, ok, err, leb, eqb,
  or_else, if◌then◌else◌,
}
use cli_framework.Json.{Value}
use cli_framework.Config.Service.Types.{Policy, StaleAction, warn, refuse}
use cli_framework.Config.Store.{ConfigError}
use cli_framework.Config.Managed.Cache.{
  PolicyCacheEntry, PolicyCache, read_cache, write_cache, clear_cache,
}

pub data PolicyOutcome : Type 0 where
  fresh : Policy → PolicyOutcome
  from_cache : Policy → (stale : Bool) → PolicyOutcome
  unmanaged denied : PolicyOutcome

pub data PolicyClientError : Type 0 where
  unreachable : (app message : String) → PolicyClientError
  stale_cache_refused : (app : String) → PolicyClientError
  cache_corrupt invalid_response : (app message : String) → PolicyClientError
  cache_error : ConfigError → PolicyClientError
  client_error : (app : String) → (status : ℕ) → (message : String) → PolicyClientError
  fold_failed : (app message : String) → PolicyClientError

-- A response: its status, its tag and its body, which may fail to arrive.
pub record Response : Type 0 where
  pub status : ℕ
  pub etag : Option String
  pub body : Result String (List ℕ)

-- What `classify` sees of an error: that of the token provider, one with a status, or another.
pub data HttpError : Type 0 where
  auth_error : (message : String) → HttpError
  status_error : (status : ℕ) → (message : String) → HttpError
  other_error : (message : String) → HttpError

abbrev pub message_of : HttpError → String
message_of (auth_error message) = message
message_of (status_error _ message) = message
message_of (other_error message) = message

-- The parts that the client is made of, with the clock.
pub record PolicyClient (W : Type 0) : Type 0 where
  pub cache : PolicyCache W
  pub app : String
  pub execute : Option String → W → Result HttpError Response × W
  pub value_from_slice : List ℕ → Result String Value
  pub policy_from_value : Value → Result String Policy
  pub now_epoch_secs : W → ℕ
  pub unexpected_status : ℕ → String

pub data HttpFailureClass : Type 0 where
  unauthorized forbidden not_found server_or_network : HttpFailureClass
  client_error_class : (status : ℕ) → HttpFailureClass

-- `status.is_server_error()`
abbrev pub is_server_error : ℕ → Bool
is_server_error status = leb 500 status && leb status 599

unfoldable pub classify : HttpError → HttpFailureClass
classify (auth_error _) = unauthorized
classify (status_error status _) =
    if eqb status 401
    then unauthorized
    else if eqb status 403
    then forbidden
    else if eqb status 404
    then not_found
    else if is_server_error status
    then server_or_network
    else client_error_class status
classify (other_error _) = server_or_network

-- The tag of the cached entry.
abbrev pub etag_of : Option PolicyCacheEntry → Option String
etag_of none = none
etag_of (some entry) = entry.etag

module _ {W : Type 0} (client : PolicyClient W) where
  unfoldable pub fall_back_to_cache :
      HttpError → Option PolicyCacheEntry → W → Result PolicyClientError PolicyOutcome
  fall_back_to_cache e none w = err (unreachable client.app (message_of e))
  fall_back_to_cache e (some entry) w = elim (client.policy_from_value entry.policy) [
    | err message ↦ err (cache_corrupt client.app message)
    | ok policy ↦
        if leb (client.now_epoch_secs w - entry.fetched_at_epoch_secs) policy.max_cache_age_secs
        then ok (from_cache policy false)
        else elim policy.stale_action [
          | warn ↦ ok (from_cache policy true)
          | refuse ↦ err (stale_cache_refused client.app)
        ]
  ]

  unfoldable pub handle_error :
      HttpError → Option PolicyCacheEntry → W → Result PolicyClientError PolicyOutcome × W
  handle_error e cached w = elim (classify e) [
    | unauthorized ↦ (ok denied, w)
    | forbidden ↦ (ok denied, w)
    | not_found ↦
        let (cleared, after) = clear_cache client.cache w in
        elim cleared [ ok _ ↦ (ok unmanaged, after) | err e ↦ (err (cache_error e), after) ]
    | server_or_network ↦ (fall_back_to_cache e cached w, w)
    | client_error_class status ↦ (err (client_error client.app status (message_of e)), w)
  ]

  -- A write of the cache whose failure ends the fetch.
  unfoldable pub written_then :
      PolicyCacheEntry
      → Result PolicyClientError PolicyOutcome
      → W
      → Result PolicyClientError PolicyOutcome × W
  written_then entry outcome w =
      let (written, after) = write_cache client.cache entry w in
      elim written [ ok _ ↦ (outcome, after) | err e ↦ (err (cache_error e), after) ]

  -- 200: the body is read, parsed and cached.
  unfoldable pub handle_ok : Response → W → Result PolicyClientError PolicyOutcome × W
  handle_ok resp w = elim resp.body [
    | err message ↦ (err (invalid_response client.app message), w)
    | ok bytes ↦ elim (client.value_from_slice bytes) [
      | err message ↦ (err (invalid_response client.app message), w)
      | ok raw ↦ elim (client.policy_from_value raw) [
        | err message ↦ (err (invalid_response client.app message), w)
        | ok policy ↦
            written_then
              (record {
                policy = raw;
                etag = resp.etag;
                fetched_at_epoch_secs = client.now_epoch_secs w;
              })
              (ok (fresh policy)) w
      ]
    ]
  ]

  -- 304: the cached entry is written again with the time of now.
  unfoldable pub handle_not_modified :
      Response → Option PolicyCacheEntry → W → Result PolicyClientError PolicyOutcome × W
  handle_not_modified resp none w = (
    err (
        invalid_response client.app
          "server returned 304 Not Modified with no cached policy on file"),
    w,
  )
  handle_not_modified resp (some cached) w =
      written_then
        (record {
          policy = cached.policy;
          etag = or_else resp.etag cached.etag;
          fetched_at_epoch_secs = client.now_epoch_secs w;
        })
        (elim (client.policy_from_value cached.policy) [
          | ok policy ↦ ok (fresh policy)
          | err message ↦ err (cache_corrupt client.app message)
        ])
        w

  unfoldable pub handle_response :
      Response → Option PolicyCacheEntry → W → Result PolicyClientError PolicyOutcome × W
  handle_response resp cached w =
      if eqb resp.status 200
      then handle_ok resp w
      else if eqb resp.status 304
      then handle_not_modified resp cached w
      else (err (invalid_response client.app (client.unexpected_status resp.status)), w)

  unfoldable pub fetch_with_cached :
      Option PolicyCacheEntry → W → Result PolicyClientError PolicyOutcome × W
  fetch_with_cached cached w =
      let (answer, after) = client.execute (etag_of cached) w in
      elim answer [
        | ok resp ↦ handle_response resp cached after
        | err e ↦ handle_error e cached after
      ]

  -- A cache that cannot be read counts as none.
  unfoldable pub cached_or_none : W → Option PolicyCacheEntry
  cached_or_none w = elim (read_cache client.cache w) [ ok cached ↦ cached | err _ ↦ none ]

  unfoldable pub fetch : W → Result PolicyClientError PolicyOutcome × W
  fetch w = fetch_with_cached (cached_or_none w) w

  unfoldable pub cached_policy : W → Result PolicyClientError (Option Policy)
  cached_policy w = elim (read_cache client.cache w) [
    | err e ↦ err (cache_error e)
    | ok none ↦ ok none
    | ok (some entry) ↦ elim (client.policy_from_value entry.policy) [
      | err message ↦ err (cache_corrupt client.app message)
      | ok policy ↦ ok (some policy)
    ]
  ]

  unfoldable pub background_refresh : W → Bool × W
  background_refresh w =
      let (outcome, after) = fetch w in
      elim outcome [ ok _ ↦ (true, after) | err _ ↦ (false, after) ]
