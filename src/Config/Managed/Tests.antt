-- ===== src/Config/Managed/Tests.antt =====
-- Runs of the models of src/config/managed on small inputs.
mod Folding
use cli_framework.Prelude.{
  ℕ, ◌≡◌, ◌≢◌, ◌⊎◌, refl, String, true, false, List, [], ◌∷◌, Option, none, some, Result, ok, err,
  eqb, arith, if◌then◌else◌,
}
use cli_framework.Prelude.Maps.{lookup, insert}
use cli_framework.Json as Json
use cli_framework.Json.{Value, Entries, unsigned}
use cli_framework.Config.Manifest.{
  ConfigManifest, iter_leaves, collect_fields, FieldAttributes, FieldKind, user, field, cons,
  section, manifest_schema_version, nil,
}
use cli_framework.Config.Managed.Flatten.{
  unflatten_from_paths, unflatten_fields, flatten_to_paths, flatten_into,
}
use cli_framework.Config.Resolution.{
  resolve, value, resolve_leaves, resolve_leaf, server_layer, local_layer, default_value,
  default_for_kind, server_tree_drop_reason_enforced, value_matches_kind, entries,
}
use cli_framework.Config.Managed.Fold.Applied.{fold_into_json-value_at}
use cli_framework.Config.Managed.Fold.Placed.{
  value_at-unflatten_from_paths, leaf, inside, later, has_key, AreApart,
}
use cli_framework.Config.Store.{ConfigBackend, ConfigStore, VersionedConfig}
use cli_framework.Config.Service.Types.{Policy, warn}
use cli_framework.Config.Managed.Cache.{PolicyCacheEntry, EntrySerde, read_cache, write_cache}
use cli_framework.Config.Managed.Client.{
  cache_corrupt, PolicyOutcome, PolicyClientError, from_cache, PolicyClient, Response, HttpError,
  other_error, server_or_network, classify, etag_of, fetch, fetch_with_cached, cached_or_none,
  fall_back_to_cache, handle_error, handle_response, handle_ok, written_then,
}
use cli_framework.Config.Managed.Client.Fallback.{fetch-from_cache, IsUsable}
use cli_framework.Config.Managed.Client.Corrupt.{fetch-not_modified_corrupt}
use cli_framework.Config.Managed.Client.Offline.{fetch-offline, IsReadBack}
use cli_framework.Config.Managed.Fold.{
  fold_into_json, merge_entries, merge_json_objects, FoldMessages, refresh_managed_config,
  fold_local, policy_trees,
}
use cli_framework.Config.Managed.Fold.Refresh.{Refreshes, refresh_managed_config-Refreshes}
use cli_framework.Config.Managed.Fold.Merged.{merge_json_objects-value_at, value_at, IsDistinct}

-- The world is the time and the bytes of the cache.
abbrev World : Type 0
World = ℕ × List ℕ

abbrev memory : ConfigBackend World
memory = record {
  read = λ w. ok w.1;
  write = λ bytes w. (ok tt, (w.0, bytes));
  supports_write = true;
  label = "memory";
}

-- Entries of a null policy without a tag are printed as their time.
abbrev print : Value → Option String → ℕ → Result String (List ℕ)
print Json.null none n = ok (n ∷ [])
print Json.null (some _) _ = err "a tag"
print (Json.bool _) _ _ = err "a bool"
print (Json.number _) _ _ = err "a number"
print (Json.string _) _ _ = err "a string"
print (Json.array _) _ _ = err "an array"
print (Json.object _) _ _ = err "an object"

abbrev parse : List ℕ → Result String PolicyCacheEntry
parse [] = err "no byte"
parse (n ∷ _) = ok (record { policy = Json.null; etag = none; fetched_at_epoch_secs = n })

abbrev times : EntrySerde
times = record {
  from_slice = parse;
  to_vec_pretty = λ entry. print entry.policy entry.etag entry.fetched_at_epoch_secs;
}

abbrev an_hour : Policy
an_hour = record {
  contract_version = 1;
  app = "app";
  profile = "base";
  policy_version = 1;
  max_cache_age_secs = 3600;
  stale_action = warn;
  enforced = [];
  recommended = [];
}

-- The server answers at time 0 and is out of reach after it.
abbrev answers_at : Option String → World → Result HttpError Response × World
answers_at _ w = (
  if eqb w.0 0
      then ok (record { status = 200; etag = none; body = ok [] })
      else err (other_error "unreachable"),
  w,
)

abbrev client : PolicyClient World
client = record {
  cache = record { backend = memory; serde = times };
  app = "app";
  execute = answers_at;
  value_from_slice = λ _. ok Json.null;
  policy_from_value = λ _. ok an_hour;
  now_epoch_secs = λ w. w.0;
  unexpected_status = λ _. "unexpected status";
}

print_back :
    (v : Value) (etag : Option String) (n : ℕ) (bytes : List ℕ)
    → print v etag n ≡ ok bytes
    → (bytes ≢ [])
      × (parse bytes ≡ ok (record { policy = v; etag = etag; fetched_at_epoch_secs = n }))
print_back Json.null none n [] h = cc
print_back Json.null none n (b ∷ bytes) h = (λ e. cc, cc)
print_back Json.null (some _) _ bytes h = cc
print_back (Json.bool _) _ _ bytes h = cc
print_back (Json.number _) _ _ bytes h = cc
print_back (Json.string _) _ _ bytes h = cc
print_back (Json.array _) _ _ bytes h = cc
print_back (Json.object _) _ _ bytes h = cc

laws : IsReadBack client.cache
laws = (
  λ bytes w after h. cc,
  λ entry bytes h. print_back entry.policy entry.etag entry.fetched_at_epoch_secs bytes h,
)

fetch-offline_example : (fetch client (5, 0 ∷ [])).0 ≡ ok (from_cache an_hour false)
unfolding fetch fetch_with_cached cached_or_none handle_response handle_ok written_then read_cache
    write_cache classify
fetch-offline_example =
    fetch-offline client (0, []) (5, 0 ∷ []) an_hour (other_error "unreachable") laws refl refl refl
      refl (omega arith)

fetch-from_cache_example :
    (e : HttpError) × ((entry : PolicyCacheEntry) × (((client.execute
            (etag_of (cached_or_none client (5, 0 ∷ [])))
            (5, 0 ∷ [])).0
          ≡ err e)
        × ((classify e ≡ server_or_network)
            × ((cached_or_none client (5, 0 ∷ []) ≡ some entry)
                × ((client.policy_from_value entry.policy ≡ ok an_hour)
                    × IsUsable client entry an_hour (fetch client (5, 0 ∷ [])).1 false)))))
unfolding fetch fetch_with_cached cached_or_none handle_error fall_back_to_cache read_cache classify
fetch-from_cache_example = fetch-from_cache client (5, 0 ∷ []) an_hour false refl

-- A configuration is its document; that of the backend is always the empty one.
abbrev documents : VersionedConfig Value
documents = record {
  default = Json.null;
  set_schema_version = λ version value. value;
  to_value = λ value. ok value;
  from_value = λ value. ok value;
}

abbrev store : ConfigStore Value World
store = record {
  backend = memory;
  format = record {
    bytes_to_value = λ label bytes. ok (Json.object Json.end);
    value_to_bytes = λ label value. ok (0 ∷ []);
  };
  current_version = 0;
  migrations = [];
  current = Json.null;
  subscribers = [];
}

abbrev messages : FoldMessages
messages = record {
  unreadable = λ e. "unreadable";
  not_serialized = λ e. e;
  not_matching = λ e. e;
  not_applied = λ e. e;
}

abbrev undeclared : ConfigManifest
undeclared = record { manifest_schema_version = manifest_schema_version; app = "app"; fields = nil }

refresh_managed_config-Refreshes_example :
    Refreshes documents messages undeclared store client
      (0, [])
      (refresh_managed_config documents messages undeclared store client (0, []))
refresh_managed_config-Refreshes_example =
    refresh_managed_config-Refreshes documents messages undeclared store client (0, [])

-- A client whose cached document is no policy, and a server that has nothing newer.
abbrev outdated : PolicyClient World
outdated = record client {
  execute = λ tag w. (ok (record { status = 304; etag = none; body = ok [] }), w);
  policy_from_value = λ _. err "missing field";
}

fetch-not_modified_corrupt_example :
    ((fetch outdated (9, 5 ∷ [])).0 ≡ err (cache_corrupt "app" "missing field"))
    × (cached_or_none outdated (fetch outdated (9, 5 ∷ [])).1
        ≡ some (record { policy = Json.null; etag = none; fetched_at_epoch_secs = 9 }))
unfolding cached_or_none read_cache write_cache
fetch-not_modified_corrupt_example =
    fetch-not_modified_corrupt outdated (9, 5 ∷ [])
      (record { policy = Json.null; etag = none; fetched_at_epoch_secs = 5 }) "missing field"
      (record { status = 304; etag = none; body = ok [] }) laws refl refl refl refl refl
