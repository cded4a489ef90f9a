-- ===== src/Config/Managed/Fold.antt =====
-- src/config/managed/mod.rs: the policy of an outcome laid over the local configuration, for a typed
-- store and for a handle. `none` of a fold is the panic of `entries`.
pub mod Merged
pub mod Placed
pub mod Applied
pub mod Refresh
use cli_framework.Prelude.{
  String, Bool, true, false, List, [], ◌∷◌, ◌&&◌, Option, none, some, Map, Result, ok, err,
  if◌then◌else◌,
}
use cli_framework.Prelude.Maps.{lookup, insert}
use cli_framework.Json
use cli_framework.Json.{Value, Entries, end, entry, entries, from_entries}
use cli_framework.Config.Manifest.{ConfigManifest}
use cli_framework.Config.Resolution
use cli_framework.Config.Resolution.{ResolutionInput, ResolvedEntry, resolve}
use cli_framework.Config.Service.Types.{Policy}
use cli_framework.Config.Store.{
  ConfigError, VersionedConfig, ConfigStore, load, set_current_and_notify,
}
use cli_framework.Config.Managed.Client.{
  PolicyOutcome, fresh, from_cache, unmanaged, denied, PolicyClientError, fold_failed, PolicyClient,
  fetch, cached_policy,
}
use cli_framework.Config.Managed.Flatten.{flatten_to_paths, unflatten_from_paths}

-- The enforced and the recommended tree.
unfoldable pub policy_trees : PolicyOutcome → Map Value × Map Value
policy_trees (fresh policy) = (policy.enforced, policy.recommended)
policy_trees (from_cache policy stale) = (policy.enforced, policy.recommended)
policy_trees unmanaged = ([], [])
policy_trees denied = ([], [])

abbrev pub is_object : Value → Bool
is_object (Json.object _) = true
is_object _ = false

-- `Some(base_value) if base_value.is_object() && overlay_value.is_object()`
abbrev pub both_objects : Option Value → Value → Bool
both_objects none overlay = false
both_objects (some base) overlay = is_object base && is_object overlay

abbrev pub fields_of : Option Value → Map Value
fields_of (some (Json.object fields)) = entries fields
fields_of _ = []

unfoldable mutual
  pub merge_entries : Map Value → Entries → Map Value
  merge_entries base end = base
  merge_entries base (entry key overlay rest) =
      let merged = merge_into (lookup key base) overlay in
      merge_entries (insert key merged base) rest

  -- What the base has under a key after the overlay's value for it.
  pub merge_into : Option Value → Value → Value
  merge_into base (Json.object overlay) =
      let merged = Json.object (from_entries (merge_entries (fields_of base) overlay)) in
      if both_objects base (Json.object overlay) then merged else Json.object overlay
  merge_into base Json.null = Json.null
  merge_into base (Json.bool b) = Json.bool b
  merge_into base (Json.number n) = Json.number n
  merge_into base (Json.string s) = Json.string s
  merge_into base (Json.array vs) = Json.array vs

unfoldable pub merge_json_objects : Value → Value → Value
merge_json_objects (Json.object base) (Json.object overlay) =
    Json.object (from_entries (merge_entries (entries base) overlay))
merge_json_objects base _ = base

-- `for entry in resolved.entries() { flat.insert(entry.path, entry.value); }`
abbrev pub insert_entries : List ResolvedEntry → Map Value → Map Value
insert_entries [] flat = flat
insert_entries (e ∷ es) flat = insert_entries es (insert e.path e.value flat)

unfoldable pub fold_into_json : ConfigManifest → Value → Map Value → Map Value → Option Value
fold_into_json manifest current_value_json enforced recommended =
    let input : ResolutionInput = record {
      recommended = recommended;
      config_file = flatten_to_paths current_value_json;
      environment = [];
      flags = [];
      builder_overrides = [];
      enforced = enforced;
    } in
    elim (Resolution.entries (resolve manifest input)) [
      | none ↦ none
      | some es ↦ some (
          merge_json_objects current_value_json
            (unflatten_from_paths manifest (insert_entries es [])))
    ]

-- What the messages of the failures are made of, which end with that of the error.
pub record FoldMessages : Type 0 where
  pub unreadable : ConfigError → String
  pub not_serialized : String → String
  pub not_matching : String → String
  pub not_applied : String → String

module _ {T W : Type 0} (config : VersionedConfig T) (messages : FoldMessages)
    (manifest : ConfigManifest) where
  -- The local configuration of the backend with the trees laid over it.
  unfoldable pub fold_local :
      ConfigStore T W → Map Value → Map Value → W → Option (Result PolicyClientError T)
  fold_local store enforced recommended w = elim (load config store w) [
    | err e ↦ some (err (fold_failed manifest.app (messages.unreadable e)))
    | ok local ↦ elim (config.to_value local) [
      | err e ↦ some (err (fold_failed manifest.app (messages.not_serialized e)))
      | ok current ↦ elim (fold_into_json manifest current enforced recommended) [
        | none ↦ none
        | some nested ↦ elim (config.from_value nested) [
          | err e ↦ some (err (fold_failed manifest.app (messages.not_matching e)))
          | ok value ↦ some (ok value)
        ]
      ]
    ]
  ]

  unfoldable pub fold_cached_policy_into_value :
      ConfigStore T W → PolicyClient W → W → Option (Result PolicyClientError T)
  fold_cached_policy_into_value store client w = elim (cached_policy client w) [
    | err e ↦ some (err e)
    | ok none ↦ fold_local store [] [] w
    | ok (some policy) ↦ fold_local store policy.enforced policy.recommended w
  ]

  -- The outcome, the store and the world after a refresh.
  unfoldable pub refresh_managed_config :
      ConfigStore T W
      → PolicyClient W
      → W
      → Option (Result PolicyClientError PolicyOutcome) × (ConfigStore T W × W)
  refresh_managed_config store client w =
      let (fetched, after) = fetch client w in
      elim fetched [
        | err e ↦ (some (err e), (store, after))
        | ok outcome ↦
            let (enforced, recommended) = policy_trees outcome in
            elim (fold_local store enforced recommended after) [
              | none ↦ (none, (store, after))
              | some (err e) ↦ (some (err e), (store, after))
              | some (ok value) ↦
                  (some (ok outcome), set_current_and_notify config store value after)
            ]
      ]

-- `ConfigHandle`, as far as a policy is applied to it.
pub record ConfigHandle (W : Type 0) : Type 0 where
  pub backend_json : W → Result ConfigError Value
  pub set_current_json_and_notify : Value → W → Result String (Unit {0}) × W

unfoldable pub apply_policy_outcome_to_handle :
    {W : Type 0}
    → FoldMessages
    → ConfigManifest
    → ConfigHandle W
    → PolicyOutcome
    → W
    → Option (Result PolicyClientError (Unit {0})) × W
apply_policy_outcome_to_handle messages manifest handle outcome w =
    let (enforced, recommended) = policy_trees outcome in
    elim (handle.backend_json w) [
      | err e ↦ (some (err (fold_failed manifest.app (messages.unreadable e))), w)
      | ok current ↦ elim (fold_into_json manifest current enforced recommended) [
        | none ↦ (none, w)
        | some nested ↦
            let (applied, after) = handle.set_current_json_and_notify nested w in
            elim applied [
              | ok _ ↦ (some (ok tt), after)
              | err e ↦ (some (err (fold_failed manifest.app (messages.not_applied e))), after)
            ]
      ]
    ]
