-- ===== src/Config/Store.antt =====
-- src/config/store.rs with the traits of src/config/backend.rs and src/config/versioned.rs: the
-- versioned store. What serde makes of a configuration, the format's parser and printer, and the
-- backend are parameters; `W` is the state of the world that backend and subscribers act on. A
-- subscriber that calls the store again is not modelled, nor are the locks.
pub mod Migrations
pub mod Saved
pub mod Versions
mod Tests
use cli_framework.Prelude.{
  ℕ, zero, suc, ◌-◌, ◌^◌, String, Bool, true, false, not, List, [], ◌∷◌, ◌++◌, Option, none, some,
  Result, ok, err, ltb, leb, eqb, if◌then◌else◌,
}
use cli_framework.Prelude.Maps.{lookup, insert}
use cli_framework.Json
use cli_framework.Json.{Value, entries, from_entries, as_object}

pub data ConfigError : Type 0 where
  backend_read backend_write parse serialize : String → String → ConfigError
  read_only : String → ConfigError
  migration_failed : ℕ → String → ConfigError
  no_migration_path : ℕ → ℕ → ConfigError
  version_too_new : ℕ → ℕ → ConfigError
  io : String → String → ConfigError

-- `VersionedConfig` with its serde instances.
pub record VersionedConfig (T : Type 0) : Type 0 where
  pub default : T
  pub set_schema_version : ℕ → T → T
  pub to_value : T → Result String Value
  pub from_value : Value → Result String T

-- `ConfigFormat` for a backend's label.
pub record ConfigFormat : Type 0 where
  pub bytes_to_value : String → List ℕ → Result ConfigError Value
  pub value_to_bytes : String → Value → Result ConfigError (List ℕ)

pub record ConfigBackend (W : Type 0) : Type 0 where
  pub read : W → Result ConfigError (List ℕ)
  pub write : List ℕ → W → Result ConfigError (Unit {0}) × W
  pub supports_write : Bool
  pub label : String

abbrev pub Migration : Type 0
Migration = Value → Result String Value

pub record ConfigStore (T W : Type 0) : Type 0 where
  pub backend : ConfigBackend W
  pub format : ConfigFormat
  pub current_version : ℕ
  pub migrations : List (ℕ × Migration)
  pub current : T
  pub subscribers : List (T → W → W)

-- `u32::MAX`
abbrev pub max_u32 : ℕ
max_u32 = 2 ^ 32 - 1

-- `v.as_u64()`
abbrev pub as_u64 : Value → Option ℕ
as_u64 (Json.number (Json.unsigned n)) = some n
as_u64 _ = none

-- `u32::try_from(v).unwrap_or(u32::MAX)`
abbrev pub clamp_u32 : ℕ → ℕ
clamp_u32 n = if leb n max_u32 then n else max_u32

abbrev pub version_of : Option Value → ℕ
version_of none = 0
version_of (some v) = elim (as_u64 v) [ some n ↦ clamp_u32 n | none ↦ 0 ]

unfoldable pub read_version : Value → ℕ
read_version value = elim (as_object value) [
  | some fields ↦ version_of (lookup "schema_version" fields)
  | none ↦ 0
]

unfoldable pub write_version : Value → ℕ → Value
write_version (Json.object fields) version =
    Json.object (
      from_entries (insert "schema_version" (Json.number (Json.unsigned version)) (entries fields)))
write_version value version = value

-- `migrations.get(&version)`: of two for one version the later one counts.
unfoldable pub migration_from : List (ℕ × Migration) → ℕ → Option Migration
migration_from [] version = none
migration_from ((from_version, migration) ∷ rest) version =
    if eqb from_version version then some migration else migration_from rest version

-- The loop from `version` on, while it is less than `target`: so many steps are left.
unfoldable pub migrate : List (ℕ × Migration) → ℕ → ℕ → ℕ → Value → Result ConfigError Value
migrate migrations target zero version value = ok value
migrate migrations target (suc left) version value = elim (migration_from migrations version) [
  | none ↦ err (no_migration_path version target)
  | some migration ↦ elim (migration value) [
    | err source ↦ err (migration_failed version source)
    | ok migrated ↦
        migrate migrations target left (suc version) (write_version migrated (suc version))
  ]
]

-- `for f in &subs { f(&value) }`
unfoldable pub notify : {T W : Type 0} → List (T → W → W) → T → W → W
notify [] value w = w
notify (f ∷ rest) value w = notify rest value (f value w)

-- The answer, the store and the world after a call.
abbrev pub Called : Type 0 → Type 0 → Type 0 → Type 0
Called T W A = Result ConfigError A × (ConfigStore T W × W)

module _ {T W : Type 0} (config : VersionedConfig T) where
  unfoldable pub new_store : ConfigBackend W → ConfigFormat → ℕ → ConfigStore T W
  new_store on with_format version = record {
    backend = on;
    format = with_format;
    current_version = version;
    migrations = [];
    current = config.set_schema_version version config.default;
    subscribers = [];
  }

  unfoldable pub with_migration : ConfigStore T W → ℕ → Migration → ConfigStore T W
  with_migration store from_version migration = record store {
    migrations = (from_version, migration) ∷ store.migrations;
  }

  -- The document after its version is read.
  unfoldable pub load_document : ConfigStore T W → Value → Result ConfigError T
  load_document store value =
      if ltb store.current_version (read_version value)
      then err (version_too_new (read_version value) store.current_version)
      else elim (migrate store.migrations store.current_version
          (store.current_version - read_version value) (read_version value) value) [
            | err e ↦ err e
            | ok migrated ↦ elim (config.from_value migrated) [
              | err source ↦ err (parse store.backend.label source)
              | ok result ↦ ok (config.set_schema_version store.current_version result)
            ]
          ]

  unfoldable pub load : ConfigStore T W → W → Result ConfigError T
  load store w = elim (store.backend.read w) [
    | err e ↦ err e
    | ok bytes ↦ elim bytes [
      | [] ↦ ok (config.set_schema_version store.current_version config.default)
      | b ∷ more ↦ elim (store.format.bytes_to_value store.backend.label (b ∷ more)) [
        | err e ↦ err e
        | ok value ↦ load_document store value
      ]
    ]
  ]

  unfoldable pub save : ConfigStore T W → T → W → Called T W (Unit {0})
  save store given w =
      if not store.backend.supports_write
      then (err (read_only store.backend.label), (store, w))
      else let stamped = config.set_schema_version store.current_version given in
        elim (config.to_value stamped) [
          | err source ↦ (err (serialize store.backend.label source), (store, w))
          | ok json ↦ elim (store.format.value_to_bytes store.backend.label json) [
            | err e ↦ (err e, (store, w))
            | ok bytes ↦
                let (written, after) = store.backend.write bytes w in
                elim written [
                  | err e ↦ (err e, (store, after))
                  | ok done ↦ (ok tt, (record store { current = stamped }, after))
                ]
          ]
        ]

  unfoldable pub resolve : ConfigStore T W → W → Called T W T
  resolve store w = elim (load store w) [
    | err e ↦ (err e, (store, w))
    | ok value ↦ (ok value, (record store { current = value }, w))
  ]

  unfoldable pub reload : ConfigStore T W → W → Called T W (Unit {0})
  reload store w = elim (load store w) [
    | err e ↦ (err e, (store, w))
    | ok value ↦ (ok tt, (record store { current = value }, notify store.subscribers value w))
  ]

  unfoldable pub subscribe : ConfigStore T W → (T → W → W) → ConfigStore T W
  subscribe store f = record store { subscribers = store.subscribers ++ f ∷ [] }

  unfoldable pub set_current_and_notify : ConfigStore T W → T → W → ConfigStore T W × W
  set_current_and_notify store value w =
      (record store { current = value }, notify store.subscribers value w)
