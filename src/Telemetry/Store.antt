-- ===== src/Telemetry/Store.antt =====
-- src/telemetry/store.rs: the settings file that the framework owns, over the versioned store of
-- src/config/store.rs. The platform (directories, the file backend and the format) and serde are
-- parameters.
pub mod Reset
use Prim.Native.String
use cli_framework.Prelude.{
  ℕ, String, Bool, true, false, [], Option, none, some, Map, Result, ok, err,
}
use cli_framework.Config.Store as Versioned
use cli_framework.Config.Store.{
  ConfigError, VersionedConfig, ConfigFormat, ConfigBackend, ConfigStore, new_store, load, save,
}
use cli_framework.Telemetry.Axes.{TelemetryLevel, Attribution}

abbrev pub telemetry_schema_version : ℕ
telemetry_schema_version = 1

pub record TelemetrySettings : Type 0 where
  pub schema_version : ℕ
  pub level : Option TelemetryLevel
  pub attribution : Option Attribution
  pub endpoint : Option String
  pub install_id : Option String
  pub notice_shown : Option TelemetryLevel
  pub probes : Map Bool

-- `TelemetrySettings::default()`
abbrev pub default_settings : TelemetrySettings
default_settings = record {
  schema_version = 0;
  level = none;
  attribution = none;
  endpoint = none;
  install_id = none;
  notice_shown = none;
  probes = [];
}

pub data StoreState : Type 0 where
  ready : (path : String) → StoreState
  unavailable : (because : String) → StoreState

abbrev pub default_state : StoreState
default_state = unavailable "not opened"

abbrev pub is_ready : StoreState → Bool
is_ready (ready _) = true
is_ready (unavailable _) = false

-- `StoreState::reason`
abbrev pub reason : StoreState → Option String
reason (ready _) = none
reason (unavailable why) = some why

unfoldable pub describe : StoreState → String
describe (ready location) = location
describe (unavailable why) = String.◌++◌ "unavailable: " why

pub record TelemetryStore (W : Type 0) : Type 0 where
  pub state : StoreState
  pub store : Option (ConfigStore TelemetrySettings W)

-- What `remove_file` comes to: the file is gone, was not there, or is there for a reason.
pub data Removal : Type 0 where
  removed missing : Removal
  failed : (because : String) → Removal

-- What the store needs of the world: whether there is a configuration directory, how paths are
-- joined, how a directory is made and a file removed, a file as a backend, and a format with its
-- file name.
pub record Platform (W : Type 0) : Type 0 where
  pub config_dir : Option String
  pub join_paths : String → String → String
  pub create_dir_all : String → W → Result String (Unit {0}) × W
  pub remove_file : String → W → Removal × W
  pub file_backend : String → ConfigBackend W
  pub format : ConfigFormat
  pub file_name : String
  pub mint : W → String × W

module _ {W : Type 0} (config : VersionedConfig TelemetrySettings) (platform : Platform W) where
  unfoldable pub open_at_with_format : String → String → W → TelemetryStore W × W
  open_at_with_format dir app w =
      let app_dir = platform.join_paths dir app in
      let (made, after) = platform.create_dir_all app_dir w in
      let location = platform.join_paths app_dir platform.file_name in
      elim made [
        | err why ↦ (
          record {
            state =
                unavailable
                  (String.◌++◌ "cannot create " (String.◌++◌ app_dir (String.◌++◌ ": " why)));
            store = none;
          },
          after,
        )
        | ok _ ↦ (
          record {
            state = ready location;
            store = some (
                new_store config (platform.file_backend location) platform.format
                  telemetry_schema_version);
          },
          after,
        )
      ]

  unfoldable pub open_with_format : String → W → TelemetryStore W × W
  open_with_format app w = elim platform.config_dir [
    | some dir ↦ open_at_with_format dir app w
    | none ↦ (
      record {
        state = unavailable "this platform has no resolvable configuration directory";
        store = none;
      },
      w,
    )
  ]

  -- `store.load().unwrap_or_default()`
  unfoldable pub load_or_default : ConfigStore TelemetrySettings W → W → TelemetrySettings
  load_or_default inner w = elim (load config inner w) [
    | ok found ↦ found
    | err _ ↦ default_settings
  ]

  unfoldable pub settings : TelemetryStore W → W → TelemetrySettings
  settings store w = elim store.store [
    | none ↦ default_settings
    | some inner ↦ load_or_default inner w
  ]

  -- The store's own copy of what was saved is not read again and is left out.
  unfoldable pub mutate :
      TelemetryStore W
      → (TelemetrySettings → TelemetrySettings)
      → W
      → Result ConfigError TelemetrySettings × W
  mutate store change w = elim store.store [
    | none ↦ (err (Versioned.read_only (describe store.state)), w)
    | some inner ↦
        let changed = change (load_or_default inner w) in
        let (saved, (_, after)) = save config inner changed w in
        (elim saved [ ok _ ↦ ok changed | err e ↦ err e ], after)
  ]

  -- The change that `ensure_install_id` makes.
  abbrev pub with_install_id : String → TelemetrySettings → TelemetrySettings
  with_install_id minted given = elim given.install_id [
    | none ↦ record given { install_id = some minted }
    | some _ ↦ given
  ]

  unfoldable pub ensure_install_id : TelemetryStore W → W → Option String × W
  ensure_install_id store w = elim (settings store w).install_id [
    | some existing ↦ (some existing, w)
    | none ↦
        let (minted, before) = platform.mint w in
        let (changed, after) = mutate store (with_install_id minted) before in
        (elim changed [ ok given ↦ given.install_id | err _ ↦ none ], after)
  ]

-- `TelemetryStore::reset`
unfoldable pub reset :
    {W : Type 0} → Platform W → TelemetryStore W → W → Result ConfigError (Unit {0}) × W
reset platform store w = elim store.state [
  | unavailable why ↦ (err (Versioned.read_only (describe store.state)), w)
  | ready location ↦
      let (removal, after) = platform.remove_file location w in
      (
        elim removal [
          | removed ↦ ok tt
          | missing ↦ ok tt
          | failed why ↦ err (Versioned.backend_write location why)
        ],
        after,
      )
]

-- `TelemetryStoreLocation`, with the format in the platform.
pub record TelemetryStoreLocation : Type 0 where
  pub dir : Option String

unfoldable pub open_location :
    {W : Type 0}
    → VersionedConfig TelemetrySettings
    → Platform W
    → TelemetryStoreLocation
    → String
    → W
    → TelemetryStore W × W
open_location config platform location app w = elim location.dir [
  | some dir ↦ open_at_with_format config platform dir app w
  | none ↦ open_with_format config platform app w
]
