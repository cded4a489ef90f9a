-- ===== src/Telemetry/Startup/State.antt =====
-- The steps of telemetry's startup and the records that it passes on (src/telemetry/startup.rs).
use cli_framework.Prelude.{ℕ, String, Bool, List, [], ◌∷◌, Option, none}
use cli_framework.Json.{Float}
use cli_framework.Config.Manifest.{ConfigManifest}
use cli_framework.Config.Store.{VersionedConfig}
use cli_framework.Telemetry.Axes.{TelemetryLevel}
use cli_framework.Telemetry.Policy.{KillSwitch, TelemetryInputs, TelemetryPolicy}
use cli_framework.Telemetry.Notice.{Surface}
use cli_framework.Telemetry.Store.{
  TelemetrySettings, StoreState, default_state, TelemetryStore, Platform, TelemetryStoreLocation,
}

pub data StartupStep : Type 0 where
  kill_switches open_store merge_manifest resolve freeze_policy : StartupStep
  build_providers install_subscriber announce_notice install_panic_hook dispatch : StartupStep

abbrev pub startup_order : List StartupStep
startup_order =
    kill_switches ∷ open_store ∷ merge_manifest ∷ resolve ∷ freeze_policy ∷ build_providers
    ∷ install_subscriber ∷ announce_notice ∷ install_panic_hook ∷ dispatch ∷ []

pub data SubscriberOutcome : Type 0 where
  installed foreign_subscriber : SubscriberOutcome

pub record StartupReport (Finding : Type 0) : Type 0 where
  pub subscriber : SubscriberOutcome
  pub store : StoreState
  pub kill_switch : Option KillSwitch
  pub unmatched_env : List String
  pub findings : List Finding

-- `StartupReport::default()`
abbrev pub default_report : {Finding : Type 0} → StartupReport Finding
default_report = record {
  subscriber = installed;
  store = default_state;
  kill_switch = none;
  unmatched_env = [];
  findings = [];
}

pub record StartupInputs : Type 0 where
  pub base : TelemetryInputs
  pub store : TelemetryStoreLocation
  pub manifest : ConfigManifest
  pub surface : Surface
  pub stderr_is_tty : Bool
  pub env : List (String × String)

-- What the code calls outside of its own decisions. A handle stands for the live providers with
-- their guard.
pub record Process (Handle Finding W : Type 0) : Type 0 where
  pub config : VersionedConfig TelemetrySettings
  pub platform : Platform W
  pub parse_f64 : String → Option Float
  pub debug_form : String → String
  pub warn_unmatched : List String → W → W
  pub init_from_policy : TelemetryPolicy → W → Option Handle × W
  pub install_telemetry_subscriber : Handle → W → SubscriberOutcome × W
  pub attach_otel_layer_globally : Handle → W → Bool × W
  pub warn_once_foreign_subscriber : W → W
  pub foreign_subscriber_finding : Finding
  pub panic_hook : Handle → TelemetryPolicy → W → W

-- The guard: the providers with the budget of their flush at the end.
pub record TelemetryGuard (Handle : Type 0) : Type 0 where
  pub providers : Handle
  pub flush_budget : Option ℕ

pub record StartupResult (Handle Finding : Type 0) : Type 0 where
  pub policy : TelemetryPolicy
  pub report : StartupReport Finding
  pub handle : Option Handle
  pub guard : Option (TelemetryGuard Handle)
  pub notice : Option String
  pub panic_hook : Bool

-- What steps 2 and 3 leave behind.
pub record Gathered (Finding W : Type 0) : Type 0 where
  pub base : TelemetryInputs
  pub report : StartupReport Finding
  pub notice_shown : Option TelemetryLevel
  pub store : Option (TelemetryStore W)
  pub steps : List StartupStep
  pub world : W

-- What steps 6 and 7 leave behind.
pub record Built (Handle Finding W : Type 0) : Type 0 where
  pub handle : Option Handle
  pub guard : Option (TelemetryGuard Handle)
  pub report : StartupReport Finding
  pub steps : List StartupStep
  pub world : W
