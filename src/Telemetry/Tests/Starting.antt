-- ===== src/Telemetry/Tests/Starting.antt =====
-- The theorems on the startup of telemetry at a concrete process. The world counts the writes.
use cli_framework.Prelude.{
  if◌then◌else◌, Bool, false, ℕ, suc, ◌≡◌, refl, String, true, [], ◌∷◌, none, some, ok,
}
use cli_framework.Prelude.Text.{to_ascii_uppercase, to_underscore}
use cli_framework.Json
use cli_framework.Json.{Value}
use cli_framework.Config.Manifest.{manifest_schema_version, nil}
use cli_framework.Config.Store.{VersionedConfig, ConfigBackend, ConfigFormat, new_store, load}
use cli_framework.Telemetry.Axes.{off, debug, default_deployment, pseudonymous}
use cli_framework.Telemetry.Probe.{new_registry}
use cli_framework.Telemetry.Policy.{TelemetryInputs, detect_kill_switch, env_var_prefix}
use cli_framework.Telemetry.Notice.{cli}
use cli_framework.Telemetry.Store.{
  removed, missing, reset, TelemetrySettings, default_settings, Platform, settings, load_or_default,
  open_location, open_with_format, open_at_with_format,
}
use cli_framework.Telemetry.Startup.State.{StartupInputs, Process, startup_order, installed}
use cli_framework.Telemetry.Startup.{run_startup, run_startup_recording}
use cli_framework.Telemetry.Startup.Order.{Subsequence, run_startup_recording-Subsequence}
use cli_framework.Telemetry.Startup.Quiet.{IsSilent, run_startup-kill_switch}
use cli_framework.Telemetry.Store.Reset.{IsForgetful}
use cli_framework.Telemetry.Startup.Forgotten.{run_startup-reset}
use cli_framework.Telemetry.Startup.Consent.{run_startup-consent}

abbrev serde : VersionedConfig TelemetrySettings
serde = record {
  default = default_settings;
  set_schema_version = λ version given. record given { schema_version = version };
  to_value = λ given. ok Json.null;
  from_value = λ found. ok default_settings;
}

abbrev empty_file : ConfigBackend ℕ
empty_file = record {
  read = λ w. ok [];
  write = λ bytes w. (ok tt, suc w);
  supports_write = true;
  label = "file";
}

abbrev one_byte : ConfigFormat
one_byte = record {
  bytes_to_value = λ label bytes. ok Json.null;
  value_to_bytes = λ label written. ok (1 ∷ []);
}

abbrev machine : Platform ℕ
machine = record {
  config_dir = some "/etc";
  join_paths = λ dir name. dir;
  create_dir_all = λ dir w. (ok tt, suc w);
  remove_file = λ location w. (removed, suc w);
  file_backend = λ location. empty_file;
  format = one_byte;
  file_name = "telemetry.json";
  mint = λ w. ("id", w);
}

abbrev process : Process ℕ String ℕ
process = record {
  config = serde;
  platform = machine;
  parse_f64 = λ text. none;
  debug_form = λ text. text;
  warn_unmatched = λ names w. w;
  init_from_policy = λ policy w. (some 1, suc w);
  install_telemetry_subscriber = λ handle w. (installed, w);
  attach_otel_layer_globally = λ handle w. (true, w);
  warn_once_foreign_subscriber = λ w. w;
  foreign_subscriber_finding = "foreign";
  panic_hook = λ handle policy w. suc w;
}

-- Nobody has chosen a level; the builder asks for `debug`.
abbrev unasked : TelemetryInputs
unasked = record {
  app = "demo";
  deployment = default_deployment;
  level = record {
    recommended = none;
    config_file = none;
    environment = none;
    builder_override = some debug;
  };
  policy_name = none;
  endpoint = some "https://collector";
  endpoint_source = none;
  attribution = pseudonymous;
  install_id = none;
  session_id = "session";
  kill_switch = none;
  registry = new_registry;
  disabled_probes = [];
  store_available = true;
  store_error = none;
  app_attr_allowlist = [];
  extra_never = [];
  sample_ratio = 0;
  headers = none;
}

abbrev inputs : StartupInputs
inputs = record {
  base = unasked;
  store = record { dir = none };
  manifest = record {
    manifest_schema_version = manifest_schema_version;
    app = "demo";
    fields = nil;
  };
  surface = cli;
  stderr_is_tty = true;
  env = [];
}

abbrev untracked : StartupInputs
untracked = record inputs { env = ("DO_NOT_TRACK", "1") ∷ [] }

run_startup_recording-Subsequence_example :
    Subsequence (run_startup_recording process inputs 0).0.1 startup_order
run_startup_recording-Subsequence_example = run_startup_recording-Subsequence process inputs 0

-- The organisation recommends `debug`.
abbrev exporting : StartupInputs
exporting = record inputs {
  base = record unasked {
    level = record {
      recommended = some debug;
      config_file = none;
      environment = none;
      builder_override = none;
    };
  };
}

run_startup-kill_switch_example :
    IsSilent (run_startup process untracked 0).0 × ((run_startup process untracked 0).1 ≡ 0)
unfolding detect_kill_switch env_var_prefix to_ascii_uppercase to_underscore
run_startup-kill_switch_example = run_startup-kill_switch process untracked 0 refl

run_startup-consent_example :
    ((run_startup process inputs 0).0.policy.level ≡ off)
    × ((run_startup process inputs 0).0.handle ≡ none)
unfolding open_location open_with_format open_at_with_format settings load_or_default new_store load
run_startup-consent_example = run_startup-consent process inputs 0 refl refl refl

-- A machine whose settings file is there or not, and has the level `debug` where it is there.
abbrev one_file : Platform Bool
one_file = record {
  config_dir = some "/etc";
  join_paths = λ dir name. name;
  create_dir_all = λ dir there. (ok tt, there);
  remove_file = λ location there. (if there then removed else missing, false);
  file_backend = λ location. record {
    read = λ there. ok (if there then 1 ∷ [] else []);
    write = λ bytes there. (ok tt, true);
    supports_write = true;
    label = location;
  };
  format = one_byte;
  file_name = "telemetry.json";
  mint = λ there. ("id", there);
}

abbrev enabled_before : Process ℕ String Bool
enabled_before = record {
  config = record serde {
    from_value = λ found. ok (record default_settings { level = some debug });
  };
  platform = one_file;
  parse_f64 = λ text. none;
  debug_form = λ text. text;
  warn_unmatched = λ names w. w;
  init_from_policy = λ policy w. (some 1, w);
  install_telemetry_subscriber = λ handle w. (installed, w);
  attach_otel_layer_globally = λ handle w. (true, w);
  warn_once_foreign_subscriber = λ w. w;
  foreign_subscriber_finding = "foreign";
  panic_hook = λ handle policy w. w;
}

forgetful : IsForgetful enabled_before.config one_file
forgetful = (λ version. refl, (λ location w gone. refl, λ dir location w. refl))

-- The file is there before the reset.
run_startup-reset_example :
    ((run_startup enabled_before inputs false).0.policy.level ≡ off)
    × ((run_startup enabled_before inputs false).0.handle ≡ none)
unfolding open_location open_with_format open_at_with_format reset
run_startup-reset_example = run_startup-reset enabled_before inputs true forgetful refl refl refl
