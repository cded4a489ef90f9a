-- ===== src/Telemetry/Startup/Fold.antt =====
-- How the stored settings and the environment are folded into the inputs of the decision
-- (src/telemetry/startup.rs).
use cli_framework.Prelude.{
  ℕ, String, Bool, not, ◌||◌, List, [], ◌∷◌, Option, none, some, Map, ok, err, keep, or_else,
  if◌then◌else◌, ◌==◌,
}
use cli_framework.Prelude.Maps.{insert_key}
use cli_framework.Prelude.Text.{is_blank, strip_prefix, strip_suffix}
use cli_framework.Json
use cli_framework.Json.{Value, Float}
use cli_framework.Config.Resolution.{Layer, config_file, environment}
use cli_framework.Telemetry.Axes.{Deployment, end_user, service, parse_level, parse_attribution}
use cli_framework.Telemetry.Policy.{KillSwitch, detect_kill_switch, TelemetryInputs}
use cli_framework.Telemetry.Store.{TelemetrySettings, StoreState, is_ready, reason}
use cli_framework.Telemetry.Startup.State.{StartupReport}

-- The value of the first variable of that name.
abbrev pub env_value : List (String × String) → String → Option String
env_value [] key = none
env_value ((name, set_to) ∷ env) key = if name == key then some set_to else env_value env key

abbrev pub detect_kill_switch_in : String → List (String × String) → Option KillSwitch
detect_kill_switch_in app env = detect_kill_switch app (env_value env)

-- `set.remove(name)`, and either by a switch.
abbrev pub remove_name : String → List String → List String
remove_name name names = keep (λ n. not (n == name)) names

abbrev pub set_probe : String → Bool → List String → List String
set_probe probe enabled disabled =
    if enabled then remove_name probe disabled else insert_key probe disabled

unfoldable pub fold_probes : Map Bool → List String → List String
fold_probes [] disabled = disabled
fold_probes ((probe, enabled) ∷ probes) disabled =
    fold_probes probes (set_probe probe enabled disabled)

-- `endpoint.filter(|e| !e.trim().is_empty())`
abbrev pub filled : Option String → Option String
filled none = none
filled (some e) = if is_blank e then none else some e

abbrev pub set_endpoint : Option String → Layer → TelemetryInputs → TelemetryInputs
set_endpoint none layer base = base
set_endpoint (some e) layer base = record base { endpoint = some e; endpoint_source = some layer }

-- `if let Some(v) = given { slot = v; }`
abbrev pub replaced : {A : Type 0} → Option A → A → A
replaced none old = old
replaced (some new) old = new

unfoldable pub fold_store :
    {Finding : Type 0}
    → TelemetryInputs
    → StartupReport Finding
    → StoreState
    → TelemetrySettings
    → TelemetryInputs × StartupReport Finding
fold_store base report state given = (
  set_endpoint (filled given.endpoint) config_file (record base {
    store_available = is_ready state;
    store_error = reason state;
    level = record (base.level) { config_file = or_else given.level (base.level).config_file };
    attribution = replaced given.attribution base.attribution;
    install_id = or_else given.install_id base.install_id;
    disabled_probes = fold_probes given.probes base.disabled_probes;
  }),
  record report { store = state },
)

abbrev pub as_str : Value → Option String
as_str (Json.string s) = some s
as_str _ = none

abbrev pub as_bool : Value → Option Bool
as_bool (Json.bool b) = some b
as_bool _ = none

abbrev pub set_level : Option String → TelemetryInputs → TelemetryInputs
set_level none base = base
set_level (some s) base = elim (parse_level s) [
  | ok level ↦ record base { level = record (base.level) { environment = some level } }
  | err _ ↦ base
]

abbrev pub set_attribution : Option String → TelemetryInputs → TelemetryInputs
set_attribution none base = base
set_attribution (some s) base = elim (parse_attribution s) [
  | ok attribution ↦ record base { attribution = attribution }
  | err _ ↦ base
]

abbrev pub switch_probe : Option String → Option Bool → TelemetryInputs → TelemetryInputs
switch_probe (some probe) (some enabled) base = record base {
  disabled_probes = set_probe probe enabled base.disabled_probes;
}
switch_probe _ _ base = base

-- One leaf of the `telemetry` section.
unfoldable pub fold_key : String → Value → TelemetryInputs → TelemetryInputs
fold_key key given base =
    if key == "level"
    then set_level (as_str given) base
    else if key == "attribution"
    then set_attribution (as_str given) base
    else if key == "endpoint"
    then set_endpoint (filled (as_str given)) environment base
    else if key == "install_id" || key == "notice_shown"
    then base
    else switch_probe (strip_suffix key ".enabled") (as_bool given) base

unfoldable pub fold_environment : Map Value → TelemetryInputs → TelemetryInputs
fold_environment [] base = base
fold_environment ((path, given) ∷ values) base =
    fold_environment values
      (elim (strip_prefix path "telemetry.") [ some key ↦ fold_key key given base | none ↦ base ])

-- The budget of a flush at the end, in milliseconds (`END_USER_FLUSH_BUDGET` of
-- src/telemetry/guard.rs).
abbrev pub flush_budget_for : Deployment → Option ℕ
flush_budget_for (end_user _) = some 500
flush_budget_for service = none
