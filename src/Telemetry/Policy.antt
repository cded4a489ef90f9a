-- ===== src/Telemetry/Policy.antt =====
-- src/telemetry/policy.rs: the one place where a telemetry decision is made. The environment is a
-- parameter of `detect_kill_switch`, as it is in the code. A secret string is its text, and a
-- `BTreeSet` the list of its elements.
pub mod Level
pub mod Silence
use Prim.Native.String
use cli_framework.Prelude.{
  String, Bool, true, false, not, ◌&&◌, ◌||◌, List, Option, none, some, contains, is_some,
  if◌then◌else◌, ◌==◌,
}
use cli_framework.Prelude.Text.{to_ascii_uppercase, to_underscore}
use cli_framework.Json.{Float, lt_float, le_float}
use cli_framework.Config.Resolution.{
  Layer, default, recommended, config_file, environment, builder_override, enforced,
}
use cli_framework.Telemetry.Axes.{
  Deployment, is_end_user, TelemetryLevel, off, diagnostic, debug, lt_level, eq_level, Attribution,
  anonymous, is_anonymous,
}
use cli_framework.Telemetry.Probe
use cli_framework.Telemetry.Probe.{ProbeRegistry}

pub data KillSwitch : Type 0 where
  app_disabled otel_sdk_disabled do_not_track : KillSwitch

-- `KillSwitch::as_str`
abbrev pub switch_str : KillSwitch → String
switch_str app_disabled = "<APP>_TELEMETRY_DISABLED"
switch_str otel_sdk_disabled = "OTEL_SDK_DISABLED"
switch_str do_not_track = "DO_NOT_TRACK"

-- 45 is the dash, 46 the dot.
unfoldable pub env_var_prefix : String → String
env_var_prefix app = to_underscore 45 46 (to_ascii_uppercase app)

unfoldable pub env_var : KillSwitch → String → String
env_var app_disabled app = String.◌++◌ (env_var_prefix app) "_TELEMETRY_DISABLED"
env_var otel_sdk_disabled app = switch_str otel_sdk_disabled
env_var do_not_track app = switch_str do_not_track

-- `setting.as_deref() == Some(wanted)`
abbrev pub is_set_to : Option String → String → Bool
is_set_to none wanted = false
is_set_to (some setting) wanted = setting == wanted

unfoldable pub detect_kill_switch : String → (String → Option String) → Option KillSwitch
detect_kill_switch app env =
    if is_set_to (env (String.◌++◌ (env_var_prefix app) "_TELEMETRY_DISABLED")) "1"
    then some app_disabled
    else if is_set_to (env "OTEL_SDK_DISABLED") "true"
    then some otel_sdk_disabled
    else if is_set_to (env "DO_NOT_TRACK") "1"
    then some do_not_track
    else none

pub record LayeredLevel : Type 0 where
  pub recommended : Option TelemetryLevel
  pub config_file : Option TelemetryLevel
  pub environment : Option TelemetryLevel
  pub builder_override : Option TelemetryLevel

pub record TelemetryInputs : Type 0 where
  pub app : String
  pub deployment : Deployment
  pub level : LayeredLevel
  pub policy_name : Option String
  pub endpoint : Option String
  pub endpoint_source : Option Layer
  pub attribution : Attribution
  pub install_id : Option String
  pub session_id : String
  pub kill_switch : Option KillSwitch
  pub registry : ProbeRegistry
  pub disabled_probes : List String
  pub store_available : Bool
  pub store_error : Option String
  pub app_attr_allowlist : List String
  pub extra_never : List String
  pub sample_ratio : Float
  pub headers : Option String

pub record TelemetryPolicy : Type 0 where
  pub app : String
  pub deployment : Deployment
  pub level : TelemetryLevel
  pub level_source : Layer
  pub policy_name : Option String
  pub attribution : Attribution
  pub endpoint : Option String
  pub endpoint_source : Option Layer
  pub install_id : Option String
  pub session_id : String
  pub kill_switch : Option KillSwitch
  pub registry : ProbeRegistry
  pub disabled_probes : List String
  pub store_available : Bool
  pub store_error : Option String
  pub app_attr_allowlist : List String
  pub extra_never : List String
  pub sample_ratio : Float
  pub headers : Option String

-- `if let Some(v) = given { current = (v, layer); }`
abbrev pub overlay : Option TelemetryLevel → Layer → TelemetryLevel × Layer → TelemetryLevel × Layer
overlay none layer current = current
overlay (some v) layer current = (v, layer)

unfoldable pub fold_layers : TelemetryLevel → LayeredLevel → Bool → TelemetryLevel × Layer
fold_layers start layers clamped =
    let stored =
      overlay layers.config_file config_file
        (overlay layers.recommended recommended (start, default)) in
    if not clamped
    then overlay layers.builder_override builder_override
        (overlay layers.environment environment stored)
    else stored

abbrev pub default_level : TelemetryInputs → TelemetryLevel
default_level inputs =
    if is_end_user inputs.deployment || not (is_some inputs.endpoint) then off else diagnostic

-- The level with the layer that it is from.
unfoldable pub resolve_level : TelemetryInputs → TelemetryLevel × Layer
resolve_level inputs =
    let full = fold_layers (default_level inputs) inputs.level false in
    let restricted = fold_layers (default_level inputs) inputs.level true in
    if is_some inputs.kill_switch
    then (off, enforced)
    else if is_end_user inputs.deployment
    then (if lt_level (restricted.0) (full.0) then restricted else full)
    else full

-- 1.0
abbrev pub one : Float
one = 0x3ff0000000000000

abbrev pub resolved_attribution : TelemetryInputs → Attribution
resolved_attribution inputs = if inputs.store_available then inputs.attribution else anonymous

unfoldable pub resolve_policy : TelemetryInputs → TelemetryPolicy
resolve_policy inputs = record {
  app = inputs.app;
  deployment = inputs.deployment;
  level = (resolve_level inputs).0;
  level_source = (resolve_level inputs).1;
  policy_name = inputs.policy_name;
  attribution = resolved_attribution inputs;
  endpoint = inputs.endpoint;
  endpoint_source = inputs.endpoint_source;
  install_id = if is_anonymous (resolved_attribution inputs) then none else inputs.install_id;
  session_id = inputs.session_id;
  kill_switch = inputs.kill_switch;
  registry = inputs.registry;
  disabled_probes = inputs.disabled_probes;
  store_available = inputs.store_available;
  store_error = inputs.store_error;
  app_attr_allowlist = inputs.app_attr_allowlist;
  extra_never = inputs.extra_never;
  sample_ratio =
      if lt_float 0 inputs.sample_ratio && le_float inputs.sample_ratio one
      then inputs.sample_ratio
      else one;
  headers = inputs.headers;
}

unfoldable pub exports : TelemetryPolicy → Bool
exports policy =
    not (is_some policy.kill_switch) && lt_level off policy.level && is_some policy.endpoint

-- `TelemetryPolicy::effective`
unfoldable pub probe_effective : TelemetryPolicy → String → Bool
probe_effective policy probe_id =
    Probe.effective policy.registry policy.level probe_id
      (λ id. not (contains policy.disabled_probes id))

unfoldable pub sampler_is_always_on : TelemetryPolicy → Bool
sampler_is_always_on policy = is_end_user policy.deployment || eq_level policy.level debug
