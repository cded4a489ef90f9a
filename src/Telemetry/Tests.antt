-- ===== src/Telemetry/Tests.antt =====
-- The theorems on telemetry at concrete inputs.
mod Starting
mod Advertising
use cli_framework.Prelude.{
  ◌≡◌, ◌≢◌, ◌≤◌, ◌<◌, ◌↔◌, ◌⊎◌, refl, inl, inr, String, Bool, true, false, not, List, [], ◌∷◌,
  Option, none, some, is_some, In, min, ok, err, arith, if◌then◌else◌, ◌==◌, eq_refl,
}
use cli_framework.Prelude.Text.{
  to_ascii_uppercase, to_underscore, to_ascii_lowercase, all_chars, split,
}
use cli_framework.Prelude.Sorting.{sort_by, insert_by}
use cli_framework.Json.{lt_float, le_float, eq_float}
use cli_framework.Config.Resolution.{Layer, default, recommended}
use cli_framework.Telemetry.Axes.{
  TelemetryLevel, off, usage, diagnostic, debug, rank, end_user, service, is_end_user,
  default_deployment, pseudonymous, is_anonymous,
}
use cli_framework.Telemetry.Probe.{
  ProbeSpec, ProbeRegistry, new_registry, register, validate_probe_id, check_id, check_segments,
  get, has_probe, effective,
}
use cli_framework.Telemetry.Probe.Grammar.{IsProbeId, validate_probe_id_iff}
use cli_framework.Telemetry.Probe.Order.{
  IsBuilt, empty, registered, IsOrdered, IsBuilt-IsOrdered, get-register,
}
use cli_framework.Telemetry.Probe.Effective.{IsAncestor, effective_iff}
use cli_framework.Telemetry.Policy.{
  KillSwitch, TelemetryInputs, TelemetryPolicy, LayeredLevel, detect_kill_switch, resolve_policy,
  resolve_level, fold_layers, exports, probe_effective, one,
}
use cli_framework.Telemetry.Policy.Level.{resolve_policy-end_user, resolve_policy-service}
use cli_framework.Telemetry.Policy.Silence.{
  IsTriggered, detect_kill_switch-none_iff, resolve_policy-IsBounded,
}
use cli_framework.Telemetry.Redact.{
  RedactionRules, keeps_attribute, is_framework_key, attribute_min_level,
}
use cli_framework.Telemetry.Redact.Laws.{IsForbidden, keeps_attribute_iff}
use cli_framework.Telemetry.Notice.{
  Surface, cli, chat, is_human, notice_decision, notice_text, show,
}
use cli_framework.Telemetry.Notice.Laws.{IsNews, notice_decision_iff, notice_decision_once}

abbrev probe : String → TelemetryLevel → ProbeSpec
probe id level = record { id = id; min_level = level; summary = "a probe"; sends = "its name" }

abbrev parent_probe : ProbeSpec
parent_probe = probe "cli.command" usage

abbrev child_probe : ProbeSpec
child_probe = probe "cli.command.args" diagnostic

-- The child is registered first.
abbrev child_alone : ProbeRegistry
child_alone = record { probes = child_probe ∷ [] }

abbrev both : ProbeRegistry
both = record { probes = parent_probe ∷ child_probe ∷ [] }

first_registered : register new_registry child_probe ≡ ok child_alone
unfolding register validate_probe_id check_id check_segments sort_by insert_by all_chars split
first_registered = refl

second_registered : register child_alone parent_probe ≡ ok both
unfolding register validate_probe_id check_id check_segments sort_by insert_by all_chars split
second_registered = refl

both-IsBuilt : IsBuilt both
both-IsBuilt =
    registered parent_probe (registered child_probe empty first_registered) second_registered

IsBuilt-IsOrdered_example : IsOrdered both
IsBuilt-IsOrdered_example = IsBuilt-IsOrdered both both-IsBuilt

-- Everything but `cli.command` is enabled.
abbrev without_commands : String → Bool
without_commands id = not (id == "cli.command")

effective_iff_example : (effective both debug "cli.command.args" without_commands ≡ true) ↔ (
    (spec : ProbeSpec) × ((get both "cli.command.args" ≡ some spec)
      × ((debug ≢ off)
          × ((rank spec.min_level ≤ rank debug)
              × ((p : String)
                  → IsAncestor p "cli.command.args"
                  → has_probe both p ≡ true
                  → without_commands p ≡ true)))))
effective_iff_example = effective_iff both without_commands debug "cli.command.args" both-IsBuilt

validate_probe_id_iff_example : (validate_probe_id "http.client" ≡ ok tt) ↔ IsProbeId "http.client"
validate_probe_id_iff_example = validate_probe_id_iff "http.client"

abbrev no_choice : LayeredLevel
no_choice = record {
  recommended = none;
  config_file = none;
  environment = none;
  builder_override = none;
}

-- A person's install that the organisation recommends `usage` to, while the environment asks for
-- `debug`.
abbrev eager : TelemetryInputs
eager = record {
  app = "demo-app";
  deployment = default_deployment;
  level = record no_choice { recommended = some usage; environment = some debug };
  policy_name = some "org";
  endpoint = some "https://collector";
  endpoint_source = none;
  attribution = pseudonymous;
  install_id = some "id";
  session_id = "session";
  kill_switch = none;
  registry = both;
  disabled_probes = [];
  store_available = true;
  store_error = none;
  app_attr_allowlist = "plan" ∷ [];
  extra_never = "blood" ∷ [];
  sample_ratio = 0;
  headers = none;
}

resolve_policy-end_user_example : rank (resolve_policy eager).level ≡ min (rank usage) (rank debug)
resolve_policy-end_user_example = resolve_policy-end_user eager refl refl

abbrev tracked : String → Option String
tracked name = if name == "DO_NOT_TRACK" then some "0" else none

abbrev rules : RedactionRules
rules = record { level = usage; app_attr_allowlist = "plan" ∷ []; extra_never = "blood" ∷ [] }

keeps_attribute_iff_example : (keeps_attribute rules "plan" ≡ true) ↔ (
    (¬ IsForbidden "plan" rules.extra_never)
    × ((rules.level ≢ off)
        × (((is_framework_key "plan" ≡ true) ⊎ In "plan" rules.app_attr_allowlist)
            × (rank (attribute_min_level "plan") ≤ rank rules.level))))
keeps_attribute_iff_example = keeps_attribute_iff rules "plan"

abbrev quoted : String → String
quoted s = s

notice_decision_iff_example :
    (notice_decision quoted (resolve_policy eager) (some off) cli true
      ≡ show (notice_text quoted (resolve_policy eager)) (resolve_policy eager).level)
    ↔ ((is_end_user (resolve_policy eager).deployment ≡ true)
        × ((is_some (resolve_policy eager).kill_switch ≡ false)
            × ((is_human cli ≡ true) × ((true ≡ true) × IsNews (resolve_policy eager) (some off)))))
notice_decision_iff_example = notice_decision_iff quoted (resolve_policy eager) (some off) cli true

told_once :
    notice_decision quoted (resolve_policy eager) (some off) cli true
    ≡ show (notice_text quoted (resolve_policy eager)) usage
unfolding notice_decision resolve_policy resolve_level fold_layers
told_once = refl
