-- ===== src/Config/Tests.antt =====
-- The theorems on the configuration subsystem at concrete inputs, and runs of its code.
use cli_framework.Prelude.{
  ℕ, ◌+◌, String, ◌≡◌, refl, ◌↔◌, true, false, List, [], ◌∷◌, Option, none, some, Map, Result, ok,
  err, In, pos, inr, ◌≤ℤ◌,
}
use cli_framework.Prelude.Maps.{lookup, insert}
use cli_framework.Prelude.Text.{split}
use cli_framework.Json
use cli_framework.Json.{Value, Float, unsigned, entry, eq_value}
use cli_framework.Config.Manifest.{
  machine, FieldAttributes, FieldKind, field, FieldManifests, ConfigManifest, LeafField,
  iter_leaves, leaf_by_path,
}
use cli_framework.Config.Resolution.{
  enforced, ResolutionInput, unknown_key, server_tree_drop_reason_recommended,
  server_tree_drop_reason_enforced, value_matches_kind, resolve, resolve_leaves, resolve_leaf,
  server_layer, local_layer, default_value, new_provenance, value, provenance, paths,
}
use cli_framework.Config.Resolution.Precedence.{accepted, resolve-eq-chosen}
use cli_framework.Config.Resolution.ServerTrees.{with_trees, resolve-IsShielded, locked_iff}
use cli_framework.Config.Service.Types.{
  StoredPolicy, warn, AssignmentRule, RuleOperator, InheritanceError, cycle,
}
use cli_framework.Config.Service.Inherit.{
  resolve_chain, walk, bound_of, flatten, combined_chain_version,
}
use cli_framework.Config.Service.Inherit.Chain.{
  Chain, root, child, walk-finishes, resolve_chain_iff,
}
use cli_framework.Config.Service.Inherit.Merge.{lookup-flatten}
use cli_framework.Config.Service.Assignment.{claim_at_path, rule_matches, resolve_profile}
use cli_framework.Config.Service.Assignment.Laws.{resolve_profile-least}
use cli_framework.Config.Service.Validate.{
  PolicyStore, validate_stored_policy, default_rule_not_last_errors, by_profile, validate_all,
  assignment_rule_missing_profile_errors, constraint_violation_detail, stored_errors, chain_errors,
}
use cli_framework.Config.Service.Validate.Policies.{validated_policy_applies}
use cli_framework.Config.Service.MergePatch.{merge_patch, fields_of}
use cli_framework.Config.Service.MergePatch.Fields.{lookup-merge_patch}
use cli_framework.Config.Service.State.{ConfigServiceState, lookup_policy}
use cli_framework.Config.Service.State.Cache.{run, uncached, run-eq-uncached}

-- One name for what the runs below unfold.
resolver : Unit {0}
unfolding resolve resolve_leaves resolve_leaf server_layer local_layer default_value new_provenance
    value provenance lookup insert iter_leaves leaf_by_path value_matches_kind
    server_tree_drop_reason_recommended server_tree_drop_reason_enforced eq_value paths
resolver = tt

service : Unit {0}
unfolding resolver resolve_chain claim_at_path rule_matches resolve_profile split by_profile
    validate_stored_policy validate_all default_rule_not_last_errors lookup_policy
    combined_chain_version assignment_rule_missing_profile_errors constraint_violation_detail
    stored_errors chain_errors
service = tt

abbrev plain : FieldAttributes
plain = record {
  default = none;
  label = none;
  description = none;
  group = none;
  scope = machine;
  platforms = [];
  secret = false;
  local_only = false;
  protected = false;
  manageable = true;
  enforceable = true;
  restart_required = false;
  constraints = none;
}

abbrev text : String → Value
text s = Value.string s

-- `ui.theme` and `token`, which is secret.
abbrev theme : LeafField
theme = record { path = "ui.theme"; field = field "theme" FieldKind.str plain }

abbrev token : LeafField
token = record {
  path = "token";
  field = field "token" FieldKind.str (record plain { secret = true });
}

abbrev manifest : ConfigManifest
manifest = record {
  manifest_schema_version = 1;
  app = "app";
  fields =
      FieldManifests.cons
        (field "ui" (FieldKind.section (FieldManifests.cons theme.field FieldManifests.nil)) plain)
        (FieldManifests.cons token.field FieldManifests.nil);
}

abbrev input : ResolutionInput
input = record {
  recommended = [];
  config_file = ("token", text "mine") ∷ [];
  environment = [];
  flags = ("ui.theme", text "light") ∷ [];
  builder_overrides = [];
  enforced = ("ui.theme", text "dark") ∷ ("zone", text "eu") ∷ [];
}

leaves_of_manifest : iter_leaves manifest ≡ theme ∷ token ∷ []
unfolding resolver
leaves_of_manifest = refl

resolve-eq-chosen_example :
    (value (resolve manifest input) "ui.theme" ≡ some (text "dark"))
    × (provenance (resolve manifest input) "ui.theme"
        ≡ some (record { layer = enforced; locked = true }))
unfolding resolver
resolve-eq-chosen_example = resolve-eq-chosen manifest input "ui.theme"

resolve-IsShielded_example :
    (value (resolve manifest (with_trees input [] (("token", text "theirs") ∷ []))) "token"
      ≡ value (resolve manifest input) "token")
    × (provenance (resolve manifest (with_trees input [] (("token", text "theirs") ∷ []))) "token"
        ≡ provenance (resolve manifest input) "token")
unfolding resolver
resolve-IsShielded_example =
    resolve-IsShielded manifest input [] (("token", text "theirs") ∷ []) token "token" refl
      (inr (inr refl))

locked_iff_example :
    (provenance (resolve manifest input) "ui.theme"
      ≡ some (record { layer = enforced; locked = true }))
    ↔ ((raw : Value) × (accepted server_tree_drop_reason_enforced theme input.enforced ≡ some raw)
        × (value (resolve manifest input) "ui.theme" ≡ some raw))
unfolding resolver
locked_iff_example = locked_iff manifest input theme "ui.theme" refl

warnings_of_run :
    (resolve manifest input).warnings ≡ record { path = "zone"; reason = unknown_key } ∷ []
unfolding resolver
warnings_of_run = refl

-- Two profiles, one below the other.
abbrev base : StoredPolicy
base = record {
  app = "app";
  profile = "base";
  enforced = ("ui.theme", text "dark") ∷ [];
  recommended = [];
  parent_profile = none;
  max_cache_age_secs = 3600;
  stale_action = warn;
  version = 4;
}

abbrev staff : StoredPolicy
staff = record base { profile = "staff"; enforced = []; parent_profile = some "base"; version = 9 }

abbrev profiles : Map StoredPolicy
profiles = ("base", base) ∷ ("staff", staff) ∷ []

Chain-of_staff : Chain profiles "staff" ("staff" ∷ "base" ∷ []) (staff ∷ base ∷ [])
unfolding lookup
Chain-of_staff = child refl refl (root refl refl)

walk-finishes_example :
    (r : Result InheritanceError (List StoredPolicy)) × (walk
        (bound_of profiles + 1)
        profiles
        "staff"
        (bound_of profiles)
        []
        []
        "staff"
      ≡ some r)
    × (resolve_chain profiles "staff" ≡ r)
walk-finishes_example = walk-finishes profiles "staff"

resolve_chain_iff_example :
    (resolve_chain profiles "staff" ≡ ok (staff ∷ base ∷ []))
    ↔ ((names : List String) × Chain profiles "staff" names (staff ∷ base ∷ []))
resolve_chain_iff_example = resolve_chain_iff profiles "staff" (staff ∷ base ∷ [])

chain_runs : resolve_chain profiles "staff" ≡ ok (staff ∷ base ∷ [])
chain_runs = resolve_chain_iff_example.1 ("staff" ∷ "base" ∷ [], Chain-of_staff)

cycle_runs :
    resolve_chain (("staff", record staff { parent_profile = some "staff" }) ∷ []) "staff"
    ≡ err (cycle "staff")
unfolding service
cycle_runs = refl

lookup-flatten_example :
    (lookup "ui.theme" (flatten (staff ∷ base ∷ [])).0 ≡ some (text "dark"))
    × (lookup "ui.theme" (flatten (staff ∷ base ∷ [])).1 ≡ none)
unfolding lookup
lookup-flatten_example =
    lookup-flatten (staff ∷ base ∷ []) "ui.theme" ((tt, tt), (((refl, tt), tt), tt))

abbrev claims : Value
claims = Value.object (entry "team" (text "ops") Json.end)

abbrev anyone : AssignmentRule
anyone = record {
  app = "app";
  ord = pos 9;
  claim_path = "";
  operator = RuleOperator.default;
  value = none;
  profile = "base";
}

abbrev ops : AssignmentRule
ops = record {
  app = "app";
  ord = pos 2;
  claim_path = "team";
  operator = RuleOperator.equals;
  value = some (text "ops");
  profile = "staff";
}

ops_is_chosen : resolve_profile (anyone ∷ ops ∷ []) claims ≡ some ops
unfolding service
ops_is_chosen = refl

resolve_profile-least_example :
    In ops (anyone ∷ ops ∷ [])
    × (rule_matches ops claims ≡ true)
    × ((other : AssignmentRule)
        → In other (anyone ∷ ops ∷ [])
        → rule_matches other claims ≡ true
        → ops.ord ≤ℤ other.ord)
resolve_profile-least_example = resolve_profile-least (anyone ∷ ops ∷ []) claims ops ops_is_chosen

-- No value of the samples is a number.
abbrev no_floats : Value → Option Float
no_floats v = none

validated_policy_applies_example :
    ((resolve manifest (with_trees input base.recommended base.enforced)).warnings ≡ [])
    × ((path : String) (raw : Value)
        → lookup path base.enforced ≡ some raw
        → value (resolve manifest (with_trees input base.recommended base.enforced)) path
          ≡ some raw)
unfolding service
validated_policy_applies_example =
    validated_policy_applies no_floats manifest base input (refl, (refl, tt)) refl

abbrev store : PolicyStore
store = record {
  apps = ok ("app" ∷ []);
  manifest = λ _. ok (some manifest);
  policies_for_app = λ _. ok (base ∷ staff ∷ []);
  assignment_rules = λ _. ok (anyone ∷ ops ∷ []);
}

abbrev state : ConfigServiceState
state = record { policy_store = store; cache = [] }

abbrev sum_hash : List (String × ℕ) → ℕ
sum_hash [] = 0
sum_hash ((_, v) ∷ rest) = v + sum_hash rest

run-eq-uncached_example :
    run sum_hash state (("app", claims) ∷ ("app", claims) ∷ [])
    ≡ uncached sum_hash store ("app", claims) ∷ uncached sum_hash store ("app", claims) ∷ []
run-eq-uncached_example = run-eq-uncached sum_hash state (("app", claims) ∷ ("app", claims) ∷ []) tt

-- `{"a": 1}` patched with `{"a": null, "b": 2}`.
lookup-merge_patch_example :
    lookup "b" (
      fields_of (
        merge_patch (Json.object (Json.entry "a" (Json.number (unsigned 1)) Json.end)) (
          Json.object
            (Json.entry "a" Json.null (Json.entry "b" (Json.number (unsigned 2)) Json.end)))))
    ≡ some (Json.number (unsigned 2))
unfolding lookup merge_patch
lookup-merge_patch_example =
    lookup-merge_patch "b" (Json.object (Json.entry "a" (Json.number (unsigned 1)) Json.end))
      (Json.entry "a" Json.null (Json.entry "b" (Json.number (unsigned 2)) Json.end))
      (refl, (refl, tt))
