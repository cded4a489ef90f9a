-- ===== src/Config/Service/Validate.antt =====
-- src/config/service/validate.rs: what a stored policy must satisfy, at startup and before a write.
pub mod Policies
pub mod Startup
use cli_framework.Prelude.{
  ℕ, String, ℤ, Bool, true, false, not, ◌&&◌, List, [], ◌∷◌, ◌++◌, Option, none, some, Map, Result,
  ok, err, any, keep, contains, ltb_ℤ, eqb_ℤ, is_some, if◌then◌else◌, ◌==◌, map,
}
use Prim.Native.String
use cli_framework.Prelude.Maps.{lookup, insert}
use cli_framework.Json.{Value, Float, lt_float, eq_value}
use cli_framework.Config.Manifest.{
  FieldManifest, FieldConstraints, attributes, ConfigManifest, leaf_by_path,
}
use cli_framework.Config.Resolution.{
  WarningReason, local_only_in_server_tree, not_manageable_in_server_tree, secret_in_server_tree,
  org_scope_in_recommended, not_enforceable_in_enforced, unknown_key, type_mismatch,
  server_tree_drop_reason_recommended, server_tree_drop_reason_enforced,
}
use cli_framework.Config.Service.Types
use cli_framework.Config.Service.Types.{
  StoredPolicy, AssignmentRule, RuleOperator, Violation, PolicyValidationError, InheritanceError,
}
use cli_framework.Config.Service.Inherit.{resolve_chain}

exceeds_maximum : FieldConstraints → Float → Option Violation
exceeds_maximum c num = elim c.max [
  | none ↦ none
  | some max ↦ if lt_float max num then some (Violation.above_maximum num max) else none
]

-- The check of a number against its range.
range_violation : FieldConstraints → Float → Option Violation
unfolding exceeds_maximum
range_violation c num = elim c.min [
  | none ↦ exceeds_maximum c num
  | some min ↦
      if lt_float num min then some (Violation.below_minimum num min) else exceeds_maximum c num
]

allowed_violation : FieldConstraints → Value → Option Violation
allowed_violation c value = elim c.allowed_values [
  | none ↦ none
  | some allowed ↦
      if any (λ v. eq_value v value) allowed
      then none
      else some (Violation.not_allowed value allowed)
]

map_reason : String → String → String → WarningReason → PolicyValidationError
map_reason app profile path local_only_in_server_tree =
    PolicyValidationError.local_only app profile path
map_reason app profile path not_manageable_in_server_tree =
    PolicyValidationError.not_manageable app profile path
map_reason app profile path secret_in_server_tree = PolicyValidationError.secret app profile path
map_reason app profile path org_scope_in_recommended =
    PolicyValidationError.org_scope_in_recommended app profile path
map_reason app profile path not_enforceable_in_enforced =
    PolicyValidationError.not_enforceable app profile path
map_reason app profile path unknown_key = PolicyValidationError.unknown_field app profile path
map_reason app profile path type_mismatch = PolicyValidationError.type_mismatch app profile path

-- `Value::as_f64` of serde_json is a parameter.
module _ (as_f64 : Value → Option Float) where
  constraints_violation : FieldConstraints → Value → Option Violation
  unfolding range_violation allowed_violation
  constraints_violation c value = elim (as_f64 value) [
    | none ↦ allowed_violation c value
    | some num ↦ elim (range_violation c num) [ some v ↦ some v | none ↦ allowed_violation c value ]
  ]

  unfoldable pub constraint_violation_detail : FieldManifest → Value → Option Violation
  unfolding constraints_violation
  constraint_violation_detail f value = elim (attributes f).constraints [
    | none ↦ none
    | some c ↦ constraints_violation c value
  ]

  -- The body of the loop over the entries of one tree.
  unfoldable pub entry_error :
      ConfigManifest
      → StoredPolicy
      → (FieldManifest → Value → Option WarningReason)
      → String
      → Value
      → Option PolicyValidationError
  unfolding map_reason
  entry_error manifest policy drop_reason path value = elim (leaf_by_path manifest path) [
    | none ↦ some (PolicyValidationError.unknown_field policy.app policy.profile path)
    | some f ↦ elim (drop_reason f value) [
      | some reason ↦ some (map_reason policy.app policy.profile path reason)
      | none ↦ elim (constraint_violation_detail f value) [
        | none ↦ none
        | some detail ↦
            some (PolicyValidationError.constraint_violation policy.app policy.profile path detail)
      ]
    ]
  ]

  unfoldable pub tree_errors :
      ConfigManifest
      → StoredPolicy
      → (FieldManifest → Value → Option WarningReason)
      → Map Value
      → List PolicyValidationError
  tree_errors manifest policy drop_reason [] = []
  tree_errors manifest policy drop_reason ((path, value) ∷ tree) =
      let rest = tree_errors manifest policy drop_reason tree in
      elim (entry_error manifest policy drop_reason path value) [ none ↦ rest | some e ↦ e ∷ rest ]

  unfoldable pub validate_stored_policy : ConfigManifest → StoredPolicy → List PolicyValidationError
  unfolding tree_errors entry_error
  validate_stored_policy manifest policy =
      tree_errors manifest policy server_tree_drop_reason_recommended policy.recommended
      ++ tree_errors manifest policy server_tree_drop_reason_enforced policy.enforced

-- `policies.iter().map(|p| (p.profile, p)).collect()`
unfoldable pub by_profile : List StoredPolicy → Map StoredPolicy → Map StoredPolicy
by_profile [] m = m
by_profile (p ∷ ps) m = by_profile ps (insert p.profile p m)

unfoldable pub assignment_rule_missing_profile_errors :
    String → List AssignmentRule → Map StoredPolicy → List PolicyValidationError
assignment_rule_missing_profile_errors app rules profiles =
    map (λ r. PolicyValidationError.assignment_rule_missing_profile app r.ord r.profile)
      (keep (λ r. not (is_some (lookup r.profile profiles))) rules)

-- `iter().max()`
max_ord : List AssignmentRule → Option ℤ
max_ord [] = none
max_ord (r ∷ rules) = elim (max_ord rules) [
  | none ↦ some r.ord
  | some m ↦ if ltb_ℤ m r.ord then some r.ord else some m
]

abbrev is_default : RuleOperator → Bool
is_default RuleOperator.default = true
is_default _ = false

unfoldable pub default_rule_not_last_errors :
    String → List AssignmentRule → List PolicyValidationError
unfolding max_ord
default_rule_not_last_errors app rules = elim (max_ord rules) [
  | none ↦ []
  | some max ↦
      map (λ r. PolicyValidationError.default_rule_not_last app r.ord max)
        (keep (λ r. is_default r.operator && not (eqb_ℤ r.ord max)) rules)
]

-- What `PolicyStore` answers: a document, or the text of a storage error.
pub record PolicyStore : Type 0 where
  pub apps : Result String (List String)
  pub manifest : String → Result String (Option ConfigManifest)
  pub policies_for_app : String → Result String (List StoredPolicy)
  pub assignment_rules : String → Result String (List AssignmentRule)

abbrev storage_error : String → String → String → String → PolicyValidationError
storage_error app profile doing e =
    PolicyValidationError.unknown_field app profile
      (String.◌++◌ "<storage error " (String.◌++◌ doing (String.◌++◌ ": " (String.◌++◌ e ">"))))

chain_error : String → Result InheritanceError (List StoredPolicy) → List PolicyValidationError
chain_error app (ok chain) = []
chain_error app (err (InheritanceError.profile_not_found profile)) = []
chain_error app (err (InheritanceError.missing_parent child parent)) =
    PolicyValidationError.missing_parent app child parent ∷ []
chain_error app (err (InheritanceError.cycle profile)) =
    PolicyValidationError.inheritance_cycle app profile ∷ []

unfoldable pub chain_errors :
    String → Map StoredPolicy → List StoredPolicy → List PolicyValidationError
unfolding chain_error
chain_errors app profiles [] = []
chain_errors app profiles (p ∷ ps) =
    chain_error app (resolve_chain profiles p.profile) ++ chain_errors app profiles ps

rules_errors :
    String → Map StoredPolicy → Result String (List AssignmentRule) → List PolicyValidationError
rules_errors app profiles (ok rules) =
    assignment_rule_missing_profile_errors app rules profiles
    ++ default_rule_not_last_errors app rules
rules_errors app profiles (err e) = storage_error app "*" "loading assignment rules" e ∷ []

missing_manifests : String → List StoredPolicy → List PolicyValidationError
missing_manifests app ps = map (λ p. PolicyValidationError.missing_manifest app p.profile) ps

module _ (as_f64 : Value → Option Float) where
  unfoldable pub stored_errors : ConfigManifest → List StoredPolicy → List PolicyValidationError
  stored_errors manifest [] = []
  stored_errors manifest (p ∷ ps) =
      validate_stored_policy as_f64 manifest p ++ stored_errors manifest ps

  -- The part of the loop's body that needs the manifest.
  policies_errors :
      String
      → Option ConfigManifest
      → Map StoredPolicy
      → List StoredPolicy
      → List PolicyValidationError
  unfolding missing_manifests stored_errors chain_errors
  policies_errors app none profiles ps = missing_manifests app ps
  policies_errors app (some manifest) profiles ps =
      stored_errors manifest ps ++ chain_errors app profiles ps

  loaded_errors :
      PolicyStore
      → String
      → Option ConfigManifest
      → Result String (List StoredPolicy)
      → List PolicyValidationError
  unfolding policies_errors rules_errors by_profile
  loaded_errors store app manifest (err e) = storage_error app "*" "loading policies" e ∷ []
  loaded_errors store app manifest (ok ps) =
      rules_errors app (by_profile ps []) (store.assignment_rules app)
      ++ policies_errors app manifest (by_profile ps []) ps

  manifest_errors :
      PolicyStore → String → Result String (Option ConfigManifest) → List PolicyValidationError
  unfolding loaded_errors
  manifest_errors store app (ok manifest) =
      loaded_errors store app manifest (store.policies_for_app app)
  manifest_errors store app (err e) =
      storage_error app "*" "loading manifest" e
      ∷ loaded_errors store app none (store.policies_for_app app)

  -- The body of the loop over the applications.
  unfoldable pub app_errors : PolicyStore → String → List PolicyValidationError
  unfolding manifest_errors
  app_errors store app = manifest_errors store app (store.manifest app)

  unfoldable pub apps_errors : PolicyStore → List String → List PolicyValidationError
  apps_errors store [] = []
  apps_errors store (app ∷ apps) = app_errors store app ++ apps_errors store apps

  validated : List PolicyValidationError → Result (List PolicyValidationError) (Unit {0})
  validated [] = ok tt
  validated (e ∷ errors) = err (e ∷ errors)

  unfoldable pub validate_all : PolicyStore → Result (List PolicyValidationError) (Unit {0})
  unfolding validated apps_errors app_errors
  validate_all store = elim store.apps [
    | err e ↦ err (storage_error "*" "*" "listing apps" e ∷ [])
    | ok apps ↦ validated (apps_errors store apps)
  ]

  -- `candidate` over the other stored policies.
  abbrev with_candidate : StoredPolicy → List StoredPolicy → Map StoredPolicy
  with_candidate candidate ps =
      insert candidate.profile candidate
        (by_profile (keep (λ p. not (p.profile == candidate.profile)) ps) [])

  unfoldable pub validate_policy_for_write : PolicyStore → StoredPolicy → List PolicyValidationError
  unfolding by_profile chain_error
  validate_policy_for_write store candidate = elim (store.manifest candidate.app) [
    | err e ↦ storage_error candidate.app candidate.profile "loading manifest" e ∷ []
    | ok found ↦ elim found [
      | none ↦ PolicyValidationError.missing_manifest candidate.app candidate.profile ∷ []
      | some manifest ↦ elim (store.policies_for_app candidate.app) [
        | err e ↦
            validate_stored_policy as_f64 manifest candidate
            ++ storage_error candidate.app candidate.profile "loading policies" e ∷ []
        | ok existing ↦
            validate_stored_policy as_f64 manifest candidate
            ++ chain_error candidate.app
                (resolve_chain (with_candidate candidate existing) candidate.profile)
      ]
    ]
  ]
