-- ===== src/Config/Service/Types.antt =====
-- src/config/service/{types,error}.rs and src/config/policy.rs: the stored documents, the wire
-- names of their enumerations, and the errors that validation reports.
pub mod Wire
use cli_framework.Prelude.{ℕ, String, ℤ, List, Option, none, some, Map, if◌then◌else◌, ◌==◌}
use cli_framework.Json.{Value, Float}

pub data StaleAction : Type 0 where
  warn refuse : StaleAction

pub record StoredPolicy : Type 0 where
  pub app : String
  pub profile : String
  pub enforced : Map Value
  pub recommended : Map Value
  pub parent_profile : Option String
  pub max_cache_age_secs : ℕ
  pub stale_action : StaleAction
  pub version : ℕ

-- The document that a client is served.
pub record Policy : Type 0 where
  pub contract_version : ℕ
  pub app : String
  pub profile : String
  pub policy_version : ℕ
  pub max_cache_age_secs : ℕ
  pub stale_action : StaleAction
  pub enforced : Map Value
  pub recommended : Map Value

pub data RuleOperator : Type 0 where
  equals contains exists default : RuleOperator

pub record AssignmentRule : Type 0 where
  pub app : String
  pub ord : ℤ
  pub claim_path : String
  pub operator : RuleOperator
  pub value : Option Value
  pub profile : String

pub data MutationKind : Type 0 where
  manifest_put policy_put policy_patch policy_restore assignments_put import : MutationKind

-- What the text of a constraint's error says.
pub data Violation : Type 0 where
  below_minimum above_maximum : (num bound : Float) → Violation
  not_allowed : (value : Value) (allowed : List Value) → Violation

pub data PolicyValidationError : Type 0 where
  unknown_field type_mismatch local_only not_manageable secret org_scope_in_recommended :
      (app profile path : String) → PolicyValidationError
  not_enforceable : (app profile path : String) → PolicyValidationError
  constraint_violation : (app profile path : String) (detail : Violation) → PolicyValidationError
  missing_manifest : (app profile : String) → PolicyValidationError
  missing_parent : (app profile parent : String) → PolicyValidationError
  inheritance_cycle : (app profile : String) → PolicyValidationError
  assignment_rule_missing_profile :
      (app : String) (ord : ℤ) (profile : String) → PolicyValidationError
  default_rule_not_last : (app : String) (ord max_ord : ℤ) → PolicyValidationError

pub data InheritanceError : Type 0 where
  profile_not_found : (profile : String) → InheritanceError
  missing_parent : (child parent : String) → InheritanceError
  cycle : (profile : String) → InheritanceError

unfoldable pub operator_wire_str : RuleOperator → String
operator_wire_str equals = "equals"
operator_wire_str contains = "contains"
operator_wire_str exists = "exists"
operator_wire_str default = "default"

unfoldable pub parse_operator : String → Option RuleOperator
parse_operator s =
    if s == "equals"
    then some equals
    else if s == "contains"
    then some contains
    else if s == "exists"
    then some exists
    else if s == "default"
    then some default
    else none

unfoldable pub mutation_wire_str : MutationKind → String
mutation_wire_str manifest_put = "manifest_put"
mutation_wire_str policy_put = "policy_put"
mutation_wire_str policy_patch = "policy_patch"
mutation_wire_str policy_restore = "policy_restore"
mutation_wire_str assignments_put = "assignments_put"
mutation_wire_str import = "import"

unfoldable pub parse_mutation : String → Option MutationKind
parse_mutation s =
    if s == "manifest_put"
    then some manifest_put
    else if s == "policy_put"
    then some policy_put
    else if s == "policy_patch"
    then some policy_patch
    else if s == "policy_restore"
    then some policy_restore
    else if s == "assignments_put"
    then some assignments_put
    else if s == "import"
    then some import
    else none
