-- ===== src/Spec/Validation.antt =====
-- src/spec/command_tree.rs, validate_typed_args: the five passes over the declared arguments, with
-- the diagnostics of src/parser/diagnostic.rs and the codes of src/parser/error_codes.rs. A
-- message's text is a datum: its format and the values put into it.
pub mod Laws
pub mod Typing
use cli_framework.Prelude.{
  String, ℤ, ltb_ℤ, Bool, true, false, not, ◌&&◌, List, [], ◌∷◌, ◌++◌, Option, none, some, Map,
  Result, ok, err, if◌then◌else◌,
}
use cli_framework.Prelude.Maps.{lookup, contains_key}
use cli_framework.Json.{Float, lt_float}
use cli_framework.Spec.Args
use cli_framework.Spec.Args.{
  ArgValue, ArgValueType, ArgSpec, Cardinality, CommandSpec, value_matches_type,
}

pub data DiagnosticCategory : Type 0 where
  parse spec validation completion : DiagnosticCategory

pub data Message : Type 0 where
  missing_required : String → Message
  invalid_value_type : String → ArgValueType → Message
  below_minimum above_maximum : ℤ → String → ℤ → Message
  below_minimum_f above_maximum_f : Float → String → Float → Message
  pattern_mismatch : String → String → String → Message
  invalid_pattern : String → String → String → Message
  conflicts_with requires : String → String → Message

pub data Suggestion : Type 0 where
  provide_value provide_valid_value fix_pattern also_provide : String → Suggestion
  provide_at_least provide_at_most : ℤ → String → Suggestion
  provide_at_least_f provide_at_most_f : Float → String → Suggestion
  provide_matching remove_either : String → String → Suggestion

pub record Diagnostic : Type 0 where
  pub code : String
  pub category : DiagnosticCategory
  pub message : Message
  pub suggestion : Option Suggestion
  pub span : Option String

abbrev pub e_missing_required : String
e_missing_required = "E003"

abbrev pub e_invalid_value : String
e_invalid_value = "E004"

abbrev pub e_conflict : String
e_conflict = "E005"

abbrev pub e_unsatisfied_requires : String
e_unsatisfied_requires = "E006"

abbrev pub diagnostic : String → Message → Suggestion → Diagnostic
diagnostic code message suggestion = record {
  code = code;
  category = spec;
  message = message;
  suggestion = some suggestion;
  span = none;
}

abbrev pub invalid : Message → Suggestion → List Diagnostic
invalid message suggestion = diagnostic e_invalid_value message suggestion ∷ []

-- `for x in xs { diagnostics.extend(f(x)) }`
abbrev pub collect : {A : Type 0} → (A → List Diagnostic) → List A → List Diagnostic
collect f [] = []
collect f (x ∷ xs) = f x ++ collect f xs

-- `Regex::new(pattern)` and `is_match`, of the regex crate.
abbrev pub Regex : Type 0
Regex = String → Result String (String → Bool)

abbrev pub is_required : Cardinality → Bool
is_required Args.required = true
is_required _ = false

unfoldable pub required_errors : Map ArgValue → ArgSpec → List Diagnostic
required_errors args a =
    if is_required a.cardinality && not (contains_key a.name args)
    then diagnostic e_missing_required (missing_required a.name) (provide_value a.name) ∷ []
    else []

unfoldable pub type_errors : Map ArgValue → ArgSpec → List Diagnostic
type_errors args a = elim (lookup a.name args) [
  | some value ↦
      if not (value_matches_type value a.value_type)
      then invalid (invalid_value_type a.name a.value_type) (provide_valid_value a.name)
      else []
  | none ↦ []
]

abbrev pub minimum_errors : ArgSpec → ℤ → List Diagnostic
minimum_errors a i = elim a.min [
  | some min ↦
      if ltb_ℤ i min then invalid (below_minimum i a.name min) (provide_at_least min a.name) else []
  | none ↦ []
]

abbrev pub maximum_errors : ArgSpec → ℤ → List Diagnostic
maximum_errors a i = elim a.max [
  | some max ↦
      if ltb_ℤ max i then invalid (above_maximum i a.name max) (provide_at_most max a.name) else []
  | none ↦ []
]

abbrev pub minimum_f_errors : ArgSpec → Float → List Diagnostic
minimum_f_errors a x = elim a.min_f [
  | some min ↦
      if lt_float x min
      then invalid (below_minimum_f x a.name min) (provide_at_least_f min a.name)
      else []
  | none ↦ []
]

abbrev pub maximum_f_errors : ArgSpec → Float → List Diagnostic
maximum_f_errors a x = elim a.max_f [
  | some max ↦
      if lt_float max x
      then invalid (above_maximum_f x a.name max) (provide_at_most_f max a.name)
      else []
  | none ↦ []
]

abbrev pub pattern_errors : Regex → ArgSpec → String → List Diagnostic
pattern_errors regex a s = elim a.pattern [
  | some pattern ↦ elim (regex pattern) [
    | ok is_match ↦
        if not (is_match s)
        then invalid (pattern_mismatch s a.name pattern) (provide_matching pattern a.name)
        else []
    | err e ↦ invalid (invalid_pattern pattern a.name e) (fix_pattern a.name)
  ]
  | none ↦ []
]

unfoldable pub bound_errors : Regex → ArgSpec → ArgValue → List Diagnostic
bound_errors regex a (Args.int i) = minimum_errors a i ++ maximum_errors a i
bound_errors regex a (Args.float x) = minimum_f_errors a x ++ maximum_f_errors a x
bound_errors regex a (Args.str s) = pattern_errors regex a s
bound_errors regex a _ = []

unfoldable pub constraint_errors : Regex → Map ArgValue → ArgSpec → List Diagnostic
constraint_errors regex args a = elim (lookup a.name args) [
  | some value ↦ bound_errors regex a value
  | none ↦ []
]

abbrev pub conflict_with : Map ArgValue → ArgSpec → String → List Diagnostic
conflict_with args a other =
    if contains_key other args
    then diagnostic e_conflict (conflicts_with a.name other) (remove_either a.name other) ∷ []
    else []

unfoldable pub conflict_errors : Map ArgValue → ArgSpec → List Diagnostic
conflict_errors args a =
    if contains_key a.name args then collect (conflict_with args a) a.conflicts_with else []

abbrev pub missing_dependency : Map ArgValue → ArgSpec → String → List Diagnostic
missing_dependency args a other =
    if not (contains_key other args)
    then diagnostic e_unsatisfied_requires (requires a.name other) (also_provide other) ∷ []
    else []

unfoldable pub requires_errors : Map ArgValue → ArgSpec → List Diagnostic
requires_errors args a =
    if contains_key a.name args then collect (missing_dependency args a) a.requires else []

unfoldable pub validate_typed_args : Regex → CommandSpec → Map ArgValue → List Diagnostic
validate_typed_args regex command args =
    collect (required_errors args) command.args
    ++ (collect (type_errors args) command.args
        ++ (collect (constraint_errors regex args) command.args
            ++ (collect (conflict_errors args) command.args
                ++ collect (requires_errors args) command.args)))
