-- ===== src/Spec/Args.antt =====
-- src/spec/arg_spec.rs, src/spec/value.rs and the types of src/spec/command_tree.rs.
use Prim.Native.Char.{Char}
use cli_framework.Prelude.{
  ℕ, String, ℤ, Bool, true, false, ◌&&◌, List, Option, none, some, leb, if◌then◌else◌,
}
use cli_framework.Json.{Float}

mutual
  pub data ArgValue : Type 0 where
    bool : Bool → ArgValue
    str : String → ArgValue
    int : ℤ → ArgValue
    float : Float → ArgValue
    enum : String → ArgValue
    list : ArgValues → ArgValue
    count : ℕ → ArgValue

  -- `Vec<ArgValue>`
  pub data ArgValues : Type 0 where
    nil : ArgValues
    cons : ArgValue → ArgValues → ArgValues

pub data ArgKind : Type 0 where
  flag option positional : ArgKind

pub data ArgValueType : Type 0 where
  string_type bool_type int_type float_type : ArgValueType
  enum_type : List String → ArgValueType

pub data Cardinality : Type 0 where
  required optional repeated : Cardinality

pub record ArgSpec : Type 0 where
  pub name : String
  pub kind : ArgKind
  pub short : Option Char
  pub long : Option String
  pub value_type : ArgValueType
  pub cardinality : Cardinality
  pub default : Option ArgValue
  pub conflicts_with : List String
  pub requires : List String
  pub help : String
  pub min : Option ℤ
  pub max : Option ℤ
  pub min_f : Option Float
  pub max_f : Option Float
  pub pattern : Option String
  pub min_occurs : Option ℕ

unfoldable pub is_schema_required : ArgSpec → Bool
is_schema_required spec = elim spec.cardinality [
  | required ↦ true
  | repeated ↦ elim spec.min_occurs [ some min ↦ leb 1 min | none ↦ false ]
  | optional ↦ false
]

-- `self.min_occurs.filter(|min| *min >= 1)`
unfoldable pub positive_min_occurs : ArgSpec → Option ℕ
positive_min_occurs spec = elim spec.min_occurs [
  | some least ↦ if leb 1 least then some least else none
  | none ↦ none
]

unfoldable mutual
  pub value_matches_type : ArgValue → ArgValueType → Bool
  value_matches_type (count n) t = true
  value_matches_type (list vs) t = all_match_type vs t
  value_matches_type (bool b) t = elim t [ bool_type ↦ true | _ ↦ false ]
  value_matches_type (str s) t = elim t [ string_type ↦ true | _ ↦ false ]
  value_matches_type (int i) t = elim t [ int_type ↦ true | _ ↦ false ]
  value_matches_type (float x) t = elim t [ float_type ↦ true | _ ↦ false ]
  value_matches_type (enum s) t = elim t [ enum_type _ ↦ true | _ ↦ false ]

  -- `vs.iter().all(|v| value_matches_type(v, value_type))`
  pub all_match_type : ArgValues → ArgValueType → Bool
  all_match_type nil t = true
  all_match_type (cons v vs) t = value_matches_type v t && all_match_type vs t

pub record EnvVarEntry : Type 0 where
  pub name : String
  pub description : String

pub record ExitCodeEntry : Type 0 where
  pub code : ℤ
  pub description : String

pub record CommandSpec : Type 0 where
  pub summary : String
  pub long_about : Option String
  pub examples : List String
  pub aliases : List String
  pub hidden_aliases : List String
  pub hidden : Bool
  pub deprecated : Option String
  pub env_vars : List EnvVarEntry
  pub exit_codes : List ExitCodeEntry
  pub args : List ArgSpec
  pub notes : Option String
  pub category : Option String
  pub help_order : Option ℕ
  pub syntax : Option String

pub record GroupMetadata : Type 0 where
  pub summary : String
  pub hidden : Bool
  pub category : Option String
  pub help_order : Option ℕ
