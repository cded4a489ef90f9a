-- ===== src/Telemetry/Env.antt =====
-- src/telemetry/env.rs: the environment variables that set the leaves of the `telemetry` section.
-- `parse_f64` stands for `str::parse::<f64>` of the standard library.
pub mod Help
pub mod Advertised
pub mod Variables
pub mod Honoured
use Prim.Native.Char.{code}
use Prim.Native.String
use Prim.Native.String.{[], ◌∷◌}
use text.Mathlib.Text.{starts_with}
use cli_framework.Prelude.{
  ℕ, ◌+◌, ◌-◌, ◌*◌, ◌%◌, ◌^◌, String, Bool, true, false, not, ◌&&◌, ◌||◌, List, ◌++◌, Option, none,
  some, Map, find, ltb, leb, eqb, if◌then◌else◌, ◌==◌,
}
use cli_framework.Prelude.Maps.{insert}
use cli_framework.Prelude.Text.{to_ascii_uppercase, to_ascii_lowercase, to_underscore}
use cli_framework.Prelude.Sorting.{sort_by}
use cli_framework.Prelude.TextOrder.{le_text}
use cli_framework.Json
use cli_framework.Json.{Value, Number, Float}
use cli_framework.Config.Manifest.{
  ConfigManifest, LeafField, FieldKind, bool, int, duration, float, iter_leaves, kind,
}
use cli_framework.Telemetry.Policy.{env_var_prefix}

unfoldable pub env_var_name : String → String → String
env_var_name app path =
    String.◌++◌ (env_var_prefix app)
      (String.◌++◌ "_" (to_underscore 46 45 (to_ascii_uppercase path)))

-- The number that the digits continue.
unfoldable pub digits_from : ℕ → String → Option ℕ
digits_from n [] = some n
digits_from n (c ∷ s) =
    if leb 48 (code c) && leb (code c) 57 then digits_from (n * 10 + (code c - 48)) s else none

abbrev pub digits : String → Option ℕ
digits [] = none
digits (c ∷ s) = digits_from 0 (c ∷ s)

-- `-n` and `n` as an `i64`, where they are one.
abbrev pub negative_i64 : Option ℕ → Option Number
negative_i64 none = none
negative_i64 (some n) =
    if eqb n 0
    then some (Json.unsigned 0)
    else if leb n (2 ^ 63)
    then some (Json.negative n)
    else none

abbrev pub positive_i64 : Option ℕ → Option Number
positive_i64 none = none
positive_i64 (some n) = if ltb n (2 ^ 63) then some (Json.unsigned n) else none

-- `raw.parse::<i64>()`, as a JSON number: 45 is the minus, 43 the plus.
unfoldable pub parse_i64 : String → Option Number
parse_i64 [] = none
parse_i64 (c ∷ s) =
    if eqb (code c) 45
    then negative_i64 (digits s)
    else positive_i64 (if eqb (code c) 43 then digits s else digits (c ∷ s))

-- `Number::from_f64`: the exponent of a finite double is not all ones.
abbrev pub from_f64 : Float → Option Value
from_f64 x = if ltb (x % 2 ^ 63) 0x7ff0000000000000 then some (Json.number (Json.float x)) else none

-- `value.unwrap_or_else(|| Value::String(raw))`
abbrev pub or_text : Option Value → String → Value
or_text none raw = Json.string raw
or_text (some v) raw = v

abbrev pub as_number : Option Number → Option Value
as_number none = none
as_number (some n) = some (Json.number n)

abbrev pub as_float : Option Float → Option Value
as_float none = none
as_float (some x) = from_f64 x

-- The words for true and false.
abbrev pub as_switch : String → Option Value
as_switch word =
    if word == "1" || word == "true" || word == "yes" || word == "on"
    then some (Json.bool true)
    else if word == "0" || word == "false" || word == "no" || word == "off"
    then some (Json.bool false)
    else none

unfoldable pub typed : (String → Option Float) → FieldKind → String → Value
typed parse_f64 bool raw = or_text (as_switch (to_ascii_lowercase raw)) raw
typed parse_f64 int raw = or_text (as_number (parse_i64 raw)) raw
typed parse_f64 duration raw = or_text (as_number (parse_i64 raw)) raw
typed parse_f64 float raw = or_text (as_float (parse_f64 raw)) raw
typed parse_f64 _ raw = Json.string raw

pub record EnvScan : Type 0 where
  pub values : Map Value
  pub unmatched : List String

-- A variable that the manifest knows.
pub record KnownVariable : Type 0 where
  pub variable : String
  pub path : String
  pub field_kind : FieldKind

abbrev pub is_telemetry_path : String → Bool
is_telemetry_path path = path == "telemetry" || starts_with path "telemetry."

unfoldable pub known_variables : String → List LeafField → List KnownVariable
known_variables app List.[] = List.[]
known_variables app (List.◌∷◌ leaf leaves) =
    let rest = known_variables app leaves in
    if is_telemetry_path leaf.path
    then List.◌∷◌
        (record {
          variable = env_var_name app leaf.path;
          path = leaf.path;
          field_kind = kind leaf.field;
        })
        rest
    else rest

-- One variable of the environment.
unfoldable pub scan_variable :
    (String → Option Float) → String → List KnownVariable → EnvScan → String × String → EnvScan
scan_variable parse_f64 app known scan (name, raw) = elim (find (λ k. k.variable == name) known) [
  | some k ↦ record scan { values = insert k.path (typed parse_f64 k.field_kind raw) scan.values }
  | none ↦
      if starts_with name (String.◌++◌ (env_var_prefix app) "_TELEMETRY_")
        && not (name == String.◌++◌ (env_var_prefix app) "_TELEMETRY_DISABLED")
      then record scan { unmatched = scan.unmatched ++ List.◌∷◌ name List.[] }
      else scan
]

unfoldable pub scan_variables :
    (String → Option Float)
    → String
    → List KnownVariable
    → EnvScan
    → List (String × String)
    → EnvScan
scan_variables parse_f64 app known scan List.[] = scan
scan_variables parse_f64 app known scan (List.◌∷◌ var vars) =
    scan_variables parse_f64 app known (scan_variable parse_f64 app known scan var) vars

unfoldable pub scan_environment :
    (String → Option Float) → String → ConfigManifest → List (String × String) → EnvScan
scan_environment parse_f64 app manifest vars =
    let scan =
      scan_variables parse_f64 app (known_variables app (iter_leaves manifest))
        (record { values = List.[]; unmatched = List.[] }) vars in
    record scan { unmatched = sort_by le_text scan.unmatched }
