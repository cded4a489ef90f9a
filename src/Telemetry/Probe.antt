-- ===== src/Telemetry/Probe.antt =====
-- src/telemetry/probe.rs: the probes, their ids, the registry that keeps them sorted, and whether
-- one may emit.
pub mod Grammar
pub mod Order
pub mod Effective
pub mod Builtin
pub mod Catalogue
use Prim.Native.Char.{Char, code}
use Prim.Native.String
use cli_framework.Prelude.{
  ℕ, String, Bool, true, false, not, ◌&&◌, ◌||◌, List, [], ◌∷◌, ◌++◌, Option, none, some, Result,
  ok, err, leb, eqb, any, find, contains, is_some, if◌then◌else◌, ◌==◌,
}
use cli_framework.Prelude.Text.{has_char, split, all_chars}
use cli_framework.Prelude.Sorting.{sort_by}
use cli_framework.Prelude.TextOrder.{le_text}
use cli_framework.Telemetry.Axes.{TelemetryLevel, usage, off, eq_level, lt_level}

pub record ProbeSpec : Type 0 where
  pub id : String
  pub min_level : TelemetryLevel
  pub summary : String
  pub sends : String

pub data ProbeIdError : Type 0 where
  malformed : String → ProbeIdError
  reserved : String → String → ProbeIdError
  duplicate : String → ProbeIdError
  shadows_enabled_switch : String → ProbeIdError

abbrev pub reserved_first_segments : List String
reserved_first_segments =
    "level" ∷ "attribution" ∷ "install_id" ∷ "notice_shown" ∷ "endpoint" ∷ "traces" ∷ "metrics"
    ∷ "logs" ∷ []

abbrev pub owned_probe_leaf : String
owned_probe_leaf = "enabled"

-- `b.is_ascii_lowercase() || b.is_ascii_digit()`
abbrev pub is_lower_or_digit : Char → Bool
is_lower_or_digit c = (leb 97 (code c) && leb (code c) 122) || (leb 48 (code c) && leb (code c) 57)

abbrev pub is_word_char : Char → Bool
is_word_char c = is_lower_or_digit c || eqb (code c) 95

-- The loop over the segments after the first. The bytes of a character past ASCII are past ASCII.
unfoldable pub check_segments : String → List String → Result ProbeIdError (Unit {0})
check_segments id [] = ok tt
check_segments id (segment ∷ segments) =
    let rest = check_segments id segments in
    if not (not (segment == "") && all_chars is_word_char segment)
    then err (malformed id)
    else if segment == owned_probe_leaf
    then err (shadows_enabled_switch id)
    else rest

unfoldable pub check_id : String → List String → Result ProbeIdError (Unit {0})
check_id id [] = err (malformed id)
check_id id (first ∷ segments) =
    let rest = check_segments id segments in
    elim (find (λ r. r == first) reserved_first_segments) [
      | some r ↦ err (reserved id r)
      | none ↦
          if not (not (first == "") && all_chars is_lower_or_digit first)
          then err (malformed id)
          else rest
    ]

-- 46 is the dot.
unfoldable pub validate_probe_id : String → Result ProbeIdError (Unit {0})
validate_probe_id id = check_id id (split 46 id)

pub record ProbeRegistry : Type 0 where
  pub probes : List ProbeSpec

-- `ProbeRegistry::new`
abbrev pub new_registry : ProbeRegistry
new_registry = record { probes = [] }

-- `a.id.cmp(b.id)`, as what a stable sort asks of it: is `a` to stand no later than `b`?
abbrev pub id_le : ProbeSpec → ProbeSpec → Bool
id_le a b = le_text a.id b.id

unfoldable pub register : ProbeRegistry → ProbeSpec → Result ProbeIdError ProbeRegistry
register registry spec = elim (validate_probe_id spec.id) [
  | err e ↦ err e
  | ok _ ↦
      if any (λ p. p.id == spec.id) registry.probes
      then err (duplicate spec.id)
      else ok record { probes = sort_by id_le (registry.probes ++ spec ∷ []) }
]

abbrev pub get : ProbeRegistry → String → Option ProbeSpec
get registry id = find (λ p. p.id == id) registry.probes

-- `ProbeRegistry::contains`
abbrev pub has_probe : ProbeRegistry → String → Bool
has_probe registry id = is_some (get registry id)

unfoldable pub register_feature : ProbeRegistry → String → Result ProbeIdError ProbeRegistry
register_feature registry name =
    if name == "" || has_char 46 name
    then err (malformed name)
    else elim (validate_probe_id (String.◌++◌ "cli.feature." name)) [
      | err e ↦ err e
      | ok _ ↦ register registry record {
        id = String.◌++◌ "cli.feature." name;
        min_level = usage;
        summary = String.◌++◌ "The '" (String.◌++◌ name "' feature");
        sends = "The feature name, and nothing else";
      }
    ]

-- The loop over the segments, where `before` is the prefix so far.
unfoldable pub prefixes_enabled : ProbeRegistry → (String → Bool) → String → List String → Bool
prefixes_enabled registry enabled before [] = true
prefixes_enabled registry enabled before (segment ∷ segments) =
    let upto =
      String.◌++◌ (if not (before == "") then String.◌++◌ before "." else before) segment in
    let rest = prefixes_enabled registry enabled upto segments in
    if has_probe registry upto && not (enabled upto) then false else rest

unfoldable pub effective : ProbeRegistry → TelemetryLevel → String → (String → Bool) → Bool
effective registry level id enabled = elim (get registry id) [
  | none ↦ false
  | some spec ↦
      if eq_level level off || lt_level level spec.min_level
      then false
      else prefixes_enabled registry enabled "" (split 46 id)
]

pub data FeatureOutcome : Type 0 where
  recorded unregistered : FeatureOutcome

unfoldable pub feature_outcome : List String → String → FeatureOutcome
feature_outcome registered name = if contains registered name then recorded else unregistered
