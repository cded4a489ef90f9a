-- ===== src/Spec/Validation/Laws.antt =====
-- When validate_typed_args finds nothing (src/spec/command_tree.rs).
use cli_framework.Prelude.{
  String, ◌≡◌, ℤ, ◌≤ℤ◌, Bool, true, false, Option, none, some, Map, ok, All,
}
use cli_framework.Prelude.Maps.{lookup, contains_key}
use cli_framework.Json.{Float, lt_float}
use cli_framework.Spec.Args
use cli_framework.Spec.Args.{ArgValue, ArgValueType, ArgSpec, value_matches_type}
use cli_framework.Spec.Validation
use cli_framework.Spec.Validation.Typing.{HasType}
use cli_framework.Spec.Validation.{Regex}

-- What the declaration of an argument asks of the given arguments.
abbrev pub WithinMinimum : Option ℤ → ℤ → Type 0
WithinMinimum none i = Unit
WithinMinimum (some min) i = min ≤ℤ i

abbrev pub WithinMaximum : Option ℤ → ℤ → Type 0
WithinMaximum none i = Unit
WithinMaximum (some max) i = i ≤ℤ max

-- No bound fails: a bound or a value that is not a number fails none.
abbrev pub WithinMinimumF : Option Float → Float → Type 0
WithinMinimumF none x = Unit
WithinMinimumF (some min) x = lt_float x min ≡ false

abbrev pub WithinMaximumF : Option Float → Float → Type 0
WithinMaximumF none x = Unit
WithinMaximumF (some max) x = lt_float max x ≡ false

abbrev pub Matches : Regex → Option String → String → Type 0
Matches regex none s = Unit
Matches regex (some pattern) s =
    (matcher : String → Bool) × ((regex pattern ≡ ok matcher) × (matcher s ≡ true))

abbrev pub IsWithin : Regex → ArgSpec → ArgValue → Type 0
IsWithin regex a (Args.int i) = WithinMinimum a.min i × WithinMaximum a.max i
IsWithin regex a (Args.float x) = WithinMinimumF a.min_f x × WithinMaximumF a.max_f x
IsWithin regex a (Args.str s) = Matches regex a.pattern s
IsWithin regex a _ = Unit

abbrev pub IsPresent : Map ArgValue → String → Type 0
IsPresent args name = contains_key name args ≡ true

abbrev pub IsAbsent : Map ArgValue → String → Type 0
IsAbsent args name = contains_key name args ≡ false

abbrev pub TypeFits : Map ArgValue → ArgSpec → Type 0
TypeFits args a = (v : ArgValue) → lookup a.name args ≡ some v → HasType a.value_type v

abbrev pub ValueFits : Regex → Map ArgValue → ArgSpec → Type 0
ValueFits regex args a = (v : ArgValue) → lookup a.name args ≡ some v → IsWithin regex a v

-- What one declared argument asks of the given ones.
abbrev pub Allows : Regex → Map ArgValue → ArgSpec → Type 0
Allows regex args a =
    (a.cardinality ≡ Args.required → IsPresent args a.name)
    × (TypeFits args a
        × (ValueFits regex args a
            × ((IsPresent args a.name → All (IsAbsent args) a.conflicts_with)
                × (IsPresent args a.name → All (IsPresent args) a.requires))))
