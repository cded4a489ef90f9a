-- ===== src/Json.antt =====
-- `serde_json::Value`, as far as the code reads it. A number is an unsigned integer, a negative
-- integer by its magnitude, or an `f64` by its bit pattern. An object is a `BTreeMap`.
use cli_framework.Prelude.{
  ◌≡◌, refl, ap, ℕ, ◌-◌, ◌%◌, ◌^◌, String, Bool, true, false, not, ◌&&◌, ◌||◌, List, [], ◌∷◌, Map,
  ltb, eqb, if◌then◌else◌, ◌==◌, Option, none, some,
}

-- The bits of a double.
abbrev pub Float : Type 0
Float = ℕ

abbrev magnitude : Float → ℕ
magnitude x = x % 2 ^ 63

abbrev is_negative : Float → Bool
is_negative x = ltb (2 ^ 63 - 1) x

abbrev is_nan : Float → Bool
is_nan x = ltb 0x7ff0000000000000 (magnitude x)

-- `<` of two doubles, read off their bits.
unfoldable pub lt_float : Float → Float → Bool
lt_float x y =
    if is_nan x || is_nan y || (eqb (magnitude x) 0 && eqb (magnitude y) 0)
    then false
    else if is_negative x
    then (if is_negative y then ltb (magnitude y) (magnitude x) else true)
    else (if is_negative y then false else ltb (magnitude x) (magnitude y))

-- `==` of two doubles, where both signs of zero are equal.
unfoldable pub eq_float : Float → Float → Bool
eq_float x y =
    not (is_nan x || is_nan y) && (eqb x y || (eqb (magnitude x) 0 && eqb (magnitude y) 0))

-- `<=` of two doubles.
abbrev pub le_float : Float → Float → Bool
le_float x y = lt_float x y || eq_float x y

pub data Number : Type 0 where
  unsigned negative : ℕ → Number
  float : Float → Number

unfoldable pub eq_number : Number → Number → Bool
unfolding eq_float
eq_number (unsigned m) (unsigned n) = eqb m n
eq_number (negative m) (negative n) = eqb m n
eq_number (float x) (float y) = eq_float x y
eq_number _ _ = false

mutual
  pub data Value : Type 0 where
    null : Value
    bool : Bool → Value
    number : Number → Value
    string : String → Value
    array : Items → Value
    object : Entries → Value

  pub data Items : Type 0 where
    nil : Items
    cons : Value → Items → Items

  pub data Entries : Type 0 where
    end : Entries
    entry : String → Value → Entries → Entries

abbrev pub items : Items → List Value
items nil = []
items (cons v vs) = v ∷ items vs

abbrev pub entries : Entries → Map Value
entries end = []
entries (entry k v es) = (k, v) ∷ entries es

abbrev pub from_entries : Map Value → Entries
from_entries [] = end
from_entries ((k, v) ∷ m) = entry k v (from_entries m)

-- `==` of two values.
unfoldable mutual
  pub eq_value : Value → Value → Bool
  eq_value null null = true
  eq_value (bool true) (bool b) = b
  eq_value (bool false) (bool b) = not b
  eq_value (number m) (number n) = eq_number m n
  eq_value (string s) (string t) = s == t
  eq_value (array vs) (array ws) = eq_items vs ws
  eq_value (object es) (object fs) = eq_entries es fs
  eq_value _ _ = false

  pub eq_items : Items → Items → Bool
  eq_items nil nil = true
  eq_items (cons v vs) (cons w ws) = eq_value v w && eq_items vs ws
  eq_items _ _ = false

  pub eq_entries : Entries → Entries → Bool
  eq_entries end end = true
  eq_entries (entry k v es) (entry j w fs) = k == j && eq_value v w && eq_entries es fs
  eq_entries _ _ = false

-- `as_object()`
abbrev pub as_object : Value → Option (Map Value)
as_object (object es) = some (entries es)
as_object _ = none

pub entries-from_entries : (m : Map Value) → entries (from_entries m) ≡ m
entries-from_entries [] = refl
entries-from_entries ((k, v) ∷ m) = ap (λ t. (k, v) ∷ t) (entries-from_entries m)
