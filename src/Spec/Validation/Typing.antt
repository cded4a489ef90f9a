-- ===== src/Spec/Validation/Typing.antt =====
-- When a value has a declared type (src/spec/command_tree.rs, value_matches_type).
use cli_framework.Prelude.{ℕ, String, ℤ, ◌≡◌, refl, ◌↔◌, Bool, true, List, arith, &&-split}
use cli_framework.Json.{Float}
use cli_framework.Spec.Args.{
  ArgValue, ArgValues, ArgValueType, value_matches_type, all_match_type, bool, str, int, float,
  enum, list, count, nil, cons, string_type, bool_type, int_type, float_type, enum_type,
}

-- A scalar has the type of its kind, a count has any type, and a list that of all its elements.
-- An enumeration's tokens are not looked at.
mutual
  pub data HasType : ArgValueType → ArgValue → Type 0 where
    of_string : {s : String} → HasType string_type (str s)
    of_bool : {b : Bool} → HasType bool_type (bool b)
    of_int : {i : ℤ} → HasType int_type (int i)
    of_float : {x : Float} → HasType float_type (float x)
    of_enum : {tokens : List String} {s : String} → HasType (enum_type tokens) (enum s)
    of_count : {t : ArgValueType} {n : ℕ} → HasType t (count n)
    of_list : {t : ArgValueType} {vs : ArgValues} → AllHaveType t vs → HasType t (list vs)

  pub data AllHaveType : ArgValueType → ArgValues → Type 0 where
    none_left : {t : ArgValueType} → AllHaveType t nil
    one_more :
        {t : ArgValueType} {v : ArgValue} {vs : ArgValues}
        → HasType t v
        → AllHaveType t vs
        → AllHaveType t (cons v vs)

mutual
  unfolding value_matches_type

  sound : (t : ArgValueType) (v : ArgValue) → value_matches_type v t ≡ true → HasType t v
  sound t (count n) h = of_count
  sound t (list vs) h = of_list (all_sound t vs h)
  sound bool_type (bool b) h = of_bool
  sound string_type (str s) h = of_string
  sound int_type (int i) h = of_int
  sound float_type (float x) h = of_float
  sound (enum_type tokens) (enum s) h = of_enum
  sound _ _ h = cc

  all_sound : (t : ArgValueType) (vs : ArgValues) → all_match_type vs t ≡ true → AllHaveType t vs
  all_sound t nil h = none_left
  all_sound t (cons v vs) h =
      let (a, b) = &&-split (value_matches_type v t) (all_match_type vs t) h in
      one_more (sound t v a) (all_sound t vs b)

mutual
  unfolding value_matches_type

  complete : {t : ArgValueType} {v : ArgValue} → HasType t v → value_matches_type v t ≡ true
  complete of_string = refl
  complete of_bool = refl
  complete of_int = refl
  complete of_float = refl
  complete of_enum = refl
  complete of_count = refl
  complete (of_list all) = all_complete all

  all_complete : {t : ArgValueType} {vs : ArgValues} → AllHaveType t vs → all_match_type vs t ≡ true
  all_complete none_left = refl
  all_complete (one_more h all) = ground (arith, complete h, all_complete all)

-- The code's test of a value's type is the typing relation.
pub value_matches_type_iff :
    (v : ArgValue) (t : ArgValueType) → (value_matches_type v t ≡ true) ↔ HasType t v
value_matches_type_iff v t = (sound t v, complete)
