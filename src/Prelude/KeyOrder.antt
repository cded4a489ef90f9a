-- ===== src/Prelude/KeyOrder.antt =====
-- The keys of a `BTreeMap` that insertions have built: they ascend, so that none is there twice.
use Prim.Native.Nat.{Ordering}
use Prim.Native.String.{String, compare}
use mathlib.Core.Path.{◌≡◌, refl, sym, subst}
use mathlib.Core.Logic.{◌⊎◌, inl, inr}
use mathlib.Core.Bool.{false}
use mathlib.Core.List.{List, [], ◌∷◌}
use native.Mathlib.Omega.{arith}
use text.Mathlib.TextEquality.{eq_iff, path_by_compare}
use text.Mathlib.TextPositions.{compare_refl}
use cli_framework.Prelude.Lists.{contains, Distinct, All}
use cli_framework.Prelude.Maps.{Map, keys, insert, insert_key, keys-insert}
use cli_framework.Prelude.TextOrder.{le_text, le_text_total, le_text_trans, compare_flip}

pub ordering-cases : (o : Ordering) → (o ≡ Ordering.lt) ⊎ ((o ≡ Ordering.eq) ⊎ (o ≡ Ordering.gt))
ordering-cases Ordering.lt = inl refl
ordering-cases Ordering.eq = inr (inl refl)
ordering-cases Ordering.gt = inr (inr refl)

-- `a < b < c`
less_trans : (a b c : String) → le_text b a ≡ false → le_text c b ≡ false → le_text c a ≡ false
less_trans a b c h k = let first = le_text_total b a h in ground (arith, le_text_trans c a b)

-- The name stands before all of these.
abbrev Below : String → List String → Type 0
Below name names = All (λ n. le_text n name ≡ false) names

unfoldable pub Ascending : List String → Type 0
Ascending [] = Unit
Ascending (n ∷ names) = Below n names × Ascending names

less_than_all :
    (a b : String) (names : List String) → le_text b a ≡ false → Below b names → Below a names
less_than_all a b [] h below = tt
less_than_all a b (n ∷ names) h (next, below) =
    (less_trans a b n h next, less_than_all a b names h below)

Below-insert_key :
    (name key : String) (names : List String)
    → le_text key name ≡ false
    → Below name names
    → Below name (insert_key key names)
unfolding insert_key
Below-insert_key name key [] h below = (h, tt)
Below-insert_key name key (n ∷ names) h (next, below) = elim (ordering-cases (compare key n)) [
  | inl e ↦ rw (insert_key, e) (h, (next, below))
  | inr (inl e) ↦ rw (insert_key, e) (h, below)
  | inr (inr e) ↦ rw (insert_key, e) (next, Below-insert_key name key names h below)
]

insert_key-Ascending :
    (key : String) (names : List String) → Ascending names → Ascending (insert_key key names)
unfolding insert_key Ascending
insert_key-Ascending key [] a = (tt, tt)
insert_key-Ascending key (n ∷ names) (below, a) = elim (ordering-cases (compare key n)) [
  | inl e ↦
      let less = compare_flip key n e in
      rw (insert_key, e) ((less, less_than_all key n names less below), (below, a))
  | inr (inl e) ↦
      rw (insert_key, e) (subst (λ k. Below k names) (sym (path_by_compare key n e)) below, a)
  | inr (inr e) ↦
      let more : le_text key n ≡ false = rw (le_text, e) refl in
      rw (insert_key, e) (Below-insert_key n key names more below, insert_key-Ascending key names a)
]

Below-contains :
    (name : String) (names : List String) → Below name names → contains names name ≡ false
Below-contains name [] below = refl
Below-contains name (n ∷ names) (next, below) =
    ground (arith, eq_iff n name, compare_refl name, Below-contains name names below)

pub Ascending-Distinct : (names : List String) → Ascending names → Distinct names
unfolding Ascending
Ascending-Distinct [] a = tt
Ascending-Distinct (n ∷ names) (below, a) =
    (Below-contains n names below, Ascending-Distinct names a)

pub insert-Ascending {ℓ} :
    {V : Type ℓ} (key : String) (v : V) (m : Map V)
    → Ascending (keys m)
    → Ascending (keys (insert key v m))
insert-Ascending key v m a =
    subst Ascending (sym (keys-insert key v m)) (insert_key-Ascending key (keys m) a)
