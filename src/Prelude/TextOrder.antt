-- ===== src/Prelude/TextOrder.antt =====
-- The order of texts, by the numbers of their characters.
use Prim.Native.Nat.{Ordering}
use Prim.Native.String.{String, [], ◌∷◌, compare}
use Prim.Native.String.compare as clause
use mathlib.Core.Path.{◌≡◌, refl}
use mathlib.Core.Bool.{Bool, true, false}
use native.Mathlib.Omega.{arith}

-- `a <= b`
abbrev pub le_text : String → String → Bool
le_text a b = elim (compare a b) [ Ordering.gt ↦ false | _ ↦ true ]

pub le_text_total : (a b : String) → le_text a b ≡ false → le_text b a ≡ true
le_text_total [] [] h = refl
le_text_total [] (d ∷ t) h = ground (arith, clause.nil-cons d t)
le_text_total (c ∷ s) [] h = ground (arith, clause.nil-cons c s)
le_text_total (c ∷ s) (d ∷ t) h =
    ground (arith, clause.cons-cons c d s t, clause.cons-cons d c t s, le_text_total s t)

pub le_text_trans : (a b c : String) → le_text a b ≡ true → le_text b c ≡ true → le_text a c ≡ true
le_text_trans [] b [] h k = refl
le_text_trans [] b (e ∷ u) h k = ground (arith, clause.nil-cons e u)
le_text_trans (c ∷ s) [] u h k = ground (arith, clause.cons-nil c s)
le_text_trans (c ∷ s) (d ∷ t) [] h k = ground (arith, clause.cons-nil d t)
le_text_trans (c ∷ s) (d ∷ t) (e ∷ u) h k = ground (
  arith,
  clause.cons-cons c d s t,
  clause.cons-cons d e t u,
  clause.cons-cons c e s u,
  le_text_trans s t u,
)

pub compare_flip : (a b : String) → compare a b ≡ Ordering.lt → le_text b a ≡ false
compare_flip [] [] h = cc
compare_flip [] (d ∷ t) h = ground (arith, clause.cons-nil d t)
compare_flip (c ∷ s) [] h = ground (arith, clause.cons-nil c s)
compare_flip (c ∷ s) (d ∷ t) h =
    ground (arith, clause.cons-cons c d s t, clause.cons-cons d c t s, compare_flip s t)
