-- ===== src/Prelude/Sorting.antt =====
-- `sort_by` of the standard library, a stable sort, as an insertion sort: `le a b` says that `a` need
-- not stand after `b`.
use mathlib.Core.Path.{◌≡◌, subst}
use mathlib.Core.Logic.{inl, inr}
use mathlib.Core.Bool.{Bool, true, false}
use mathlib.Core.List.{List, [], ◌∷◌, Perm}
use mathlib.Core.List.Perm
use cli_framework.Prelude.Tests.{Bool-cases, if◌then◌else◌}
use cli_framework.Prelude.Lists.{All, In, here, there, In-cons, All-In, All-of-In}

module _ {A : Type 0} where
  unfoldable pub insert_by : (A → A → Bool) → A → List A → List A
  insert_by le x [] = x ∷ []
  insert_by le x (y ∷ ys) = let rest = insert_by le x ys in if le x y then x ∷ y ∷ ys else y ∷ rest

  unfoldable pub sort_by : (A → A → Bool) → List A → List A
  sort_by le [] = []
  sort_by le (x ∷ xs) = insert_by le x (sort_by le xs)

  -- Each element may stand before all that follow.
  abbrev pub Sorted : (A → A → Bool) → List A → Type 0
  Sorted le [] = Unit
  Sorted le (x ∷ xs) = All (λ y. le x y ≡ true) xs × Sorted le xs

  pub In-insert_by :
      (le : A → A → Bool) (x a : A) (xs : List A) → In a (insert_by le x xs) → In a (x ∷ xs)
  unfolding insert_by
  In-insert_by le x a [] m = m
  In-insert_by le x a (y ∷ ys) m = elim (Bool-cases (le x y)) [
    | inl e ↦ rw (insert_by, e) at m
    | inr e ↦ elim (In-cons (rw (insert_by, e) at m)) [
      | inl same ↦ there (here same)
      | inr later ↦ elim (In-cons (In-insert_by le x a ys later)) [
        | inl first ↦ here first
        | inr old ↦ there (there old)
      ]
    ]
  ]

  insert_by-Perm : (le : A → A → Bool) (x : A) (xs : List A) → Perm (insert_by le x xs) (x ∷ xs)
  unfolding insert_by
  insert_by-Perm le x [] = Perm.refl (x ∷ [])
  insert_by-Perm le x (y ∷ ys) = elim (Bool-cases (le x y)) [
    | inl e ↦ rw e (Perm.refl (x ∷ y ∷ ys))
    | inr e ↦ rw e (Perm.trans (Perm.cons y (insert_by-Perm le x ys)) (Perm.swap x y ys))
  ]

  pub sort_by-Perm : (le : A → A → Bool) (xs : List A) → Perm (sort_by le xs) xs
  unfolding sort_by
  sort_by-Perm le [] = Perm.nil
  sort_by-Perm le (x ∷ xs) =
      Perm.trans (insert_by-Perm le x (sort_by le xs)) (Perm.cons x (sort_by-Perm le xs))

  pub In-sort_by : (le : A → A → Bool) (a : A) (xs : List A) → In a (sort_by le xs) → In a xs
  unfolding sort_by
  In-sort_by le a [] m = m
  In-sort_by le a (x ∷ xs) m = elim (In-cons (In-insert_by le x a (sort_by le xs) m)) [
    | inl e ↦ here e
    | inr old ↦ there (In-sort_by le a xs old)
  ]

module _ {A : Type 0} (le : A → A → Bool) (total : (a b : A) → le a b ≡ false → le b a ≡ true)
    (le_trans : (a b c : A) → le a b ≡ true → le b c ≡ true → le a c ≡ true) where
  insert_by-Sorted : (x : A) (xs : List A) → Sorted le xs → Sorted le (insert_by le x xs)
  unfolding insert_by
  insert_by-Sorted x [] h = (tt, tt)
  insert_by-Sorted x (y ∷ ys) (first, rest) = elim (Bool-cases (le x y)) [
    | inl e ↦
        rw (insert_by, e)
          (
            (
              e,
              All-of-In (λ z. le x z ≡ true) ys
                  (λ z m. le_trans x y z e (All-In (λ w. le y w ≡ true) ys z first m)),
            ),
            (first, rest),
          )
    | inr e ↦
        rw (insert_by, e)
          (
            All-of-In (λ z. le y z ≡ true) (insert_by le x ys)
                (λ z m. elim (In-cons (In-insert_by le x z ys m)) [
                  | inl same ↦ subst (λ w. le y w ≡ true) same (total x y e)
                  | inr old ↦ All-In (λ w. le y w ≡ true) ys z first old
                ]),
            insert_by-Sorted x ys rest,
          )
  ]

  pub sort_by-Sorted : (xs : List A) → Sorted le (sort_by le xs)
  unfolding sort_by
  sort_by-Sorted [] = tt
  sort_by-Sorted (x ∷ xs) = insert_by-Sorted x (sort_by le xs) (sort_by-Sorted xs)
