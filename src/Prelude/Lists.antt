-- ===== src/Prelude/Lists.antt =====
-- Lists: measures over the native numbers, predicates by recursion, and the loops of iterators.
use Prim.Native.Nat.{ℕ, suc, ◌+◌}
use mathlib.Core.Path.{◌≡◌, refl, sym, subst}
use mathlib.Core.Logic.{◌⊎◌, inl, inr}
use mathlib.Core.Bool.{Bool, true, false, ◌&&◌, ◌||◌}
use mathlib.Core.Option.{Option, none, some}
use mathlib.Core.List.{List, [], ◌∷◌, ◌++◌}
use native.Mathlib.Omega.{arith}
use Prim.Native.String.{String}
use text.Mathlib.Text.{◌==◌}
use text.Mathlib.TextEquality.{eq_iff}
use text.Mathlib.TextPositions.{eq_refl}
use cli_framework.Prelude.Tests.{if◌then◌else◌, &&-split, Bool-cases}

module _ {ℓ} {A : Type ℓ} where
  abbrev pub length : List A → ℕ
  length [] = 0
  length (x ∷ xs) = suc (length xs)

  pub length-append : (xs ys : List A) → length (xs ++ ys) ≡ length xs + length ys
  length-append [] ys = omega arith
  length-append (x ∷ xs) ys = omega (arith, length-append xs ys)

  -- `iter().any(p)`
  abbrev pub any : (A → Bool) → List A → Bool
  any p [] = false
  any p (x ∷ xs) = p x || any p xs

  -- `iter().all(p)`
  abbrev pub all : (A → Bool) → List A → Bool
  all p [] = true
  all p (x ∷ xs) = p x && all p xs

  -- `iter().find(p)`
  abbrev pub find : (A → Bool) → List A → Option A
  find p [] = none
  find p (x ∷ xs) = if p x then some x else find p xs

  -- `iter().filter(p)`
  abbrev pub keep : (A → Bool) → List A → List A
  keep p [] = []
  keep p (x ∷ xs) = if p x then x ∷ keep p xs else keep p xs

-- Membership.
pub data In {A : Type 0} (a : A) : List A → Type 0 where
  here : {x : A} {xs : List A} → x ≡ a → In a (x ∷ xs)
  there : {x : A} {xs : List A} → In a xs → In a (x ∷ xs)

pub not-In-nil : {A : Type 0} {a : A} → ¬ (In a [])
not-In-nil m = elim m [ ]

pub In-cons : {A : Type 0} {a x : A} {xs : List A} → In a (x ∷ xs) → (x ≡ a) ⊎ In a xs
In-cons (here e) = inl e
In-cons (there m) = inr m

abbrev pub All {ℓ} : {A : Type ℓ} → (A → Type 0) → List A → Type 0
All P [] = Unit
All P (x ∷ xs) = P x × All P xs

module _ {A : Type 0} where
  pub All-In : (P : A → Type 0) (xs : List A) (a : A) → All P xs → In a xs → P a
  All-In P [] a _ m = elim m [ ]
  All-In P (x ∷ xs) a (h, _) (here e) = subst P e h
  All-In P (x ∷ xs) a (_, t) (there m) = All-In P xs a t m

  pub All-of-In : (P : A → Type 0) (xs : List A) → ((a : A) → In a xs → P a) → All P xs
  All-of-In P [] h = tt
  All-of-In P (x ∷ xs) h = (h x (here refl), All-of-In P xs (λ a m. h a (there m)))

  pub In-append_left : {a : A} {xs : List A} (ys : List A) → In a xs → In a (xs ++ ys)
  In-append_left ys (here e) = here e
  In-append_left ys (there m) = there (In-append_left ys m)

  pub In-append_right : {a : A} (xs : List A) {ys : List A} → In a ys → In a (xs ++ ys)
  In-append_right [] m = m
  In-append_right (x ∷ xs) m = there (In-append_right xs m)

  pub In-append : {a : A} (xs : List A) {ys : List A} → In a (xs ++ ys) → In a xs ⊎ In a ys
  In-append [] m = inr m
  In-append (x ∷ xs) (here e) = inl (here e)
  In-append (x ∷ xs) (there m) = elim (In-append xs m) [ inl l ↦ inl (there l) | inr r ↦ inr r ]

  -- `find` returns an element that passes the test.
  pub find_sound :
      (p : A → Bool) (xs : List A) (a : A) → find p xs ≡ some a → In a xs × (p a ≡ true)
  find_sound p [] a h = cc
  find_sound p (x ∷ xs) a h = elim (Bool-cases (p x)) [
    | inl e ↦ let same : x ≡ a = ground arith in (here same, subst (λ y. p y ≡ true) same e)
    | inr e ↦ let (m, t) = find_sound p xs a (rw e at h) in (there m, t)
  ]

  -- `find` fails only if every element fails the test.
  pub find-none : (p : A → Bool) (xs : List A) → find p xs ≡ none → All (λ a. p a ≡ false) xs
  find-none p [] h = tt
  find-none p (x ∷ xs) h = elim (Bool-cases (p x)) [
    | inl e ↦ cc (rw e at h)
    | inr e ↦ (e, find-none p xs (rw e at h))
  ]

  pub find-none_of_All : (p : A → Bool) (xs : List A) → All (λ a. p a ≡ false) xs → find p xs ≡ none
  find-none_of_All p [] h = refl
  find-none_of_All p (x ∷ xs) (f, h) = rw f (find-none_of_All p xs h)

  pub all-All : (p : A → Bool) (xs : List A) → all p xs ≡ true → All (λ a. p a ≡ true) xs
  all-All p [] h = tt
  all-All p (x ∷ xs) h = let (a, b) = &&-split (p x) (all p xs) h in (a, all-All p xs b)

  pub All-all : (p : A → Bool) (xs : List A) → All (λ a. p a ≡ true) xs → all p xs ≡ true
  All-all p [] h = refl
  All-all p (x ∷ xs) (a, b) = rw a (All-all p xs b)

  pub any-of-In : (p : A → Bool) (a : A) (xs : List A) → In a xs → p a ≡ true → any p xs ≡ true
  any-of-In p a (x ∷ xs) (here e) h = rw (e, h) refl
  any-of-In p a (x ∷ xs) (there m) h = ground (arith, any-of-In p a xs m h)
  any-of-In p a [] m h = elim m [ ]

  pub any_sound :
      (p : A → Bool) (xs : List A) → any p xs ≡ true → (a : A) × (In a xs × (p a ≡ true))
  any_sound p [] h = cc
  any_sound p (x ∷ xs) h = elim (Bool-cases (p x)) [
    | inl e ↦ (x, (here refl, e))
    | inr e ↦ let (a, (m, t)) = any_sound p xs (rw e at h) in (a, (there m, t))
  ]

  pub In-keep : (p : A → Bool) (a : A) (xs : List A) → In a (keep p xs) → In a xs × (p a ≡ true)
  In-keep p a [] m = elim m [ ]
  In-keep p a (x ∷ xs) m = elim (Bool-cases (p x)) [
    | inl e ↦ elim (In-cons (rw e at m)) [
      | inl same ↦ (here same, subst (λ y. p y ≡ true) same e)
      | inr old ↦ let (n, t) = In-keep p a xs old in (there n, t)
    ]
    | inr e ↦ let (n, t) = In-keep p a xs (rw e at m) in (there n, t)
  ]

  pub In-keep_of : (p : A → Bool) (a : A) (xs : List A) → In a xs → p a ≡ true → In a (keep p xs)
  In-keep_of p a [] m t = elim m [ ]
  In-keep_of p a (x ∷ xs) (here same) t =
      let here_too : p x ≡ true = subst (λ y. p y ≡ true) (sym same) t in rw here_too (here same)
  In-keep_of p a (x ∷ xs) (there m) t = elim (Bool-cases (p x)) [
    | inl e ↦ rw e (there (In-keep_of p a xs m t))
    | inr e ↦ rw e (In-keep_of p a xs m t)
  ]

  pub append-eq-nil : (xs ys : List A) → xs ++ ys ≡ [] → (xs ≡ []) × (ys ≡ [])
  append-eq-nil [] ys h = (refl, h)
  append-eq-nil (x ∷ xs) ys h = cc

-- `set.contains(name)`
abbrev pub contains : List String → String → Bool
contains names name = any (λ n. n == name) names

abbrev pub Distinct : List String → Type 0
Distinct [] = Unit
Distinct (n ∷ names) = (contains names n ≡ false) × Distinct names

pub contains-of-In :
    {name : String} {names : List String} → In name names → contains names name ≡ true
contains-of-In {name} (here {x} {xs} e) = rw e (rw (eq_refl name) refl)
contains-of-In {name} (there {x} {xs} m) = ground (arith, contains-of-In m)

pub In-of-contains :
    (names : List String) (name : String) → contains names name ≡ true → In name names
In-of-contains [] name h = cc
In-of-contains (n ∷ names) name h = elim (Bool-cases (n == name)) [
  | inl e ↦ here ((eq_iff n name).0 e)
  | inr e ↦ there (In-of-contains names name (rw e at h))
]

pub contains-not_In :
    (names : List String) (name : String) → ¬ In name names → contains names name ≡ false
contains-not_In names name h = elim (Bool-cases (contains names name)) [
  | inl e ↦ absurd (h (In-of-contains names name e))
  | inr e ↦ e
]
