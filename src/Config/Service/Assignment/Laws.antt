-- ===== src/Config/Service/Assignment/Laws.antt =====
-- Which rule decides a caller's profile (src/config/service/assignment.rs).
use cli_framework.Prelude.{
  ◌≡◌, subst, ◌↔◌, ◌⊎◌, inl, inr, Bool, true, false, List, [], ◌∷◌, none, some, arith, find,
  find_sound, find-none, All, All-In, All-of-In, In, In-cons, not-In-nil, here, there, ≤ℤ-refl,
  <ℤ-le, find-none_of_All, ltb_ℤ, ◌≤ℤ◌, ≤ℤ-trans, Bool-cases,
}
use cli_framework.Json.{Value}
use cli_framework.Config.Service.Types.{AssignmentRule}
use cli_framework.Config.Service.Assignment.{
  rule_matches, insert_by_ord, sort_by_ord, resolve_profile,
}

abbrev IsSorted : List AssignmentRule → Type 0
IsSorted [] = Unit
IsSorted (r ∷ rules) = All (λ s. r.ord ≤ℤ s.ord) rules × IsSorted rules

All-insert_by_ord :
    (P : AssignmentRule → Type 0) (r : AssignmentRule) (rules : List AssignmentRule)
    → P r
    → All P rules
    → All P (insert_by_ord r rules)
unfolding insert_by_ord
All-insert_by_ord P r [] h k = (h, tt)
All-insert_by_ord P r (s ∷ rules) h (k, ks) = elim (Bool-cases (ltb_ℤ r.ord s.ord)) [
  | inl e ↦ rw e (h, (k, ks))
  | inr e ↦ rw e (k, All-insert_by_ord P r rules h ks)
]

All-weaken :
    (r s : AssignmentRule) (rules : List AssignmentRule)
    → r.ord ≤ℤ s.ord
    → All (λ x. s.ord ≤ℤ x.ord) rules
    → All (λ x. r.ord ≤ℤ x.ord) rules
All-weaken r s [] h k = tt
All-weaken r s (x ∷ rules) h (k, ks) = (≤ℤ-trans r.ord s.ord x.ord h k, All-weaken r s rules h ks)

insert_by_ord-IsSorted :
    (r : AssignmentRule) (rules : List AssignmentRule)
    → IsSorted rules
    → IsSorted (insert_by_ord r rules)
unfolding insert_by_ord
insert_by_ord-IsSorted r [] h = (tt, tt)
insert_by_ord-IsSorted r (s ∷ rules) (least, h) = elim (Bool-cases (ltb_ℤ r.ord s.ord)) [
  | inl e ↦
      let below : r.ord ≤ℤ s.ord = <ℤ-le r.ord s.ord e in
      rw e ((below, All-weaken r s rules below least), (least, h))
  | inr e ↦
      rw e
        (All-insert_by_ord (λ x. s.ord ≤ℤ x.ord) r rules e least, insert_by_ord-IsSorted r rules h)
]

sort_by_ord-IsSorted :
    (sorted rules : List AssignmentRule) → IsSorted sorted → IsSorted (sort_by_ord sorted rules)
unfolding sort_by_ord
sort_by_ord-IsSorted sorted [] h = h
sort_by_ord-IsSorted sorted (r ∷ rules) h =
    sort_by_ord-IsSorted (insert_by_ord r sorted) rules (insert_by_ord-IsSorted r sorted h)

In-insert_by_ord :
    (a r : AssignmentRule) (rules : List AssignmentRule)
    → In a (insert_by_ord r rules) ↔ In a (r ∷ rules)
unfolding insert_by_ord
In-insert_by_ord a r [] = (λ m. m, λ m. m)
In-insert_by_ord a r (s ∷ rules) = elim (Bool-cases (ltb_ℤ r.ord s.ord)) [
  | inl e ↦ rw e (λ m. m, λ m. m)
  | inr e ↦ rw e (
    λ m. swap (In-map (In-insert_by_ord a r rules).0 m),
    λ m. In-map (In-insert_by_ord a r rules).1 (swap m),
  )
]
  where
    In-map :
        {x : AssignmentRule} {xs ys : List AssignmentRule}
        → (In a xs → In a ys)
        → In a (x ∷ xs)
        → In a (x ∷ ys)
    In-map f (here e) = here e
    In-map f (there m) = there (f m)

    swap : {x y : AssignmentRule} {xs : List AssignmentRule} → In a (x ∷ y ∷ xs) → In a (y ∷ x ∷ xs)
    swap (here e) = there (here e)
    swap (there (here e)) = here e
    swap (there (there m)) = there (there m)

In-sort_by_ord :
    (a : AssignmentRule) (sorted rules : List AssignmentRule)
    → In a (sort_by_ord sorted rules) ↔ (In a sorted ⊎ In a rules)
unfolding sort_by_ord
In-sort_by_ord a sorted [] = (inl, λ m. elim m [ inl l ↦ l | inr r ↦ absurd (not-In-nil r) ])
In-sort_by_ord a sorted (r ∷ rules) =
    let (to, from) = In-sort_by_ord a (insert_by_ord r sorted) rules in
    let (out, back) = In-insert_by_ord a r sorted in
    (
      λ m. elim (to m) [
        | inl l ↦ elim (In-cons (out l)) [ inl e ↦ inr (here e) | inr k ↦ inl k ]
        | inr k ↦ inr (there k)
      ],
      λ m. elim m [
        | inl l ↦ from (inl (back (there l)))
        | inr k ↦ elim (In-cons k) [ inl e ↦ from (inl (back (here e))) | inr t ↦ from (inr t) ]
      ],
    )

find-least :
    (p : AssignmentRule → Bool) (rules : List AssignmentRule) (a : AssignmentRule)
    → IsSorted rules
    → find p rules ≡ some a
    → All (λ s. p s ≡ true → a.ord ≤ℤ s.ord) rules
find-least p [] a h e = tt
find-least p (r ∷ rules) a (least, h) e = elim (Bool-cases (p r)) [
  | inl t ↦
      let same : r ≡ a = ground arith in
      subst (λ x. All (λ s. p s ≡ true → x.ord ≤ℤ s.ord) (r ∷ rules)) same
        (λ _. ≤ℤ-refl r.ord, All-of-In _ rules (λ s m _. All-In _ rules s least m))
  | inr f ↦ (λ t. cc (f, t), find-least p rules a h (rw f at e))
]

-- The rule that decides is one of the rules, matches the claims, and no matching rule has a
-- smaller `ord`, whatever the order in which the rules are stored.
pub resolve_profile-least :
    (rules : List AssignmentRule) (claims : Value) (rule : AssignmentRule)
    → resolve_profile rules claims ≡ some rule
    → In rule rules
      × (rule_matches rule claims ≡ true)
      × ((other : AssignmentRule)
          → In other rules
          → rule_matches other claims ≡ true
          → rule.ord ≤ℤ other.ord)
unfolding resolve_profile
resolve_profile-least rules claims rule h =
    let p = λ (r : AssignmentRule). rule_matches r claims in
    let (m, t) = find_sound p (sort_by_ord [] rules) rule h in
    let least = find-least p (sort_by_ord [] rules) rule (sort_by_ord-IsSorted [] rules tt) h in
    (
      elim ((In-sort_by_ord rule [] rules).0 m) [ inl k ↦ absurd (not-In-nil k) | inr k ↦ k ],
      t,
      λ other k.
          All-In _ (sort_by_ord [] rules) other least ((In-sort_by_ord other [] rules).1 (inr k)),
    )

-- No profile is resolved exactly when no rule matches the claims.
pub resolve_profile-none_iff :
    (rules : List AssignmentRule) (claims : Value)
    → (resolve_profile rules claims ≡ none) ↔ All (λ r. rule_matches r claims ≡ false) rules
unfolding resolve_profile
resolve_profile-none_iff rules claims = (
  λ h. All-of-In _ rules (λ r m.
      All-In _ (sort_by_ord [] rules) r
        (find-none (λ x. rule_matches x claims) (sort_by_ord [] rules) h)
        ((In-sort_by_ord r [] rules).1 (inr m))),
  λ h.
      find-none_of_All (λ x. rule_matches x claims) (sort_by_ord [] rules)
        (All-of-In _ (sort_by_ord [] rules) (λ r m. elim ((In-sort_by_ord r [] rules).0 m) [
          | inl k ↦ absurd (not-In-nil k)
          | inr k ↦ All-In (λ x. rule_matches x claims ≡ false) rules r h k
        ])),
)
