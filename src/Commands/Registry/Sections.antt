-- ===== src/Commands/Registry/Sections.antt =====
-- The order of the help sections (src/command/registry.rs).
use cli_framework.Prelude.{
  String, ◌≡◌, refl, sym, ap, ◌∙◌, Bool, true, false, ◌||◌, List, [], ◌∷◌, ◌++◌, some, arith,
  contains, Distinct, Bool-cases, inl, inr, ◌==◌, eq_iff, is_some, subst, length, eq_refl,
}
use mathlib.Core.List.{append-nil, append_assoc}
use cli_framework.Commands.Registry.{
  CommandRegistry, push_sections, position, set_help_section_order, help_section_rank,
}

or-split : (a b : Bool) → a || b ≡ false → (a ≡ false) × (b ≡ false)
or-split a b h = ground arith

contains-append :
    (xs ys : List String) (s : String) → contains (xs ++ ys) s ≡ contains xs s || contains ys s
contains-append [] ys s = refl
contains-append (x ∷ xs) ys s = ground (arith, contains-append xs ys s)

Distinct-snoc :
    (xs : List String) (s : String) → Distinct xs → contains xs s ≡ false → Distinct (xs ++ s ∷ [])
Distinct-snoc [] s h fresh = (refl, tt)
Distinct-snoc (x ∷ xs) s (new, h) fresh = (
  ground (arith, contains-append xs (s ∷ []) x, eq_iff s x, eq_iff x s),
  Distinct-snoc xs s h (ground arith),
)

push_sections-Distinct :
    (order sections : List String) → Distinct order → Distinct (push_sections order sections)
unfolding push_sections
push_sections-Distinct order [] h = h
push_sections-Distinct order (s ∷ sections) h = elim (Bool-cases (contains order s)) [
  | inl e ↦ rw (push_sections, e) (push_sections-Distinct order sections h)
  | inr e ↦
      rw (push_sections, e)
        (push_sections-Distinct (order ++ s ∷ []) sections (Distinct-snoc order s h e))
]

contains-push_sections :
    (order sections : List String) (s : String)
    → contains (push_sections order sections) s ≡ contains order s || contains sections s
unfolding push_sections
contains-push_sections order [] s = ground arith
contains-push_sections order (x ∷ sections) s = elim (Bool-cases (contains order x)) [
  | inl e ↦ elim (Bool-cases (x == s)) [
    | inl f ↦
        let there : contains order s ≡ true =
          subst (λ y. contains order y ≡ true) ((eq_iff x s).0 f) e in
        rw (push_sections, e) (ground (arith, contains-push_sections order sections s))
    | inr f ↦ rw (push_sections, e) (ground (arith, contains-push_sections order sections s))
  ]
  | inr e ↦
      rw (push_sections, e)
        (ground (
          arith,
          contains-push_sections (order ++ x ∷ []) sections s,
          contains-append order (x ∷ []) s,
        ))
]

push_sections-append :
    (order xs ys : List String)
    → push_sections order (xs ++ ys) ≡ push_sections (push_sections order xs) ys
unfolding push_sections
push_sections-append order [] ys = refl
push_sections-append order (x ∷ xs) ys = elim (Bool-cases (contains order x)) [
  | inl e ↦ rw (push_sections, e) (push_sections-append order xs ys)
  | inr e ↦ rw (push_sections, e) (push_sections-append (order ++ x ∷ []) xs ys)
]

push_sections-extends :
    (order ys : List String) → (zs : List String) × (push_sections order ys ≡ order ++ zs)
unfolding push_sections
push_sections-extends order [] = ([], sym (append-nil order))
push_sections-extends order (y ∷ ys) = elim (Bool-cases (contains order y)) [
  | inl e ↦ rw (push_sections, e) (push_sections-extends order ys)
  | inr e ↦
      let (zs, k) = push_sections-extends (order ++ y ∷ []) ys in
      rw (push_sections, e) (y ∷ zs, k ∙ append_assoc order (y ∷ []) zs)
]

position-append :
    (s : String) (order zs : List String)
    → contains order s ≡ false
    → position s (order ++ s ∷ zs) ≡ some (length order)
unfolding position
position-append s [] zs h = rw (eq_refl s) refl
position-append s (x ∷ order) zs h =
    let (other, more) = or-split (x == s) (contains order s) h in
    rw (other, position-append s order zs more) refl

position-is_some :
    (s : String) (order : List String) → is_some (position s order) ≡ contains order s
unfolding position
position-is_some s [] = refl
position-is_some s (x ∷ order) = ground (arith, position-is_some s order)

-- The sections that `set_help_section_order` keeps are distinct, and exactly those given have a
-- rank.
pub set_help_section_order_lem :
    {Execute : Type 0} (r : CommandRegistry Execute) (sections : List String) (s : String)
    → Distinct (set_help_section_order r sections).help_section_order
      × (is_some (help_section_rank (set_help_section_order r sections) s) ≡ contains sections s)
unfolding set_help_section_order help_section_rank
set_help_section_order_lem r sections s = (
  push_sections-Distinct [] sections tt,
  position-is_some s (push_sections [] sections) ∙ contains-push_sections [] sections s,
)

-- The rank of a section is the number of sections that are kept of those given before its first
-- place.
pub help_section_rank-set :
    {Execute : Type 0} (r : CommandRegistry Execute) (before after : List String) (s : String)
    → contains before s ≡ false
    → help_section_rank (set_help_section_order r (before ++ s ∷ after)) s
      ≡ some (length (set_help_section_order r before).help_section_order)
unfolding set_help_section_order help_section_rank push_sections
help_section_rank-set r before after s h =
    let kept = push_sections [] before in
    let fresh : contains kept s ≡ false = contains-push_sections [] before s ∙ h in
    let (zs, k) = push_sections-extends (kept ++ s ∷ []) after in
    let added : push_sections kept (s ∷ after) ≡ push_sections (kept ++ s ∷ []) after =
      rw (push_sections, fresh) refl in
    ap (position s)
      (push_sections-append [] before (s ∷ after) ∙ added ∙ k ∙ append_assoc kept (s ∷ []) zs)
    ∙ position-append s kept zs fresh
