-- ===== src/Config/Service/Inherit/Chain.antt =====
-- The walk along the parents of a profile (src/config/service/inherit.rs) against the relation
-- that it computes.
use cli_framework.Prelude.{
  ℕ, zero, suc, ◌+◌, ◌≤◌, ◌<◌, String, ◌≡◌, refl, sym, ◌∙◌, ap, subst, ◌≢◌, inl, inr, ◌↔◌, true,
  false, List, [], ◌∷◌, ◌++◌, none, some, Map, Result, ok, err, length, length-append, contains,
  Distinct, All, In, here, there, is_some, In-of-contains, unwrap_or, arith, eq_iff, Bool-cases,
  Option-cases,
}
use mathlib.Core.List.{append_assoc}
use cli_framework.Prelude.Maps.{lookup, length-le_of_entries}
use cli_framework.Config.Service.Types.{StoredPolicy, InheritanceError, profile_not_found, cycle}
use cli_framework.Config.Service.Inherit.{walk, resolve_chain, bound_of, last_profile}

-- The policies from a profile up to one without a parent, child first, with their names.
pub data Chain (ps : Map StoredPolicy) : String → List String → List StoredPolicy → Type 0 where
  root :
      {name : String} {p : StoredPolicy}
      → lookup name ps ≡ some p
      → p.parent_profile ≡ none
      → Chain ps name (name ∷ []) (p ∷ [])
  child :
      {name parent : String} {p : StoredPolicy} {names : List String} {rest : List StoredPolicy}
      → lookup name ps ≡ some p
      → p.parent_profile ≡ some parent
      → Chain ps parent names rest
      → Chain ps name (name ∷ names) (p ∷ rest)

module _ (ps : Map StoredPolicy) where
  walk-Chain :
      (fuel : ℕ) (start : String) (bound : ℕ) (chain : List StoredPolicy) (seen : List String)
      (current : String) (out : List StoredPolicy)
      → walk fuel ps start bound chain seen current ≡ some (ok out)
      → (names : List String) × (rest : List StoredPolicy) × Chain ps current names rest
        × (out ≡ chain ++ rest)
  unfolding walk
  walk-Chain zero start bound chain seen current out h = cc
  walk-Chain (suc fuel) start bound chain seen current out h =
      elim (Option-cases (lookup current ps)) [
        | inl e ↦ cc (rw (e, walk) at h)
        | inr (p, e) ↦ elim (Option-cases p.parent_profile) [
          | inl k ↦ (current ∷ [], p ∷ [], root e k, ground arith)
          | inr (parent, k) ↦
              let (names, rest, c, same) =
                walk-Chain fuel start bound (chain ++ p ∷ []) (current ∷ seen) parent out
                  (ground arith) in
              (current ∷ names, p ∷ rest, child e k c, same ∙ append_assoc chain (p ∷ []) rest)
        ]
      ]

  -- Enough fuel: the loop returns before the chain is longer than the bound.
  walk-total :
      (fuel : ℕ) (start : String) (bound : ℕ) (chain : List StoredPolicy) (seen : List String)
      (current : String)
      → bound < fuel + length chain
      → 0 < fuel
      → walk fuel ps start bound chain seen current ≢ none
  unfolding walk
  walk-total zero start bound chain seen current h pos = absurd (omega arith)
  walk-total (suc fuel) start bound chain seen current h pos =
      elim (Option-cases (lookup current ps)) [
        | inl e ↦ ground arith
        | inr (p, e) ↦ elim (Option-cases p.parent_profile) [
          | inl k ↦ ground arith
          | inr (parent, k) ↦ ground (
            arith,
            length-append chain (p ∷ []),
            walk-total fuel start bound (chain ++ p ∷ []) (current ∷ seen) parent,
          )
        ]
      ]

  Chain-length :
      {name : String} {names ms : List String} {rest qs : List StoredPolicy}
      → Chain ps name names rest
      → Chain ps name ms qs
      → length names ≡ length ms
  Chain-length (root e k) (root e' k') = refl
  Chain-length (root e k) (child e' k' c) = ground arith
  Chain-length (child e k c) (root e' k') = ground arith
  Chain-length (child {parent} e k c) (child {parent = parent'} {names = ms} {rest = qs} e' k' c') =
      let same : parent' ≡ parent = ground arith in
      ap suc (Chain-length c (subst (λ n. Chain ps n ms qs) same c'))

  Chain-suffix :
      {name n : String} {names : List String} {rest : List StoredPolicy}
      → Chain ps name names rest
      → In n names
      → (ms : List String) × (qs : List StoredPolicy) × Chain ps n ms qs
        × (length ms ≤ length names)
  Chain-suffix (root {name} {p} e k) (here same) =
      (name ∷ [], p ∷ [], subst (λ n. Chain ps n (name ∷ []) (p ∷ [])) same (root e k), omega arith)
  Chain-suffix (root e k) (there m) = elim m [ ]
  Chain-suffix (child {name} {p} {names} {rest} e k c) (here same) = (
    name ∷ names,
    p ∷ rest,
    subst (λ n. Chain ps n (name ∷ names) (p ∷ rest)) same (child e k c),
    omega arith,
  )
  Chain-suffix (child e k c) (there m) =
      let (ms, qs, d, short) = Chain-suffix c m in (ms, qs, d, omega arith)

  -- A finite chain visits no profile twice.
  Chain-Distinct :
      {name : String} {names : List String} {rest : List StoredPolicy}
      → Chain ps name names rest
      → Distinct names
  Chain-Distinct (root e k) = (refl, tt)
  Chain-Distinct (child {name} {names} e k c) = (
    elim (Bool-cases (contains names name)) [
      | inl again ↦
          let (ms, qs, d, short) = Chain-suffix c (In-of-contains names name again) in
          absurd (omega (arith, Chain-length (child e k c) d))
      | inr fresh ↦ fresh
    ],
    Chain-Distinct c,
  )

  Chain-found :
      {name : String} {names : List String} {rest : List StoredPolicy}
      → Chain ps name names rest
      → All (λ n. is_some (lookup n ps) ≡ true) names
  Chain-found (root e k) = (ap is_some e, tt)
  Chain-found (child e k c) = (ap is_some e, Chain-found c)

  Chain-names :
      {name : String} {names : List String} {rest : List StoredPolicy}
      → Chain ps name names rest
      → length names ≡ length rest
  Chain-names (root e k) = refl
  Chain-names (child e k c) = ap suc (Chain-names c)

  unseen :
      (current : String) (seen names : List String)
      → contains names current ≡ false
      → All (λ n. contains seen n ≡ false) names
      → All (λ n. contains (current ∷ seen) n ≡ false) names
  unseen current seen [] fresh h = tt
  unseen current seen (n ∷ names) fresh (new, h) = (
    ground (arith, eq_iff n current, eq_iff current n),
    unseen current seen names (ground arith) h,
  )

  walk_complete :
      (fuel : ℕ) (start : String) (bound : ℕ) (chain : List StoredPolicy) (seen : List String)
      {current : String} {names : List String} {rest : List StoredPolicy}
      → Chain ps current names rest
      → Distinct names
      → All (λ n. contains seen n ≡ false) names
      → length chain + length rest ≤ bound
      → length rest ≤ fuel
      → walk fuel ps start bound chain seen current ≡ some (ok (chain ++ rest))
  unfolding walk
  walk_complete zero start bound chain seen (root e k) d u room enough = absurd (omega arith)
  walk_complete zero start bound chain seen (child e k c) d u room enough = absurd (omega arith)
  walk_complete (suc fuel) start bound chain seen (root {p} e k) d u room enough =
      ground (arith, length-append chain (p ∷ []))
  walk_complete (suc fuel) start bound chain seen (child {name} {parent} {p} {names} {rest} e k c)
        (fresh, d) (new, u) room enough =
      ground (
        arith,
        length-append chain (p ∷ []),
        append_assoc chain (p ∷ []) rest,
        walk_complete fuel start bound (chain ++ p ∷ []) (name ∷ seen) c d
            (unseen name seen names fresh u) (omega (arith, length-append chain (p ∷ [])))
            (omega arith),
      )

  nothing_seen : (names : List String) → All (λ n. contains [] n ≡ false) names
  nothing_seen [] = tt
  nothing_seen (n ∷ names) = (refl, nothing_seen names)

  length-le-bound_of : length ps ≤ bound_of ps
  length-le-bound_of = ground arith

-- The walk returns before its fuel, one more than the bound of the code, runs out.
pub walk-finishes :
    (ps : Map StoredPolicy) (start : String)
    → (r : Result InheritanceError (List StoredPolicy)) × (walk
          (bound_of ps + 1)
          ps
          start
          (bound_of ps)
          []
          []
          start
        ≡ some r)
      × (resolve_chain ps start ≡ r)
unfolding resolve_chain
walk-finishes ps start =
    elim (Option-cases (walk (bound_of ps + 1) ps start (bound_of ps) [] [] start)) [
      | inl out ↦ absurd (
          walk-total ps (bound_of ps + 1) start (bound_of ps) [] [] start (omega arith)
            (omega arith) out)
      | inr (r, e) ↦ (r, e, ap (λ o. unwrap_or o (err (cycle start))) e)
    ]

-- `resolve_chain` succeeds with a chain exactly when it is the finite chain of the profile's
-- parents, child first, up to a policy without a parent.
pub resolve_chain_iff :
    (ps : Map StoredPolicy) (start : String) (chain : List StoredPolicy)
    → (resolve_chain ps start ≡ ok chain) ↔ ((names : List String) × Chain ps start names chain)
unfolding resolve_chain
resolve_chain_iff ps start chain = (
  λ h.
      let (r, e, same) = walk-finishes ps start in
      let (names, rest, c, out) =
        walk-Chain ps (bound_of ps + 1) start (bound_of ps) [] [] start chain (ground arith) in
      (names, subst (λ x. Chain ps start names x) (sym out) c),
  λ (names, c).
      let fits : length chain ≤ bound_of ps = omega (
        arith,
        Chain-names ps c,
        length-le_of_entries names ps (Chain-Distinct ps c) (Chain-found ps c),
        length-le-bound_of ps,
      ) in
      ap (λ o. unwrap_or o (err (cycle start)))
        (walk_complete ps (bound_of ps + 1) start (bound_of ps) [] [] c (Chain-Distinct ps c)
          (nothing_seen ps names) (omega arith) (omega arith)),
)

last_profile-append :
    (chain : List StoredPolicy) (p : StoredPolicy) → last_profile (chain ++ p ∷ []) ≢ none
unfolding last_profile
last_profile-append [] p h = cc
last_profile-append (q ∷ []) p h = cc
last_profile-append (q ∷ r ∷ chain) p h = last_profile-append (r ∷ chain) p h

walk-not_found :
    (ps : Map StoredPolicy) (fuel : ℕ) (start : String) (bound : ℕ) (chain : List StoredPolicy)
    (seen : List String) (current profile : String)
    → walk fuel ps start bound chain seen current ≡ some (err (profile_not_found profile))
    → (last_profile chain ≡ none) × (lookup current ps ≡ none)
unfolding walk
walk-not_found ps zero start bound chain seen current profile h = cc
walk-not_found ps (suc fuel) start bound chain seen current profile h =
    elim (Option-cases (lookup current ps)) [
      | inl e ↦ (ground arith, e)
      | inr (p, e) ↦ elim (Option-cases p.parent_profile) [
        | inl k ↦ ground arith
        | inr (parent, k) ↦
            let (out, _) =
              walk-not_found ps fuel start bound (chain ++ p ∷ []) (current ∷ seen) parent profile
                (ground arith) in
            absurd (last_profile-append chain p out)
      ]
    ]

-- A profile is reported as missing only if it has no stored policy.
pub resolve_chain-not_found :
    (ps : Map StoredPolicy) (start profile : String)
    → resolve_chain ps start ≡ err (profile_not_found profile)
    → lookup start ps ≡ none
resolve_chain-not_found ps start profile h =
    let (r, e, same) = walk-finishes ps start in
    (walk-not_found ps (bound_of ps + 1) start (bound_of ps) [] [] start profile
      (cc (e, same, h))).1
