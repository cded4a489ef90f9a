-- ===== src/Config/Service/Inherit.antt =====
-- src/config/service/inherit.rs: the chain of a profile's parents, and its trees laid over one
-- another.
pub mod Chain
pub mod Merge
use cli_framework.Prelude.{
  ℕ, zero, suc, ◌+◌, String, Bool, true, false, List, [], ◌∷◌, ◌++◌, Option, none, some, Map,
  Result, ok, err, length, ltb, contains, unwrap_or, if◌then◌else◌,
}
use mathlib.Core.List.{reverse}
use cli_framework.Prelude.Maps.{lookup, insert_all}
use cli_framework.Json.{Value}
use cli_framework.Config.Service.Types.{
  StoredPolicy, InheritanceError, profile_not_found, missing_parent, cycle,
}

-- The profile of the last policy of a chain, if there is one.
last_profile : List StoredPolicy → Option String
last_profile [] = none
last_profile (p ∷ []) = some p.profile
last_profile (p ∷ q ∷ ps) = last_profile (q ∷ ps)

-- The error when `current` has no stored policy.
not_found : List StoredPolicy → String → InheritanceError
not_found chain current = elim (last_profile chain) [
  | none ↦ profile_not_found current
  | some child ↦ missing_parent child current
]

abbrev WalkResult : Type 0
WalkResult = Option (Result InheritanceError (List StoredPolicy))

-- The loop, on fuel. `none` is the end of the fuel.
pub walk :
    ℕ
    → Map StoredPolicy
    → String
    → ℕ
    → List StoredPolicy
    → List String
    → String
    → Option (Result InheritanceError (List StoredPolicy))
unfolding not_found last_profile
walk zero policies start bound chain seen current = none
walk (suc fuel) policies start bound chain seen current = elim (lookup current policies) [
  | none ↦ some (err (not_found chain current))
  | some policy ↦
      if contains seen current
      then some (err (cycle current))
      else if ltb bound (length (chain ++ policy ∷ []))
      then some (err (cycle start))
      else elim policy.parent_profile [
        | none ↦ some (ok (chain ++ policy ∷ []))
        | some parent ↦
            walk fuel policies start bound (chain ++ policy ∷ []) (current ∷ seen) parent
      ]
]

-- `policies_by_profile.len().max(1)`
abbrev pub bound_of : Map StoredPolicy → ℕ
bound_of policies = elim (length policies) [ zero ↦ 1 | suc n ↦ suc n ]

unfoldable pub resolve_chain :
    Map StoredPolicy → String → Result InheritanceError (List StoredPolicy)
unfolding walk
resolve_chain policies start =
    unwrap_or (walk (bound_of policies + 1) policies start (bound_of policies) [] [] start)
      (err (cycle start))

abbrev versions : List StoredPolicy → List (String × ℕ)
versions [] = []
versions (p ∷ ps) = (p.profile, p.version) ∷ versions ps

-- The standard library's hasher, fed a sequence of profiles and versions.
module _ (hash : List (String × ℕ) → ℕ) where
  unfoldable pub combined_chain_version : List StoredPolicy → ℕ
  combined_chain_version (only ∷ []) = only.version
  combined_chain_version chain = hash (versions chain)

flatten_from : List StoredPolicy → Map Value → Map Value → Map Value × Map Value
flatten_from [] enforced recommended = (enforced, recommended)
flatten_from (p ∷ ps) enforced recommended =
    flatten_from ps (insert_all p.enforced enforced) (insert_all p.recommended recommended)

unfoldable pub flatten : List StoredPolicy → Map Value × Map Value
unfolding flatten_from
flatten chain = flatten_from (reverse chain) [] []
