-- ===== src/Config/Service/Inherit/Merge.antt =====
-- The trees of a chain laid over one another (src/config/service/inherit.rs).
use cli_framework.Prelude.{
  String, ◌≡◌, refl, ap, List, [], ◌∷◌, ◌++◌, Option, none, Map, Distinct, All, or_else,
}
use mathlib.Core.List.{reverse, reverse-cons}
use cli_framework.Prelude.Maps.{lookup, keys, insert_all, lookup-insert_all}
use cli_framework.Json.{Value}
use cli_framework.Config.Service.Types.{StoredPolicy}
use cli_framework.Config.Service.Inherit.{flatten, flatten_from}

-- The entry of the first policy of a chain that has one.
abbrev pub nearest : (StoredPolicy → Map Value) → String → List StoredPolicy → Option Value
nearest tree k [] = none
nearest tree k (p ∷ ps) = or_else (lookup k (tree p)) (nearest tree k ps)

-- The trees of the policies are maps: each key stands once.
abbrev pub IsMapped : StoredPolicy → Type 0
IsMapped p = Distinct (keys p.enforced) × Distinct (keys p.recommended)

flatten_from-append :
    (ps : List StoredPolicy) (p : StoredPolicy) (e r : Map Value)
    → flatten_from (ps ++ p ∷ []) e r ≡ (
      insert_all p.enforced (flatten_from ps e r).0,
      insert_all p.recommended (flatten_from ps e r).1,
    )
unfolding flatten_from
flatten_from-append [] p e r = refl
flatten_from-append (q ∷ ps) p e r = flatten_from-append ps p _ _

-- In the served trees a key has the value of the policy nearest to the profile that sets it: the
-- child's over its parent's, and a parent's where no descendant sets the key.
pub lookup-flatten :
    (chain : List StoredPolicy) (k : String)
    → All IsMapped chain
    → (lookup k (flatten chain).0 ≡ nearest (λ p. p.enforced) k chain)
      × (lookup k (flatten chain).1 ≡ nearest (λ p. p.recommended) k chain)
unfolding flatten lookup
lookup-flatten [] k h = (refl, refl)
lookup-flatten (p ∷ ps) k ((e, r), h) =
    let (ihe, ihr) = lookup-flatten ps k h in
    let last = flatten_from-append (reverse ps) p [] [] in
    (
      rw (reverse-cons, last, lookup-insert_all k p.enforced _ e)
          (ap (or_else (lookup k p.enforced)) ihe),
      rw (reverse-cons, last, lookup-insert_all k p.recommended _ r)
          (ap (or_else (lookup k p.recommended)) ihr),
    )
