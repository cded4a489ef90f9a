-- ===== src/Config/Service/Validate/Policies.antt =====
-- The server's validation against the client's resolver (src/config/service/validate.rs and
-- src/config/resolution/resolver.rs).
use cli_framework.Prelude.{
  String, ◌≡◌, refl, sym, ◌∙◌, ap, subst, true, false, List, [], ◌∷◌, Option, none, some, Map,
  arith, any-of-In, find, find_sound, In, here, there, Distinct, contains, contains-of-In,
  In-of-contains, append-eq-nil, is_some, ◌==◌, eq_iff, eq_refl, Option-cases, map, inl, inr,
}
use mathlib.Core.Option
use cli_framework.Prelude.Maps.{lookup, keys, lookup-contains}
use cli_framework.Json.{Value, Float}
use cli_framework.Config.Manifest.{
  FieldManifest, ConfigManifest, LeafField, iter_leaves, leaf_by_path,
}
use cli_framework.Config.Resolution.{
  ResolutionInput, WarningReason, server_tree_drop_reason_recommended,
  server_tree_drop_reason_enforced, resolve, value,
}
use cli_framework.Config.Resolution.Precedence.{chosen, last_leaf, resolve-eq-chosen}
use cli_framework.Config.Resolution.ServerTrees.{with_trees, chosen-enforced}
use cli_framework.Config.Resolution.Quiet.{resolve-quiet, any_path}
use cli_framework.Config.Service.Types.{StoredPolicy}
use cli_framework.Config.Service.Validate.{entry_error, tree_errors, validate_stored_policy}

-- No two leaves of the manifest have one path.
abbrev pub HasDistinctPaths : ConfigManifest → Type 0
HasDistinctPaths manifest = Distinct (map (λ l. l.path) (iter_leaves manifest))

In-path :
    {l : LeafField} {leaves : List LeafField} → In l leaves → In l.path (map (λ x. x.path) leaves)
In-path (here e) = here (ap (λ x. x.path) e)
In-path (there m) = there (In-path m)

last_leaf-fresh :
    (wanted : String) (leaves : List LeafField)
    → contains (map (λ x. x.path) leaves) wanted ≡ false
    → last_leaf wanted leaves ≡ none
last_leaf-fresh wanted [] h = refl
last_leaf-fresh wanted (l ∷ leaves) h = ground (arith, last_leaf-fresh wanted leaves)

last_leaf-In :
    (leaves : List LeafField) (l : LeafField)
    → Distinct (map (λ x. x.path) leaves)
    → In l leaves
    → last_leaf l.path leaves ≡ some l
last_leaf-In [] l d m = elim m [ ]
last_leaf-In (x ∷ leaves) l (fresh, d) (here e) =
    subst (λ y. last_leaf y.path (x ∷ leaves) ≡ some y) e
      (rw (last_leaf-fresh x.path leaves fresh, eq_refl x.path) refl)
last_leaf-In (x ∷ leaves) l (fresh, d) (there m) = rw (last_leaf-In leaves l d m) refl

leaf_by_path-In :
    (manifest : ConfigManifest) (wanted : String) (f : FieldManifest)
    → leaf_by_path manifest wanted ≡ some f
    → (l : LeafField) × In l (iter_leaves manifest) × (l.path ≡ wanted) × (l.field ≡ f)
unfolding leaf_by_path
leaf_by_path-In manifest wanted f h =
    elim (Option-cases (find (λ l. l.path == wanted) (iter_leaves manifest))) [
      | inl e ↦ cc (rw (e, leaf_by_path) at h)
      | inr (l, e) ↦
          let (m, t) = find_sound (λ l. l.path == wanted) (iter_leaves manifest) l e in
          (l, m, (eq_iff l.path wanted).0 t, ground arith)
    ]

some_eq : {a b : LeafField} → some a ≡ some b → a ≡ b
some_eq h = cc

module _ (as_f64 : Value → Option Float) where
  entry_error-none :
      (manifest : ConfigManifest) (policy : StoredPolicy)
      (drop_reason : FieldManifest → Value → Option WarningReason) (path : String) (raw : Value)
      → entry_error as_f64 manifest policy drop_reason path raw ≡ none
      → (f : FieldManifest) × (leaf_by_path manifest path ≡ some f) × (drop_reason f raw ≡ none)
  unfolding entry_error
  entry_error-none manifest policy drop_reason path raw h = ground arith

  tree_errors-nil :
      (manifest : ConfigManifest) (policy : StoredPolicy)
      (drop_reason : FieldManifest → Value → Option WarningReason) (tree : Map Value)
      (path : String) (raw : Value)
      → tree_errors as_f64 manifest policy drop_reason tree ≡ []
      → lookup path tree ≡ some raw
      → entry_error as_f64 manifest policy drop_reason path raw ≡ none
  unfolding tree_errors lookup
  tree_errors-nil manifest policy drop_reason [] path raw h e = cc
  tree_errors-nil manifest policy drop_reason ((k, v) ∷ tree) path raw h e =
      ground (arith, eq_iff k path, tree_errors-nil manifest policy drop_reason tree path raw)

  -- A leaf is the one that validation checked at its path.
  checked_leaf :
      (manifest : ConfigManifest) (policy : StoredPolicy)
      (drop_reason : FieldManifest → Value → Option WarningReason) (tree : Map Value) (raw : Value)
      (leaf : LeafField)
      → HasDistinctPaths manifest
      → tree_errors as_f64 manifest policy drop_reason tree ≡ []
      → In leaf (iter_leaves manifest)
      → lookup leaf.path tree ≡ some raw
      → drop_reason leaf.field raw ≡ none
  checked_leaf manifest policy drop_reason tree raw leaf d h m e =
      let (f, found, clean) =
        entry_error-none manifest policy drop_reason leaf.path raw
          (tree_errors-nil manifest policy drop_reason tree leaf.path raw h e) in
      let (l, m', same_path, same) = leaf_by_path-In manifest leaf.path f found in
      let one : last_leaf leaf.path (iter_leaves manifest) ≡ some l =
        subst (λ p. last_leaf p (iter_leaves manifest) ≡ some l) same_path
          (last_leaf-In (iter_leaves manifest) l d m') in
      let two = last_leaf-In (iter_leaves manifest) leaf d m in
      let leaf_is : l ≡ leaf = some_eq (sym one ∙ two) in
      subst (λ g. drop_reason g raw ≡ none) (sym same ∙ ap (λ x. x.field) leaf_is) clean

  known_key :
      (manifest : ConfigManifest) (policy : StoredPolicy)
      (drop_reason : FieldManifest → Value → Option WarningReason) (tree : Map Value) (key : String)
      → tree_errors as_f64 manifest policy drop_reason tree ≡ []
      → In key (keys tree)
      → (leaf : LeafField) × In leaf (iter_leaves manifest) × (leaf.path ≡ key)
  known_key manifest policy drop_reason tree key h m = elim (Option-cases (lookup key tree)) [
    | inl e ↦ cc (contains-of-In m, lookup-contains key tree, e)
    | inr (raw, e) ↦
        let (f, found, clean) =
          entry_error-none manifest policy drop_reason key raw
            (tree_errors-nil manifest policy drop_reason tree key raw h e) in
        let (l, m', same_path, same) = leaf_by_path-In manifest key f found in (l, m', same_path)
  ]

  known_path :
      (manifest : ConfigManifest) (policy : StoredPolicy)
      (drop_reason : FieldManifest → Value → Option WarningReason) (tree : Map Value) (key : String)
      → tree_errors as_f64 manifest policy drop_reason tree ≡ []
      → In key (keys tree)
      → any_path key (iter_leaves manifest) ≡ true
  known_path manifest policy drop_reason tree key h m =
      let (l, m', same) = known_key manifest policy drop_reason tree key h m in
      any-of-In (λ x. x.path == key) l (iter_leaves manifest) m' ((eq_iff l.path key).1 same)

  -- A policy that the server's validation accepts is applied whole by a client, whatever the
  -- client's own layers hold: the resolver warns of nothing, and every enforced entry is the
  -- resolved value of its path.
  pub validated_policy_applies :
      (manifest : ConfigManifest) (policy : StoredPolicy) (input : ResolutionInput)
      → HasDistinctPaths manifest
      → validate_stored_policy as_f64 manifest policy ≡ []
      → ((resolve manifest (with_trees input policy.recommended policy.enforced)).warnings ≡ [])
        × ((path : String) (raw : Value)
            → lookup path policy.enforced ≡ some raw
            → value (resolve manifest (with_trees input policy.recommended policy.enforced)) path
              ≡ some raw)
  unfolding validate_stored_policy
  validated_policy_applies manifest policy input d h =
      let (hr, he) =
        append-eq-nil
          (tree_errors as_f64 manifest policy server_tree_drop_reason_recommended
            policy.recommended)
          (tree_errors as_f64 manifest policy server_tree_drop_reason_enforced policy.enforced) h in
      (
        resolve-quiet manifest (with_trees input policy.recommended policy.enforced)
            (λ leaf m. (
              λ raw. checked_leaf manifest policy _ policy.recommended raw leaf d hr m,
              λ raw. checked_leaf manifest policy _ policy.enforced raw leaf d he m,
            ))
            (λ key. known_path manifest policy _ policy.recommended key hr)
            (λ key. known_path manifest policy _ policy.enforced key he),
        λ path raw e.
            let m =
              In-of-contains (keys policy.enforced) path
                (lookup-contains path policy.enforced ∙ ap is_some e) in
            let (l, m', same) = known_key manifest policy _ policy.enforced path he m in
            let e' : lookup l.path policy.enforced ≡ some raw =
              subst (λ p. lookup p policy.enforced ≡ some raw) (sym same) e in
            let clean =
              checked_leaf manifest policy server_tree_drop_reason_enforced policy.enforced raw l d
                he m' e' in
            let found : last_leaf path (iter_leaves manifest) ≡ some l =
              subst (λ p. last_leaf p (iter_leaves manifest) ≡ some l) same
                (last_leaf-In (iter_leaves manifest) l d m') in
            let (v, p) =
              resolve-eq-chosen manifest (with_trees input policy.recommended policy.enforced)
                path in
            v
            ∙ ap
                (Option.map
                  (λ x. (chosen (with_trees input policy.recommended policy.enforced) x).0))
                found
            ∙ ap some (
                chosen-enforced (with_trees input policy.recommended policy.enforced) l raw e'
                  clean),
      )
