-- ===== src/Config/Managed/Roaming/Shielded.antt =====
-- What leaves the machine with a roaming document (src/config/managed/roaming_client.rs).
use Prim.Native.String.{compare}
use text.Mathlib.TextEquality.{path_by_compare}
use cli_framework.Prelude.{
  ◌≡◌, ◌↔◌, refl, sym, ap, ◌∙◌, subst, String, Bool, true, false, List, [], ◌∷◌, none, some, Map,
  In, here, there, keep, map, contains, Bool-cases, inl, inr, ◌==◌, eq_iff, arith, if◌then◌else◌,
}
use cli_framework.Prelude.KeyOrder.{ordering-cases}
use cli_framework.Prelude.Maps.{lookup, insert}
use cli_framework.Json.{Value}
use cli_framework.Config.Manifest.{
  Scope, user, machine, org, attributes, ConfigManifest, LeafField, iter_leaves,
}
use cli_framework.Config.Managed.Roaming.{
  is_user, roams, user_paths, filter_user_scoped, RoamingConfigClient, put_document,
}

-- A field that a caller may see on another machine.
abbrev pub MayRoam : LeafField → Type 0
MayRoam l =
    ((attributes l.field).scope ≡ user)
    × (((attributes l.field).local_only ≡ false) × ((attributes l.field).secret ≡ false))

is_user_iff : (s : Scope) → (is_user s ≡ true) ↔ (s ≡ user)
is_user_iff user = (λ h. refl, λ h. refl)
is_user_iff machine = (λ h. cc, λ h. cc)
is_user_iff org = (λ h. cc, λ h. cc)

roams_iff : (l : LeafField) → (roams l ≡ true) ↔ MayRoam l
roams_iff l =
    let (known, back) = is_user_iff (attributes l.field).scope in
    (
      λ h. (known (ground arith), (ground arith, ground arith)),
      λ (s, (local, hidden)). rw (back s, local, hidden) refl,
    )

lookup-keep :
    (p : String → Bool) (key : String) (doc : Map Value)
    → lookup key (keep (λ (e : String × Value). p e.0) doc)
      ≡ (if p key then lookup key doc else none)
unfolding lookup
lookup-keep p key [] = ground arith
lookup-keep p key ((k, v) ∷ doc) = ground (arith, lookup-keep p key doc, eq_iff k key)

keep-insert :
    (p : String → Bool) (key : String) (v : Value) (doc : Map Value)
    → p key ≡ false
    → keep (λ (e : String × Value). p e.0) (insert key v doc)
      ≡ keep (λ (e : String × Value). p e.0) doc
unfolding insert
keep-insert p key v [] h = rw h refl
keep-insert p key v ((k, u) ∷ doc) h = elim (ordering-cases (compare key k)) [
  | inl e ↦ rw (insert, e) (rw h refl)
  | inr (inl e) ↦
      let same : p k ≡ false = subst (λ x. p x ≡ false) (path_by_compare key k e) h in
      rw (insert, e) (rw (h, same) refl)
  | inr (inr e) ↦ rw (insert, e, keep-insert p key v doc h) refl
]

there_too :
    (wanted : String) (l : LeafField) (leaves : List LeafField)
    → ((f : LeafField) × (In f leaves × ((f.path ≡ wanted) × (roams f ≡ true))))
    → (f : LeafField) × (In f (l ∷ leaves) × ((f.path ≡ wanted) × (roams f ≡ true)))
there_too wanted l leaves (f, (m, h)) = (f, (there m, h))

found_leaf :
    (wanted : String) (leaves : List LeafField)
    → contains (map (λ (l : LeafField). l.path) (keep roams leaves)) wanted ≡ true
    → (l : LeafField) × (In l leaves × ((l.path ≡ wanted) × (roams l ≡ true)))
found_leaf wanted [] h = cc
found_leaf wanted (l ∷ leaves) h = elim (Bool-cases (roams l)) [
  | inr e ↦ there_too wanted l leaves (found_leaf wanted leaves (rw e at h))
  | inl e ↦ elim (Bool-cases (l.path == wanted)) [
    | inl same ↦ (l, (here refl, ((eq_iff l.path wanted).0 same, e)))
    | inr other ↦ there_too wanted l leaves (found_leaf wanted leaves (rw (e, other) at h))
  ]
]

leaf_found :
    (wanted : String) (l : LeafField) (leaves : List LeafField)
    → In l leaves
    → l.path ≡ wanted
    → roams l ≡ true
    → contains (map (λ (f : LeafField). f.path) (keep roams leaves)) wanted ≡ true
leaf_found wanted l [] m e r = elim m [ ]
leaf_found wanted l (f ∷ leaves) (here same) e r =
    let mine : roams f ≡ true = subst (λ x. roams x ≡ true) (sym same) r in
    let at : (f.path == wanted) ≡ true = (eq_iff f.path wanted).1 (ap (λ x. x.path) same ∙ e) in
    rw mine (rw at refl)
leaf_found wanted l (f ∷ leaves) (there m) e r =
    let rest = leaf_found wanted l leaves m e r in
    elim (Bool-cases (roams f)) [ inl k ↦ rw k (ground arith) | inr k ↦ rw k rest ]

may :
    (leaves : List LeafField) (key : String)
    → ((l : LeafField) × (In l leaves × ((l.path ≡ key) × (roams l ≡ true))))
    → (l : LeafField) × (In l leaves × ((l.path ≡ key) × MayRoam l))
may leaves key (l, (m, (same, r))) = (l, (m, (same, (roams_iff l).0 r)))

-- A value is in what the filter leaves exactly where it is the document's, under the path of a
-- declared field of the user's scope that is neither local nor a secret.
pub filter_user_scoped_iff :
    (manifest : ConfigManifest) (doc : Map Value) (key : String) (v : Value)
    → (lookup key (filter_user_scoped manifest doc) ≡ some v) ↔ (
        (lookup key doc ≡ some v)
        × ((l : LeafField) × (In l (iter_leaves manifest) × ((l.path ≡ key) × MayRoam l))))
unfolding filter_user_scoped
filter_user_scoped_iff manifest doc key v =
    let p : String → Bool = contains (user_paths manifest) in
    elim (Bool-cases (p key)) [
      | inl e ↦
          rw (lookup-keep p key doc, e)
            (
              λ h. (h, may (iter_leaves manifest) key (found_leaf key (iter_leaves manifest) e)),
              λ h. h.0,
            )
      | inr e ↦
          rw (lookup-keep p key doc, e)
            (
              λ h. cc,
              λ (_, (l, (m, (same, r)))).
                  let there = leaf_found key l (iter_leaves manifest) m same ((roams_iff l).1 r) in
                  cc (sym there ∙ e),
            )
    ]

-- A put sends nothing of a field that may not leave the machine: where every declared field of that
-- path is local, a secret or not of the user's scope (or where there is none), the outcome and the
-- world after it are the same whatever value the document has there.
pub put_document-insert :
    {W : Type 0} (client : RoamingConfigClient W) (manifest : ConfigManifest) (doc : Map Value)
    (if_match : String) (w : W) (key : String) (v : Value)
    → ((l : LeafField) → In l (iter_leaves manifest) → l.path ≡ key → ¬ MayRoam l)
    → put_document client manifest (insert key v doc) if_match w
      ≡ put_document client manifest doc if_match w
unfolding put_document filter_user_scoped
put_document-insert client manifest doc if_match w key v kept =
    let p : String → Bool = contains (user_paths manifest) in
    elim (Bool-cases (p key)) [
      | inr e ↦ rw (keep-insert p key v doc e) refl
      | inl e ↦
          let (l, (m, (same, r))) = found_leaf key (iter_leaves manifest) e in
          absurd (kept l m same ((roams_iff l).0 r))
    ]
