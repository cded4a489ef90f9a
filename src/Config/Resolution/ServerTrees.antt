-- ===== src/Config/Resolution/ServerTrees.antt =====
-- What a server's trees can and cannot do to the resolved values
-- (src/config/resolution/resolver.rs).
use cli_framework.Prelude.{
  String, ◌≡◌, refl, sym, subst, Bool-cases, ◌⊎◌, inl, inr, ◌↔◌, ◌≢◌, true, false, List, [], ◌∷◌,
  Option, none, some, Map, arith, any, In, here, there, In-append_left, In-append_right, ◌==◌,
  Option-cases,
}
use cli_framework.Prelude.Maps.{lookup, keys}
use cli_framework.Json.{Value}
use cli_framework.Config.Manifest.{
  FieldManifest, attributes, ConfigManifest, LeafField, iter_leaves,
}
use cli_framework.Config.Resolution.{
  Layer, enforced, new_provenance, ResolutionInput, WarningReason, Resolved,
  server_tree_drop_reason_recommended, server_tree_drop_reason_enforced, resolve, value, provenance,
  ResolutionWarning, unknown_key, unknown_keys, Draft, resolve_leaf, resolve_leaves, server_layer,
  local_layer,
}
use cli_framework.Config.Resolution.Precedence.{accepted, chosen, last_leaf, resolve-eq-chosen}

-- A field that no server tree may set: local only, not manageable, or secret.
abbrev pub IsShielded : FieldManifest → Type 0
IsShielded f =
    ((attributes f).local_only ≡ true)
    ⊎ (((attributes f).manageable ≡ false) ⊎ ((attributes f).secret ≡ true))

IsShielded-accepted :
    (leaf : LeafField) (r e : Map Value)
    → IsShielded leaf.field
    → (accepted server_tree_drop_reason_recommended leaf r ≡ none)
      × (accepted server_tree_drop_reason_enforced leaf e ≡ none)
unfolding server_tree_drop_reason_recommended server_tree_drop_reason_enforced
IsShielded-accepted leaf r e h = (ground arith, ground arith)

abbrev pub with_trees : ResolutionInput → Map Value → Map Value → ResolutionInput
with_trees input r e = record input { recommended = r; enforced = e }

chosen-IsShielded :
    (input : ResolutionInput) (r e : Map Value) (leaf : LeafField)
    → IsShielded leaf.field
    → chosen (with_trees input r e) leaf ≡ chosen input leaf
chosen-IsShielded input r e leaf h =
    let (a, b) = IsShielded-accepted leaf r e h in
    let (c, d) = IsShielded-accepted leaf input.recommended input.enforced h in rw (a, b, c, d)

-- Whatever the two server trees hold, they change neither the value nor the provenance of a path
-- whose field is local only, not manageable or secret.
pub resolve-IsShielded :
    (manifest : ConfigManifest) (input : ResolutionInput) (r e : Map Value) (leaf : LeafField)
    (wanted : String)
    → last_leaf wanted (iter_leaves manifest) ≡ some leaf
    → IsShielded leaf.field
    → (value (resolve manifest (with_trees input r e)) wanted
        ≡ value (resolve manifest input) wanted)
      × (provenance (resolve manifest (with_trees input r e)) wanted
          ≡ provenance (resolve manifest input) wanted)
resolve-IsShielded manifest input r e leaf wanted found h =
    let (v, p) = resolve-eq-chosen manifest (with_trees input r e) wanted in
    let (v', p') = resolve-eq-chosen manifest input wanted in
    let same = chosen-IsShielded input r e leaf h in
    (rw (v, v', found, same), rw (p, p', found, same))

unlocked :
    (input : ResolutionInput) (leaf : LeafField)
    → accepted server_tree_drop_reason_enforced leaf input.enforced ≡ none
    → (chosen input leaf).1 ≢ enforced
unlocked input leaf out e = ground arith

pub chosen-enforced :
    (input : ResolutionInput) (leaf : LeafField) (raw : Value)
    → lookup leaf.path input.enforced ≡ some raw
    → server_tree_drop_reason_enforced leaf.field raw ≡ none
    → (chosen input leaf).0 ≡ raw
chosen-enforced input leaf raw e h = ground arith

same_layer :
    {l : Layer}
    → some (new_provenance l) ≡ some (record { layer = enforced; locked = true })
    → l ≡ enforced
unfolding new_provenance
same_layer h = ground arith

-- A path is locked exactly when the enforced tree has a value for it that no reason drops, and
-- then it resolves to that value, whatever the other layers hold.
pub locked_iff :
    (manifest : ConfigManifest) (input : ResolutionInput) (leaf : LeafField) (wanted : String)
    → last_leaf wanted (iter_leaves manifest) ≡ some leaf
    → (provenance (resolve manifest input) wanted
        ≡ some (record { layer = enforced; locked = true }))
      ↔ ((raw : Value) × (accepted server_tree_drop_reason_enforced leaf input.enforced ≡ some raw)
          × (value (resolve manifest input) wanted ≡ some raw))
unfolding new_provenance
locked_iff manifest input leaf wanted found =
    let (v, p) = resolve-eq-chosen manifest input wanted in
    elim (Option-cases (accepted server_tree_drop_reason_enforced leaf input.enforced)) [
      | inl out ↦ (
        λ e. absurd (unlocked input leaf out (same_layer (rw (p, found) at e))),
        λ t. cc (out, t.1),
      )
      | inr (raw, taken) ↦ rw (v, p, found, taken) (λ _. (raw, refl, refl), λ _. refl)
    ]

-- How the stages of a leaf treat the warnings.
module _ (tree : Map Value) (reason_of : FieldManifest → Value → Option WarningReason)
    (layer : Layer) (leaf : LeafField) (d : Draft) (w : ResolutionWarning) where
  local_layer-In : In w d.warnings → In w (local_layer tree layer leaf d).warnings
  unfolding local_layer
  local_layer-In m = elim (Option-cases (lookup leaf.path tree)) [
    | inl e ↦ rw (e, local_layer) m
    | inr (raw, e) ↦ rw (e, local_layer) m
  ]

  server_layer-In : In w d.warnings → In w (server_layer tree reason_of layer leaf d).warnings
  unfolding server_layer
  server_layer-In m = elim (Option-cases (lookup leaf.path tree)) [
    | inl e ↦ rw (e, server_layer) m
    | inr (raw, e) ↦ elim (Option-cases (reason_of leaf.field raw)) [
      | inl k ↦ rw (e, k, server_layer) m
      | inr (r, k) ↦ rw (e, k, server_layer) (In-append_left _ m)
    ]
  ]

server_layer-dropped :
    (tree : Map Value) (reason_of : FieldManifest → Value → Option WarningReason) (layer : Layer)
    (leaf : LeafField) (d : Draft) (raw : Value) (reason : WarningReason)
    → lookup leaf.path tree ≡ some raw
    → reason_of leaf.field raw ≡ some reason
    → In
        (record { path = leaf.path; reason = reason })
        (server_layer tree reason_of layer leaf d).warnings
unfolding server_layer
server_layer-dropped tree reason_of layer leaf d raw reason a b =
    rw (a, b, server_layer) (In-append_right d.warnings (here refl))

-- A leaf's entry of one of the two trees that a reason drops.
abbrev pub IsDropped : ResolutionInput → LeafField → WarningReason → Type 0
IsDropped input leaf reason =
    (raw : Value) × (((lookup leaf.path input.recommended ≡ some raw)
        × (server_tree_drop_reason_recommended leaf.field raw ≡ some reason))
      ⊎ ((lookup leaf.path input.enforced ≡ some raw)
          × (server_tree_drop_reason_enforced leaf.field raw ≡ some reason)))

resolve_leaf-warns :
    (input : ResolutionInput) (leaf : LeafField) (reason : WarningReason)
    → IsDropped input leaf reason
    → In (record { path = leaf.path; reason = reason }) (resolve_leaf input leaf).warnings
unfolding resolve_leaf
resolve_leaf-warns input leaf reason (raw, inl (a, b)) = server_layer-In _ _ _ leaf _ _ (
    local_layer-In _ (λ _ _. none) _ leaf _ _
      (local_layer-In _ (λ _ _. none) _ leaf _ _
        (local_layer-In _ (λ _ _. none) _ leaf _ _
          (local_layer-In _ (λ _ _. none) _ leaf _ _
            (server_layer-dropped _ _ _ leaf _ raw reason a b)))))
resolve_leaf-warns input leaf reason (raw, inr (a, b)) =
    server_layer-dropped _ _ _ leaf _ raw reason a b

resolve_leaves-keeps :
    (input : ResolutionInput) (leaves : List LeafField) (r : Resolved) (w : ResolutionWarning)
    → In w r.warnings
    → In w (resolve_leaves input leaves r).warnings
unfolding resolve_leaves
resolve_leaves-keeps input [] r w m = m
resolve_leaves-keeps input (leaf ∷ leaves) r w m =
    resolve_leaves-keeps input leaves _ w (In-append_left _ m)

resolve_leaves-warns :
    (input : ResolutionInput) (leaves : List LeafField) (r : Resolved) (leaf : LeafField)
    (reason : WarningReason)
    → In leaf leaves
    → IsDropped input leaf reason
    → In (record { path = leaf.path; reason = reason }) (resolve_leaves input leaves r).warnings
unfolding resolve_leaves
resolve_leaves-warns input [] r leaf reason m h = elim m [ ]
resolve_leaves-warns input (l ∷ leaves) r leaf reason (here e) h =
    resolve_leaves-keeps input leaves _ _ (
      In-append_right r.warnings (
        subst
          (λ x. In (record { path = leaf.path; reason = reason }) (resolve_leaf input x).warnings)
          (sym e) (resolve_leaf-warns input leaf reason h)))
resolve_leaves-warns input (l ∷ leaves) r leaf reason (there m) h =
    resolve_leaves-warns input leaves _ leaf reason m h

unknown_keys-In :
    (leaves : List LeafField) (names : List String) (key : String)
    → In key names
    → any (λ l. l.path == key) leaves ≡ false
    → In (record { path = key; reason = unknown_key }) (unknown_keys leaves names)
unfolding unknown_keys
unknown_keys-In leaves [] key m h = elim m [ ]
unknown_keys-In leaves (k ∷ names) key (here e) h =
    subst (λ x. In (record { path = key; reason = unknown_key }) (unknown_keys leaves (x ∷ names)))
      (sym e) (rw h (here refl))
unknown_keys-In leaves (k ∷ names) key (there m) h =
    elim (Bool-cases (any (λ l. l.path == k) leaves)) [
      | inl e ↦ rw e (unknown_keys-In leaves names key m h)
      | inr e ↦ rw e (there (unknown_keys-In leaves names key m h))
    ]

-- Every entry of a server tree that a reason drops at a leaf leaves a warning with that path and
-- reason, and every key of a server tree that no leaf declares leaves one for an unknown key.
pub resolve-warns :
    (manifest : ConfigManifest) (input : ResolutionInput)
    → ((leaf : LeafField) (reason : WarningReason)
        → In leaf (iter_leaves manifest)
        → IsDropped input leaf reason
        → In (record { path = leaf.path; reason = reason }) (resolve manifest input).warnings)
      × ((key : String)
          → In key (keys input.recommended) ⊎ In key (keys input.enforced)
          → any (λ l. l.path == key) (iter_leaves manifest) ≡ false
          → In (record { path = key; reason = unknown_key }) (resolve manifest input).warnings)
unfolding resolve
resolve-warns manifest input = (
  λ leaf reason m h.
      In-append_left _
        (In-append_left _ (resolve_leaves-warns input (iter_leaves manifest) _ leaf reason m h)),
  λ key known h. elim known [
    | inl m ↦ In-append_left _ (
        In-append_right _ (unknown_keys-In (iter_leaves manifest) (keys input.recommended) key m h))
    | inr m ↦
        In-append_right _ (unknown_keys-In (iter_leaves manifest) (keys input.enforced) key m h)
  ],
)
