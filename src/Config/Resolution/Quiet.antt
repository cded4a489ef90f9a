-- ===== src/Config/Resolution/Quiet.antt =====
-- When the resolver warns of nothing (src/config/resolution/resolver.rs).
use cli_framework.Prelude.{
  String, ◌≡◌, refl, ◌∙◌, Bool, true, List, [], ◌∷◌, Option, none, some, Map, any, In, here, there,
  ◌==◌, Option-cases, inl, inr,
}
use cli_framework.Prelude.Maps.{lookup, keys}
use cli_framework.Json.{Value}
use cli_framework.Config.Manifest.{FieldManifest, ConfigManifest, LeafField, iter_leaves}
use cli_framework.Config.Resolution.{
  Layer, ResolutionInput, WarningReason, Resolved, Draft, server_tree_drop_reason_recommended,
  server_tree_drop_reason_enforced, server_layer, local_layer, resolve_leaf, resolve_leaves,
  unknown_keys, resolve,
}

-- Whether a leaf has the path.
abbrev pub any_path : String → List LeafField → Bool
any_path key leaves = any (λ l. l.path == key) leaves

-- No reason drops what the tree holds for the leaf.
abbrev pub IsClean : (FieldManifest → Value → Option WarningReason) → Map Value → LeafField → Type 0
IsClean drop_reason tree leaf =
    (raw : Value) → lookup leaf.path tree ≡ some raw → drop_reason leaf.field raw ≡ none

server_layer-IsClean :
    (tree : Map Value) (drop_reason : FieldManifest → Value → Option WarningReason) (layer : Layer)
    (leaf : LeafField) (d : Draft)
    → IsClean drop_reason tree leaf
    → (server_layer tree drop_reason layer leaf d).warnings ≡ d.warnings
unfolding server_layer
server_layer-IsClean tree drop_reason layer leaf d h = elim (Option-cases (lookup leaf.path tree)) [
  | inl e ↦ rw (e, server_layer)
  | inr (raw, e) ↦ rw (e, h raw e, server_layer)
]

local_layer-warnings :
    (tree : Map Value) (layer : Layer) (leaf : LeafField) (d : Draft)
    → (local_layer tree layer leaf d).warnings ≡ d.warnings
unfolding local_layer
local_layer-warnings tree layer leaf d = elim (Option-cases (lookup leaf.path tree)) [
  | inl e ↦ rw (e, local_layer)
  | inr (raw, e) ↦ rw (e, local_layer)
]

resolve_leaf-quiet :
    (input : ResolutionInput) (leaf : LeafField)
    → IsClean server_tree_drop_reason_recommended input.recommended leaf
    → IsClean server_tree_drop_reason_enforced input.enforced leaf
    → (resolve_leaf input leaf).warnings ≡ []
unfolding resolve_leaf
resolve_leaf-quiet input leaf r e =
    server_layer-IsClean input.enforced _ _ leaf _ e
    ∙ local_layer-warnings input.builder_overrides _ leaf _
    ∙ local_layer-warnings input.flags _ leaf _
    ∙ local_layer-warnings input.environment _ leaf _
    ∙ local_layer-warnings input.config_file _ leaf _
    ∙ server_layer-IsClean input.recommended _ _ leaf _ r

resolve_leaves-quiet :
    (input : ResolutionInput) (leaves : List LeafField) (r : Resolved)
    → ((leaf : LeafField)
        → In leaf leaves
        → IsClean server_tree_drop_reason_recommended input.recommended leaf
          × IsClean server_tree_drop_reason_enforced input.enforced leaf)
    → r.warnings ≡ []
    → (resolve_leaves input leaves r).warnings ≡ []
unfolding resolve_leaves
resolve_leaves-quiet input [] r clean h = h
resolve_leaves-quiet input (leaf ∷ leaves) r clean h =
    let (a, b) = clean leaf (here refl) in
    resolve_leaves-quiet input leaves _ (λ l m. clean l (there m))
      (rw (h, resolve_leaf-quiet input leaf a b) refl)

unknown_keys-quiet :
    (leaves : List LeafField) (names : List String)
    → ((key : String) → In key names → any_path key leaves ≡ true)
    → unknown_keys leaves names ≡ []
unfolding unknown_keys
unknown_keys-quiet leaves [] known = refl
unknown_keys-quiet leaves (k ∷ names) known =
    rw (known k (here refl)) (unknown_keys-quiet leaves names (λ key m. known key (there m)))

-- Trees whose keys all have a leaf, and whose entries no reason drops, resolve with no warning.
pub resolve-quiet :
    (manifest : ConfigManifest) (input : ResolutionInput)
    → ((leaf : LeafField)
        → In leaf (iter_leaves manifest)
        → IsClean server_tree_drop_reason_recommended input.recommended leaf
          × IsClean server_tree_drop_reason_enforced input.enforced leaf)
    → ((key : String)
        → In key (keys input.recommended)
        → any_path key (iter_leaves manifest) ≡ true)
    → ((key : String) → In key (keys input.enforced) → any_path key (iter_leaves manifest) ≡ true)
    → (resolve manifest input).warnings ≡ []
unfolding resolve
resolve-quiet manifest input clean known_r known_e =
    rw
      (
        unknown_keys-quiet (iter_leaves manifest) (keys input.recommended) known_r,
        unknown_keys-quiet (iter_leaves manifest) (keys input.enforced) known_e,
        resolve_leaves-quiet input (iter_leaves manifest)
            (record { values = []; provenance = []; warnings = [] }) clean refl,
      )
      refl
