-- ===== src/Config/Resolution/Precedence.antt =====
-- The resolver's layers in the order of their precedence (src/config/resolution/resolver.rs).
use cli_framework.Prelude.{
  String, ◌≡◌, refl, Bool, true, false, List, [], ◌∷◌, Option, none, some, Map, arith, or_else,
  if◌then◌else◌, ◌==◌,
}
use cli_framework.Prelude.Maps.{lookup, lookup-insert}
use mathlib.Core.Option
use cli_framework.Json.{Value}
use cli_framework.Config.Manifest.{FieldManifest, ConfigManifest, LeafField, iter_leaves}
use cli_framework.Config.Resolution.{
  Layer, default, recommended, config_file, environment, flags, builder_override, enforced,
  new_provenance, ResolutionInput, WarningReason, Resolved, default_value,
  server_tree_drop_reason_recommended, server_tree_drop_reason_enforced, resolve_leaf,
  resolve_leaves, resolve, server_layer, local_layer, value, provenance,
}

-- What a server tree contributes to a leaf: its entry, if no reason drops it.
abbrev pub accepted :
    (FieldManifest → Value → Option WarningReason) → LeafField → Map Value → Option Value
accepted drop_reason leaf tree = elim (lookup leaf.path tree) [
  | none ↦ none
  | some raw ↦ elim (drop_reason leaf.field raw) [ none ↦ some raw | some reason ↦ none ]
]

-- The first candidate that is present, highest precedence first.
abbrev pub first_present : List (Option Value × Layer) → Value → Value × Layer
first_present [] fallback = (fallback, default)
first_present ((none, layer) ∷ rest) fallback = first_present rest fallback
first_present ((some v, layer) ∷ rest) fallback = (v, layer)

abbrev pub candidates : ResolutionInput → LeafField → List (Option Value × Layer)
candidates input leaf =
    (accepted server_tree_drop_reason_enforced leaf input.enforced, enforced)
    ∷ (lookup leaf.path input.builder_overrides, builder_override)
    ∷ (lookup leaf.path input.flags, flags)
    ∷ (lookup leaf.path input.environment, environment)
    ∷ (lookup leaf.path input.config_file, config_file)
    ∷ (accepted server_tree_drop_reason_recommended leaf input.recommended, recommended)
    ∷ []

abbrev pub chosen : ResolutionInput → LeafField → Value × Layer
chosen input leaf = first_present (candidates input leaf) (default_value leaf.field)

resolve_leaf-eq-chosen :
    (input : ResolutionInput) (leaf : LeafField)
    → ((resolve_leaf input leaf).value ≡ (chosen input leaf).0)
      × ((resolve_leaf input leaf).layer ≡ (chosen input leaf).1)
unfolding resolve_leaf server_layer local_layer
resolve_leaf-eq-chosen input leaf = (ground arith, ground arith)

-- The leaf that decides a path: the last one declared with it.
abbrev pub last_leaf : String → List LeafField → Option LeafField
last_leaf wanted [] = none
last_leaf wanted (leaf ∷ leaves) =
    or_else (last_leaf wanted leaves) (if leaf.path == wanted then some leaf else none)

or_else-map {ℓ κ} :
    {A : Type ℓ} {B : Type κ} (f : A → B) (o : Option A) (b : Bool) (a : A) (v : Option B)
    → or_else (Option.map f o) (if b then some (f a) else v)
      ≡ or_else (Option.map f (or_else o (if b then some a else none))) v
or_else-map f none true a v = refl
or_else-map f none false a v = refl
or_else-map f (some x) b a v = refl

resolve_leaves-values :
    (input : ResolutionInput) (leaves : List LeafField) (r : Resolved) (wanted : String)
    → lookup wanted (resolve_leaves input leaves r).values
      ≡ or_else
          (Option.map (λ l. (chosen input l).0) (last_leaf wanted leaves))
          (lookup wanted r.values)
unfolding resolve_leaves
resolve_leaves-values input [] r wanted = refl
resolve_leaves-values input (leaf ∷ leaves) r wanted =
    rw (resolve_leaves-values input leaves, lookup-insert, (resolve_leaf-eq-chosen input leaf).0)
      (or_else-map (λ l. (chosen input l).0) (last_leaf wanted leaves) (leaf.path == wanted) leaf
        (lookup wanted r.values))

resolve_leaves-provenance :
    (input : ResolutionInput) (leaves : List LeafField) (r : Resolved) (wanted : String)
    → lookup wanted (resolve_leaves input leaves r).provenance
      ≡ or_else
          (Option.map (λ l. new_provenance (chosen input l).1) (last_leaf wanted leaves))
          (lookup wanted r.provenance)
unfolding resolve_leaves
resolve_leaves-provenance input [] r wanted = refl
resolve_leaves-provenance input (leaf ∷ leaves) r wanted =
    rw
      (resolve_leaves-provenance input leaves, lookup-insert, (resolve_leaf-eq-chosen input leaf).1)
      (or_else-map (λ l. new_provenance (chosen input l).1) (last_leaf wanted leaves)
        (leaf.path == wanted) leaf (lookup wanted r.provenance))

or_else-none {ℓ} : {A : Type ℓ} (o : Option A) → or_else o none ≡ o
or_else-none none = refl
or_else-none (some a) = refl

-- Every leaf path resolves to the present candidate of the highest precedence (enforced, then
-- builder overrides, flags, environment, config file, recommended, the default), with the
-- provenance of that layer; a path that no leaf declares resolves to nothing.
pub resolve-eq-chosen :
    (manifest : ConfigManifest) (input : ResolutionInput) (wanted : String)
    → (value (resolve manifest input) wanted
        ≡ Option.map (λ l. (chosen input l).0) (last_leaf wanted (iter_leaves manifest)))
      × (provenance (resolve manifest input) wanted
          ≡ Option.map
              (λ l. new_provenance (chosen input l).1)
              (last_leaf wanted (iter_leaves manifest)))
unfolding resolve value provenance lookup
resolve-eq-chosen manifest input wanted = (
  rw (resolve_leaves-values input (iter_leaves manifest)) (or_else-none _),
  rw (resolve_leaves-provenance input (iter_leaves manifest)) (or_else-none _),
)
