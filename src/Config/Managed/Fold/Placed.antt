-- ===== src/Config/Managed/Fold/Placed.antt =====
-- Where a resolved value ends in the document that is built for a manifest
-- (src/config/resolution/flatten.rs).
use cli_framework.Prelude.{
  ◌≡◌, ◌⊎◌, refl, sym, ap, ◌∙◌, subst, String, Bool, true, false, ◌||◌, List, [], ◌∷◌, Option, none,
  some, Map, Bool-cases, inl, inr, ◌==◌, eq_iff, eq_refl, arith,
}
use cli_framework.Prelude.Maps.{lookup, insert, lookup-insert}
use cli_framework.Json
use cli_framework.Json.{Value, entries-from_entries, from_entries}
use cli_framework.Config.Manifest.{
  ConfigManifest, FieldKind, FieldManifest, FieldManifests, FieldAttributes, field, nil, cons,
  section, join_path,
}
use cli_framework.Config.Managed.Flatten.{
  insert_found, unflatten_fields, unflatten_field, unflatten_kind, unflatten_from_paths,
}
use cli_framework.Config.Managed.Fold.Merged.{value_at}

abbrev pub is_section : FieldKind → Bool
is_section (section _) = true
is_section _ = false

-- A field that is no section, by the keys that lead to it and by its dotted path.
pub data IsLeaf : FieldManifests → String → String → List String → String → Type 0 where
  leaf :
      (key : String) (k : FieldKind) (a : FieldAttributes) (fields : FieldManifests)
      (prefix : String)
      → is_section k ≡ false
      → IsLeaf (cons (field key k a) fields) prefix key [] (join_path prefix key)
  inside :
      (key : String) (nested : FieldManifests) (a : FieldAttributes) (fields : FieldManifests)
      (prefix inner : String) (keys : List String) (path : String)
      → IsLeaf nested (join_path prefix key) inner keys path
      → IsLeaf (cons (field key (section nested) a) fields) prefix key (inner ∷ keys) path
  later :
      (f : FieldManifest) (fields : FieldManifests) (prefix key : String) (keys : List String)
      (path : String)
      → IsLeaf fields prefix key keys path
      → IsLeaf (cons f fields) prefix key keys path

abbrev pub key_of : FieldManifest → String
key_of (field key k a) = key

unfoldable pub has_key : String → FieldManifests → Bool
has_key key nil = false
has_key key (cons f fields) = key_of f == key || has_key key fields

-- No section has a key twice.
unfoldable mutual
  pub AreApart : FieldManifests → Type 0
  AreApart nil = Unit
  AreApart (cons f fields) = (has_key (key_of f) fields ≡ false) × (IsApart f × AreApart fields)

  pub IsApart : FieldManifest → Type 0
  IsApart (field key k a) = IsApartBelow k

  pub IsApartBelow : FieldKind → Type 0
  IsApartBelow (section fields) = AreApart fields
  IsApartBelow _ = Unit

kind-cases :
    (k : FieldKind) → ((fields : FieldManifests) × (k ≡ section fields)) ⊎ (is_section k ≡ false)
kind-cases (section fields) = inl (fields, refl)
kind-cases FieldKind.bool = inr refl
kind-cases FieldKind.int = inr refl
kind-cases FieldKind.float = inr refl
kind-cases FieldKind.str = inr refl
kind-cases FieldKind.duration = inr refl
kind-cases FieldKind.path = inr refl
kind-cases FieldKind.url = inr refl
kind-cases (FieldKind.enumeration values) = inr refl
kind-cases (FieldKind.list item) = inr refl

unflatten_kind-leaf :
    (k : FieldKind) (key at : String) (flat out : Map Value)
    → is_section k ≡ false
    → unflatten_kind k key at flat out ≡ insert_found key (lookup at flat) out
unfolding unflatten_kind
unflatten_kind-leaf (section fields) key at flat out h = cc
unflatten_kind-leaf FieldKind.bool key at flat out h = refl
unflatten_kind-leaf FieldKind.int key at flat out h = refl
unflatten_kind-leaf FieldKind.float key at flat out h = refl
unflatten_kind-leaf FieldKind.str key at flat out h = refl
unflatten_kind-leaf FieldKind.duration key at flat out h = refl
unflatten_kind-leaf FieldKind.path key at flat out h = refl
unflatten_kind-leaf FieldKind.url key at flat out h = refl
unflatten_kind-leaf (FieldKind.enumeration values) key at flat out h = refl
unflatten_kind-leaf (FieldKind.list item) key at flat out h = refl

lookup-insert_found :
    (key other : String) (given : Option Value) (out : Map Value)
    → (key == other) ≡ false
    → lookup other (insert_found key given out) ≡ lookup other out
lookup-insert_found key other none out h = refl
lookup-insert_found key other (some v) out h = rw (lookup-insert key other v out, h) refl

found_there :
    (key : String) (given : Option Value) (out : Map Value)
    → lookup key out ≡ none
    → lookup key (insert_found key given out) ≡ given
found_there key none out h = h
found_there key (some v) out h = rw (lookup-insert key key v out, eq_refl key) refl

lookup-unflatten_kind :
    (k : FieldKind) (key at other : String) (flat out : Map Value)
    → (key == other) ≡ false
    → lookup other (unflatten_kind k key at flat out) ≡ lookup other out
unfolding unflatten_kind
lookup-unflatten_kind k key at other flat out h = elim (kind-cases k) [
  | inr l ↦
      ap (lookup other) (unflatten_kind-leaf k key at flat out l)
      ∙ lookup-insert_found key other (lookup at flat) out h
  | inl (fields, e) ↦
      subst (λ s. lookup other (unflatten_kind s key at flat out) ≡ lookup other out) (sym e)
        (rw
          (
            lookup-insert key other
                (Json.object (from_entries (unflatten_fields fields at flat []))) out,
            h,
          )
          refl)
]

lookup-unflatten_field :
    (f : FieldManifest) (prefix other : String) (flat out : Map Value)
    → (key_of f == other) ≡ false
    → lookup other (unflatten_field f prefix flat out) ≡ lookup other out
unfolding unflatten_field
lookup-unflatten_field (field key k a) prefix other flat out h =
    lookup-unflatten_kind k key (join_path prefix key) other flat out h

lookup-unflatten_fields :
    (fields : FieldManifests) (prefix other : String) (flat out : Map Value)
    → has_key other fields ≡ false
    → lookup other (unflatten_fields fields prefix flat out) ≡ lookup other out
unfolding unflatten_fields has_key
lookup-unflatten_fields nil prefix other flat out h = refl
lookup-unflatten_fields (cons f fields) prefix other flat out h =
    let apart : (key_of f == other) ≡ false = ground arith in
    let rest : has_key other fields ≡ false = ground arith in
    lookup-unflatten_fields fields prefix other flat (unflatten_field f prefix flat out) rest
    ∙ lookup-unflatten_field f prefix other flat out apart

has_key-IsLeaf :
    (fields : FieldManifests) (prefix key : String) (keys : List String) (path : String)
    → IsLeaf fields prefix key keys path
    → has_key key fields ≡ true
unfolding has_key
has_key-IsLeaf _ prefix key _ _ (leaf _ k a fields _ h) = rw (has_key, eq_refl key) refl
has_key-IsLeaf _ prefix key _ _ (inside _ nested a fields _ inner keys path l) =
    rw (has_key, eq_refl key) refl
has_key-IsLeaf _ prefix key _ _ (later f fields _ _ keys path l) =
    let below = has_key-IsLeaf fields prefix key keys path l in ground arith

-- The value below a key and the keys after it, of an object's fields.
abbrev below_fields : Map Value → String → List String → Option Value
below_fields fields key keys = elim (lookup key fields) [ none ↦ none | some v ↦ value_at keys v ]

value_at-below :
    (fields : Map Value) (key : String) (keys : List String)
    → value_at (key ∷ keys) (Json.object (from_entries fields)) ≡ below_fields fields key keys
unfolding value_at
value_at-below fields key keys = rw (value_at, entries-from_entries fields) refl

itself :
    (given : Option Value) (fields : Map Value) (key : String)
    → lookup key fields ≡ given
    → below_fields fields key [] ≡ given
unfolding value_at
itself none fields key h = rw (below_fields, h) refl
itself (some v) fields key h = rw (below_fields, h) refl

below_fields-object :
    (fields inner : Map Value) (key next : String) (keys : List String)
    → lookup key fields ≡ some (Json.object (from_entries inner))
    → below_fields fields key (next ∷ keys) ≡ below_fields inner next keys
below_fields-object fields inner key next keys h =
    rw (below_fields, h) (value_at-below inner next keys)

placed :
    (fields : FieldManifests) (prefix key : String) (keys : List String) (path : String)
    (flat out : Map Value)
    → IsLeaf fields prefix key keys path
    → AreApart fields
    → lookup key out ≡ none
    → below_fields (unflatten_fields fields prefix flat out) key keys ≡ lookup path flat
unfolding unflatten_fields unflatten_field unflatten_kind AreApart lookup
placed _ prefix key _ _ flat out (leaf _ k a fields _ h) (fresh, _) vacant =
    itself (lookup (join_path prefix key) flat) _ key (
      lookup-unflatten_fields fields prefix key flat
        (unflatten_kind k key (join_path prefix key) flat out) fresh
      ∙ ap (lookup key) (unflatten_kind-leaf k key (join_path prefix key) flat out h)
      ∙ found_there key (lookup (join_path prefix key) flat) out vacant)
placed _ prefix key _ path flat out (inside _ nested a fields _ inner keys _ l) (fresh, (apart, _))
      vacant =
    let below : Map Value = unflatten_fields nested (join_path prefix key) flat [] in
    below_fields-object _ below key inner keys (
      lookup-unflatten_fields fields prefix key flat
        (insert key (Json.object (from_entries below)) out) fresh
      ∙ rw (lookup-insert key key (Json.object (from_entries below)) out, eq_refl key) refl)
    ∙ placed nested (join_path prefix key) inner keys path flat [] l apart refl
placed _ prefix key keys path flat out (later f fields _ _ _ _ l) (fresh, (_, apart)) vacant =
    let after : Map Value = unflatten_field f prefix flat out in
    let there = has_key-IsLeaf fields prefix key keys path l in
    let other : (key_of f == key) ≡ false = elim (Bool-cases (key_of f == key)) [
      | inr e ↦ e
      | inl e ↦
          let same : key_of f ≡ key = (eq_iff (key_of f) key).0 e in
          cc (sym (subst (λ x. has_key x fields ≡ false) same fresh) ∙ there)
    ] in
    placed fields prefix key keys path flat after l apart
      (lookup-unflatten_field f prefix key flat out other ∙ vacant)

-- The document that is built for a manifest has, at the keys that lead to a leaf of it, what the flat
-- map has at the leaf's dotted path, and nothing there where that has nothing. No section of the
-- manifest has a key twice.
pub value_at-unflatten_from_paths :
    (manifest : ConfigManifest) (flat : Map Value) (key : String) (keys : List String)
    (path : String)
    → IsLeaf manifest.fields "" key keys path
    → AreApart manifest.fields
    → value_at (key ∷ keys) (unflatten_from_paths manifest flat) ≡ lookup path flat
unfolding unflatten_from_paths lookup
value_at-unflatten_from_paths manifest flat key keys path l apart =
    value_at-below (unflatten_fields manifest.fields "" flat []) key keys
    ∙ placed manifest.fields "" key keys path flat [] l apart refl
