-- ===== src/Config/Managed/Fold/Merged.antt =====
-- What a document is after another is laid over it (src/config/managed/mod.rs).
use cli_framework.Prelude.{
  String, ◌≡◌, refl, ap, ◌∙◌, subst, true, false, List, [], ◌∷◌, Option, none, some, Map, Distinct,
  Bool-cases, Option-cases, inl, inr, ◌==◌, eq_iff, some-inj,
}
use cli_framework.Prelude.Maps.{lookup, insert, keys, lookup-insert, lookup-none}
use cli_framework.Json
use cli_framework.Json.{
  entries-from_entries, Value, Entries, Items, end, entry, entries, from_entries,
}
use cli_framework.Config.Managed.Fold.{
  is_object, both_objects, fields_of, merge_entries, merge_into, merge_json_objects,
}

-- A field after the overlay, by what the overlay has for it and what it was.
abbrev merged : Option Value → Option Value → Option Value
merged none old = old
merged (some overlay) old = some (merge_into old overlay)

one_entry :
    (base : Map Value) (key : String) (overlay : Value) (rest : Entries)
    → merge_entries base (entry key overlay rest)
      ≡ merge_entries (insert key (merge_into (lookup key base) overlay) base) rest
unfolding merge_entries
one_entry base key overlay rest = refl

no_entry : (base : Map Value) → merge_entries base end ≡ base
unfolding merge_entries
no_entry base = refl

lookup-merge_entries :
    (key : String) (base : Map Value) (overlay : Entries)
    → Distinct (keys (entries overlay))
    → lookup key (merge_entries base overlay)
      ≡ merged (lookup key (entries overlay)) (lookup key base)
unfolding lookup
lookup-merge_entries key base end d = ap (lookup key) (no_entry base)
lookup-merge_entries key base (entry other value rest) (fresh, d) =
    let new = merge_into (lookup other base) value in
    ap (lookup key) (one_entry base other value rest)
    ∙ lookup-merge_entries key (insert other new base) rest d
    ∙ elim (Bool-cases (other == key)) [
      | inl e ↦
          let same : other ≡ key = (eq_iff other key).0 e in
          let gone : lookup key (entries rest) ≡ none =
            subst (λ k. lookup k (entries rest) ≡ none) same
              (lookup-none other (entries rest) fresh) in
          rw (lookup-insert other key new base, lookup, e, gone)
            (ap (λ k. some (merge_into (lookup k base) value)) same)
      | inr e ↦ rw (lookup-insert other key new base, lookup, e) refl
    ]

-- The value below a path of keys.
unfoldable pub value_at : List String → Value → Option Value
value_at [] v = some v
value_at (key ∷ path) (Json.object fields) = elim (lookup key (entries fields)) [
  | none ↦ none
  | some v ↦ value_at path v
]
value_at (key ∷ path) _ = none

-- No object holds a key twice.
unfoldable mutual
  pub IsDistinct : Value → Type 0
  IsDistinct (Json.object fields) = Distinct (keys (entries fields)) × AreDistinct fields
  IsDistinct _ = Unit

  pub AreDistinct : Entries → Type 0
  AreDistinct end = Unit
  AreDistinct (entry key value rest) = IsDistinct value × AreDistinct rest

IsDistinct-below :
    (key : String) (fields : Entries) (v : Value)
    → AreDistinct fields
    → lookup key (entries fields) ≡ some v
    → IsDistinct v
unfolding lookup IsDistinct
IsDistinct-below key end v d h = cc
IsDistinct-below key (entry other value rest) v (here_too, d) h = elim (Bool-cases (other == key)) [
  | inl e ↦ subst IsDistinct (some-inj (rw (lookup, e) at h)) here_too
  | inr e ↦ IsDistinct-below key rest v d (rw (lookup, e) at h)
]

not_object :
    (leaf : Value) (fields : Entries) → is_object leaf ≡ false → Json.object fields ≡ leaf → ⊥
not_object leaf fields l h =
    let object_too : is_object leaf ≡ true = subst (λ v. is_object v ≡ true) h refl in cc

value_at-object :
    (key : String) (path : List String) (fields : Map Value) (v : Value)
    → lookup key fields ≡ some v
    → value_at (key ∷ path) (Json.object (from_entries fields)) ≡ value_at path v
unfolding value_at
value_at-object key path fields v h = rw (value_at, entries-from_entries fields, h) refl

laid_object :
    (key : String) (path : List String) (base : Option Value) (fields : Entries) (leaf : Value)
    → IsDistinct (Json.object fields)
    → ((old : Option Value) (v : Value)
        → IsDistinct v
        → value_at path v ≡ some leaf
        → value_at path (merge_into old v) ≡ some leaf)
    → value_at (key ∷ path) (Json.object fields) ≡ some leaf
    → value_at (key ∷ path) (Json.object (from_entries (merge_entries (fields_of base) fields)))
      ≡ some leaf
unfolding IsDistinct value_at
laid_object key path base fields leaf (d, deep) below h =
    elim (Option-cases (lookup key (entries fields))) [
      | inl k ↦ cc (rw (value_at, k) at h)
      | inr (v, k) ↦
          let found : lookup key (merge_entries (fields_of base) fields)
              ≡ some (merge_into (lookup key (fields_of base)) v) =
            lookup-merge_entries key (fields_of base) fields d ∙ rw k refl in
          value_at-object key path (merge_entries (fields_of base) fields) _ found
          ∙ below (lookup key (fields_of base)) v (IsDistinct-below key fields v deep k)
              (rw (value_at, k) at h)
    ]

laid_over :
    (path : List String) (base : Option Value) (overlay leaf : Value)
    → IsDistinct overlay
    → is_object leaf ≡ false
    → value_at path overlay ≡ some leaf
    → value_at path (merge_into base overlay) ≡ some leaf
unfolding value_at merge_into
laid_over [] base Json.null leaf d l h = h
laid_over [] base (Json.bool b) leaf d l h = h
laid_over [] base (Json.number n) leaf d l h = h
laid_over [] base (Json.string s) leaf d l h = h
laid_over [] base (Json.array vs) leaf d l h = h
laid_over [] base (Json.object fields) leaf d l h = absurd (not_object leaf fields l (some-inj h))
laid_over (key ∷ path) base (Json.object fields) leaf d l h =
    elim (Bool-cases (both_objects base (Json.object fields))) [
      | inr e ↦ rw e h
      | inl e ↦ rw e (
          laid_object key path base fields leaf d (λ old v d' h'. laid_over path old v leaf d' l h')
            h)
    ]
laid_over (key ∷ path) base Json.null leaf d l h = cc
laid_over (key ∷ path) base (Json.bool b) leaf d l h = cc
laid_over (key ∷ path) base (Json.number n) leaf d l h = cc
laid_over (key ∷ path) base (Json.string s) leaf d l h = cc
laid_over (key ∷ path) base (Json.array vs) leaf d l h = cc

-- A leaf of the overlay is there after it was laid over an object.
pub merge_json_objects-leaf :
    (base overlay : Entries) (path : List String) (leaf : Value)
    → IsDistinct (Json.object overlay)
    → is_object leaf ≡ false
    → value_at path (Json.object overlay) ≡ some leaf
    → value_at path (merge_json_objects (Json.object base) (Json.object overlay)) ≡ some leaf
unfolding merge_json_objects merge_into
merge_json_objects-leaf base overlay path leaf d l found =
    laid_over path (some (Json.object base)) (Json.object overlay) leaf d l found

-- After an object was laid over another one, a leaf that it has at a path of keys is there, whatever
-- the other one has, and a key that it does not have keeps the other's value. No object of the
-- overlay holds a key twice.
pub merge_json_objects-value_at :
    (base overlay : Entries) (path : List String) (key : String) (leaf : Value)
    → IsDistinct (Json.object overlay)
    → is_object leaf ≡ false
    → value_at path (Json.object overlay) ≡ some leaf
    → lookup key (entries overlay) ≡ none
    → (value_at path (merge_json_objects (Json.object base) (Json.object overlay)) ≡ some leaf)
      × (value_at (key ∷ []) (merge_json_objects (Json.object base) (Json.object overlay))
          ≡ value_at (key ∷ []) (Json.object base))
unfolding merge_json_objects value_at IsDistinct merge_into
merge_json_objects-value_at base overlay path key leaf d l found h = (
  merge_json_objects-leaf base overlay path leaf d l found,
  rw
      (
        value_at,
        entries-from_entries (merge_entries (entries base) overlay),
        lookup-merge_entries key (entries base) overlay d.0,
        h,
      )
      refl,
)
