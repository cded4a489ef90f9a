-- ===== src/Config/Service/MergePatch/Fields.antt =====
-- What each field of a patched document is (src/config/service/merge_patch.rs).
use cli_framework.Prelude.{
  String, ◌≡◌, refl, ap, ◌∙◌, subst, true, Option, none, some, Map, if◌then◌else◌, unwrap_or,
  Distinct, Bool-cases, inl, inr, ◌==◌, eq_iff,
}
use cli_framework.Prelude.Maps.{
  lookup, insert, remove, keys, lookup-insert, lookup-remove, lookup-none,
}
use cli_framework.Json
use cli_framework.Json.{entries-from_entries, Value, Entries, end, entry, entries, from_entries}
use cli_framework.Config.Service.MergePatch.{is_null, fields_of, merge_patch, merge_fields}

-- A field after the patch, by what the patch has for it and what the field was.
abbrev pub patched : Option Value → Option Value → Option Value
patched none old = old
patched (some value) old =
    if is_null value then none else some (merge_patch (unwrap_or old Json.null) value)

-- One round of the loop.
one_field :
    (fields : Map Value) (key : String) (value : Value) (rest : Entries)
    → merge_fields fields (entry key value rest) ≡ (
        if is_null value
        then merge_fields (remove key fields) rest
        else merge_fields
            (insert key (merge_patch (unwrap_or (lookup key fields) Json.null) value) fields)
            rest)
unfolding merge_patch
one_field fields key value rest = refl

no_field : (fields : Map Value) → merge_fields fields end ≡ fields
unfolding merge_patch
no_field fields = refl

lookup-merge_fields :
    (key : String) (fields : Map Value) (patch : Entries)
    → Distinct (keys (entries patch))
    → lookup key (merge_fields fields patch)
      ≡ patched (lookup key (entries patch)) (lookup key fields)
unfolding lookup
lookup-merge_fields key fields end d = ap (lookup key) (no_field fields)
lookup-merge_fields key fields (entry other value rest) (fresh, d) =
    let old = unwrap_or (lookup other fields) Json.null in
    let merged = merge_patch old value in
    let removed = lookup-merge_fields key (remove other fields) rest d in
    let inserted = lookup-merge_fields key (insert other merged fields) rest d in
    let gone : other == key ≡ true → lookup key (entries rest) ≡ none = λ e.
      subst (λ k. lookup k (entries rest) ≡ none) ((eq_iff other key).0 e)
        (lookup-none other (entries rest) fresh) in
    let step = one_field fields other value rest in
    elim (Bool-cases (is_null value)) [
      | inl n ↦
          let round : merge_fields fields (entry other value rest)
              ≡ merge_fields (remove other fields) rest =
            rw n at step in
          ap (lookup key) round ∙ removed ∙ elim (Bool-cases (other == key)) [
            | inl e ↦ rw (lookup-remove other key fields, lookup, e, gone e, n) refl
            | inr e ↦ rw (lookup-remove other key fields, lookup, e) refl
          ]
      | inr n ↦
          let round : merge_fields fields (entry other value rest)
              ≡ merge_fields (insert other merged fields) rest =
            rw n at step in
          ap (lookup key) round ∙ inserted ∙ elim (Bool-cases (other == key)) [
            | inl e ↦
                let same : unwrap_or (lookup other fields) Json.null
                    ≡ unwrap_or (lookup key fields) Json.null =
                  ap (λ k. unwrap_or (lookup k fields) Json.null) ((eq_iff other key).0 e) in
                rw (lookup-insert other key merged fields, lookup, e, gone e, n)
                  (ap (λ x. some (merge_patch x value)) same)
            | inr e ↦ rw (lookup-insert other key merged fields, lookup, e) refl
          ]
    ]

-- A field of the patched document is absent where the patch has null for it, what it was where the
-- patch has nothing for it, and otherwise the patch's value applied to what it was, or to null where
-- it was absent. The patch has no field twice.
pub lookup-merge_patch :
    (key : String) (target : Value) (patch : Entries)
    → Distinct (keys (entries patch))
    → lookup key (fields_of (merge_patch target (Json.object patch)))
      ≡ patched (lookup key (entries patch)) (lookup key (fields_of target))
unfolding merge_patch
lookup-merge_patch key target patch d =
    ap (lookup key) (entries-from_entries (merge_fields (fields_of target) patch))
    ∙ lookup-merge_fields key (fields_of target) patch d
