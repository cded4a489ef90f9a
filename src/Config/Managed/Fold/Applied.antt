-- ===== src/Config/Managed/Fold/Applied.antt =====
-- What a policy makes of the local configuration (src/config/managed/mod.rs): the resolver's values,
-- each in its place.
use Prim.Native.String.{compare}
use cli_framework.Prelude.{
  ◌≡◌, refl, sym, ap, ◌∙◌, subst, String, false, List, [], ◌∷◌, Option, none, some, Map, Distinct,
  Option-cases, Bool-cases, inl, inr, ◌==◌, or_else, some-inj, map,
}
use cli_framework.Prelude.KeyOrder.{Ascending, insert-Ascending, Ascending-Distinct, ordering-cases}
use cli_framework.Prelude.Maps.{lookup, insert, insert_all, keys, lookup-insert_all}
use cli_framework.Json
use cli_framework.Json.{Value, Entries, entries, entries-from_entries, from_entries}
use cli_framework.Config.Manifest.{
  ConfigManifest, FieldKind, FieldManifest, FieldManifests, field, nil, cons, section, join_path,
}
use cli_framework.Config.Resolution
use cli_framework.Config.Resolution.{ResolutionInput, ResolvedEntry, Resolved, resolve, value}
use cli_framework.Config.Resolution.Entries.{entries-values, resolve-Ascending}
use cli_framework.Config.Managed.Flatten.{
  flatten_to_paths, insert_found, unflatten_fields, unflatten_field, unflatten_kind,
  unflatten_from_paths,
}
use cli_framework.Config.Managed.Fold.{
  is_object, insert_entries, merge_json_objects, fold_into_json,
}
use cli_framework.Config.Managed.Fold.Merged.{
  value_at, IsDistinct, AreDistinct, merge_json_objects-leaf,
}
use cli_framework.Config.Managed.Fold.Placed.{IsLeaf, AreApart, value_at-unflatten_from_paths}

insert_entries-insert_all :
    (es : List ResolvedEntry) (flat : Map Value)
    → insert_entries es flat ≡ insert_all (map (λ e. (e.path, e.value)) es) flat
unfolding insert_all
insert_entries-insert_all [] flat = refl
insert_entries-insert_all (e ∷ es) flat = insert_entries-insert_all es (insert e.path e.value flat)

-- The flat map has what the resolver resolves.
lookup-insert_entries :
    (manifest : ConfigManifest) (input : ResolutionInput) (es : List ResolvedEntry) (path : String)
    → Resolution.entries (resolve manifest input) ≡ some es
    → lookup path (insert_entries es []) ≡ value (resolve manifest input) path
unfolding value lookup
lookup-insert_entries manifest input es path h =
    let values : Map Value = (resolve manifest input).values in
    ap (lookup path) (
      insert_entries-insert_all es []
      ∙ ap (λ m. insert_all m []) (entries-values (resolve manifest input) es h))
    ∙ lookup-insert_all path values []
        (Ascending-Distinct (keys values) (resolve-Ascending manifest input))
    ∙ last (lookup path values)
  where
    last : (o : Option Value) → or_else o none ≡ o
    last none = refl
    last (some v) = refl

-- The values of an object's fields hold no key twice.
abbrev pub AreClean : Map Value → Type 0
AreClean [] = Unit
AreClean ((k, v) ∷ m) = IsDistinct v × AreClean m

lookup-AreClean :
    (k : String) (v : Value) (m : Map Value) → AreClean m → lookup k m ≡ some v → IsDistinct v
unfolding lookup
lookup-AreClean k v [] c h = cc
lookup-AreClean k v ((j, w) ∷ m) (d, c) h = elim (Bool-cases (j == k)) [
  | inl e ↦ subst IsDistinct (some-inj (rw (lookup, e) at h)) d
  | inr e ↦ lookup-AreClean k v m c (rw (lookup, e) at h)
]

AreClean-insert :
    (k : String) (v : Value) (m : Map Value) → IsDistinct v → AreClean m → AreClean (insert k v m)
unfolding insert
AreClean-insert k v [] d c = (d, tt)
AreClean-insert k v ((j, w) ∷ m) d (e, c) = elim (ordering-cases (compare k j)) [
  | inl o ↦ rw (insert, o) (d, (e, c))
  | inr (inl o) ↦ rw (insert, o) (d, c)
  | inr (inr o) ↦ rw (insert, o) (e, AreClean-insert k v m d c)
]

AreDistinct-from_entries : (m : Map Value) → AreClean m → AreDistinct (from_entries m)
unfolding IsDistinct
AreDistinct-from_entries [] c = tt
AreDistinct-from_entries ((k, v) ∷ m) (d, c) = (d, AreDistinct-from_entries m c)

abbrev IsBuilt : Map Value → Type 0
IsBuilt m = Ascending (keys m) × AreClean m

IsDistinct-object : (m : Map Value) → IsBuilt m → IsDistinct (Json.object (from_entries m))
unfolding IsDistinct
IsDistinct-object m (a, c) = (
  subst (λ l. Distinct (keys l)) (sym (entries-from_entries m)) (Ascending-Distinct (keys m) a),
  AreDistinct-from_entries m c,
)

insert-IsBuilt :
    (k : String) (v : Value) (m : Map Value) → IsDistinct v → IsBuilt m → IsBuilt (insert k v m)
insert-IsBuilt k v m d (a, c) = (insert-Ascending k v m a, AreClean-insert k v m d c)

insert_found-IsBuilt :
    (k : String) (given : Option Value) (m : Map Value)
    → ((v : Value) → given ≡ some v → IsDistinct v)
    → IsBuilt m
    → IsBuilt (insert_found k given m)
insert_found-IsBuilt k none m d b = b
insert_found-IsBuilt k (some v) m d b = insert-IsBuilt k v m (d v refl) b

module _ (flat : Map Value)
    (clean : (path : String) (v : Value) → lookup path flat ≡ some v → IsDistinct v) where
  mutual
    unfolding unflatten_fields Ascending

    fields_built :
        (fields : FieldManifests) (prefix : String) (out : Map Value)
        → IsBuilt out
        → IsBuilt (unflatten_fields fields prefix flat out)
    fields_built nil prefix out b = b
    fields_built (cons f fields) prefix out b =
        fields_built fields prefix (unflatten_field f prefix flat out) (field_built f prefix out b)

    field_built :
        (f : FieldManifest) (prefix : String) (out : Map Value)
        → IsBuilt out
        → IsBuilt (unflatten_field f prefix flat out)
    field_built (field key k a) prefix out b = kind_built k key (join_path prefix key) out b

    kind_built :
        (k : FieldKind) (key at : String) (out : Map Value)
        → IsBuilt out
        → IsBuilt (unflatten_kind k key at flat out)
    kind_built (section fields) key at out b =
        insert-IsBuilt key _ out (IsDistinct-object _ (fields_built fields at [] (tt, tt))) b
    kind_built FieldKind.bool key at out b = insert_found-IsBuilt key _ out (clean at) b
    kind_built FieldKind.int key at out b = insert_found-IsBuilt key _ out (clean at) b
    kind_built FieldKind.float key at out b = insert_found-IsBuilt key _ out (clean at) b
    kind_built FieldKind.str key at out b = insert_found-IsBuilt key _ out (clean at) b
    kind_built FieldKind.duration key at out b = insert_found-IsBuilt key _ out (clean at) b
    kind_built FieldKind.path key at out b = insert_found-IsBuilt key _ out (clean at) b
    kind_built FieldKind.url key at out b = insert_found-IsBuilt key _ out (clean at) b
    kind_built (FieldKind.enumeration values) key at out b =
        insert_found-IsBuilt key _ out (clean at) b
    kind_built (FieldKind.list item) key at out b = insert_found-IsBuilt key _ out (clean at) b

-- The layers of a fold: the local document, and the two trees of the policy.
abbrev pub fold_input : Value → Map Value → Map Value → ResolutionInput
fold_input current enforced recommended = record {
  recommended = recommended;
  config_file = flatten_to_paths current;
  environment = [];
  flags = [];
  builder_overrides = [];
  enforced = enforced;
}

-- The folded document has, at the keys that lead to a leaf of the manifest, the value that the
-- resolver resolves for the leaf's path from the local document and the policy, whatever the local
-- document has there. The value is no object, no value that is resolved holds a key twice, and no
-- section of the manifest has a key twice.
pub fold_into_json-value_at :
    (manifest : ConfigManifest) (local : Entries) (enforced recommended : Map Value) (key : String)
    (keys_after : List String) (path : String) (v folded : Value)
    → IsLeaf manifest.fields "" key keys_after path
    → AreApart manifest.fields
    → AreClean (resolve manifest (fold_input (Json.object local) enforced recommended)).values
    → is_object v ≡ false
    → value (resolve manifest (fold_input (Json.object local) enforced recommended)) path ≡ some v
    → fold_into_json manifest (Json.object local) enforced recommended ≡ some folded
    → value_at (key ∷ keys_after) folded ≡ some v
unfolding fold_into_json unflatten_from_paths Ascending value
fold_into_json-value_at manifest local enforced recommended key keys_after path v folded l apart
      clean plain resolved h =
    let input : ResolutionInput = fold_input (Json.object local) enforced recommended in
    elim (Option-cases (Resolution.entries (resolve manifest input))) [
      | inl e ↦ cc (rw (fold_into_json, e) at h)
      | inr (es, e) ↦
          let flat : Map Value = insert_entries es [] in
          let same : (p : String) → lookup p flat ≡ value (resolve manifest input) p =
            λ p. lookup-insert_entries manifest input es p e in
          let overlay : Map Value = unflatten_fields manifest.fields "" flat [] in
          let built : IsBuilt overlay =
            fields_built flat
              (λ p x found.
                lookup-AreClean p x (resolve manifest input).values clean (sym (same p) ∙ found))
              manifest.fields "" [] (tt, tt) in
          let answer : merge_json_objects (Json.object local) (Json.object (from_entries overlay))
              ≡ folded =
            some-inj (rw (fold_into_json, e) at h) in
          subst (λ doc. value_at (key ∷ keys_after) doc ≡ some v) answer
            (merge_json_objects-leaf local (from_entries overlay) (key ∷ keys_after) v
              (IsDistinct-object overlay built) plain
              (value_at-unflatten_from_paths manifest flat key keys_after path l apart
                ∙ same path
                ∙ resolved))
    ]
