-- ===== src/Config/Manifest.antt =====
-- src/config/manifest/types.rs: the declared fields of an application's configuration.
use cli_framework.Prelude.{
  ℕ, String, Bool, List, [], ◌∷◌, ◌++◌, Option, none, some, find, if◌then◌else◌, ◌==◌,
}
use cli_framework.Json.{Value, Float}
use Prim.Native.String

pub data Scope : Type 0 where
  machine user org : Scope

pub record FieldConstraints : Type 0 where
  pub min : Option Float
  pub max : Option Float
  pub allowed_values : Option (List Value)

-- What a field declares beside its key and its kind.
pub record FieldAttributes : Type 0 where
  pub default : Option Value
  pub label : Option String
  pub description : Option String
  pub group : Option String
  pub scope : Scope
  pub platforms : List String
  pub secret : Bool
  pub local_only : Bool
  pub protected : Bool
  pub manageable : Bool
  pub enforceable : Bool
  pub restart_required : Bool
  pub constraints : Option FieldConstraints

mutual
  pub data FieldKind : Type 0 where
    bool int float str duration path url : FieldKind
    enumeration : (values : List String) → FieldKind
    list : (item : FieldKind) → FieldKind
    section : (fields : FieldManifests) → FieldKind

  pub data FieldManifest : Type 0 where
    field : (key : String) → FieldKind → FieldAttributes → FieldManifest

  pub data FieldManifests : Type 0 where
    nil : FieldManifests
    cons : FieldManifest → FieldManifests → FieldManifests

abbrev pub kind : FieldManifest → FieldKind
kind (field key k a) = k

abbrev pub attributes : FieldManifest → FieldAttributes
attributes (field key k a) = a

pub record ConfigManifest : Type 0 where
  pub manifest_schema_version : ℕ
  pub app : String
  pub fields : FieldManifests

abbrev pub manifest_schema_version : ℕ
manifest_schema_version = 1

unfoldable pub new : String → FieldManifests → ConfigManifest
new app fields = record {
  manifest_schema_version = manifest_schema_version;
  app = app;
  fields = fields;
}

pub record LeafField : Type 0 where
  pub path : String
  pub field : FieldManifest

-- A dotted path: the key alone at the root.
abbrev pub join_path : String → String → String
join_path prefix key = if prefix == "" then key else String.◌++◌ prefix (String.◌++◌ "." key)

unfoldable mutual
  pub collect_leaves : FieldManifest → String → List LeafField → List LeafField
  collect_leaves (field key k a) prefix out =
      collect_kind k (field key k a) (join_path prefix key) out

  pub collect_kind : FieldKind → FieldManifest → String → List LeafField → List LeafField
  collect_kind (section fields) f full_path out = collect_fields fields full_path out
  collect_kind _ f full_path out = out ++ record { path = full_path; field = f } ∷ []

  pub collect_fields : FieldManifests → String → List LeafField → List LeafField
  collect_fields nil prefix out = out
  collect_fields (cons f fs) prefix out = collect_fields fs prefix (collect_leaves f prefix out)

unfoldable pub iter_leaves : ConfigManifest → List LeafField
unfolding collect_leaves
iter_leaves m = collect_fields m.fields "" []

unfoldable pub leaf_by_path : ConfigManifest → String → Option FieldManifest
leaf_by_path m wanted = elim (find (λ l. l.path == wanted) (iter_leaves m)) [
  | none ↦ none
  | some l ↦ some l.field
]
