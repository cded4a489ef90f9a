-- ===== src/Config/Managed/Flatten.antt =====
-- src/config/resolution/flatten.rs: a document as a map from dotted paths, and back along a manifest.
use cli_framework.Prelude.{String, [], Option, none, some, Map}
use cli_framework.Prelude.Maps.{lookup, insert}
use cli_framework.Json
use cli_framework.Json.{Value, Entries, end, entry, from_entries}
use cli_framework.Config.Manifest.{
  ConfigManifest, FieldKind, FieldManifest, FieldManifests, field, nil, cons, section, join_path,
}

unfoldable mutual
  -- The loop over an object's fields.
  pub flatten_into : Entries → String → Map Value → Map Value
  flatten_into end prefix out = out
  flatten_into (entry key value rest) prefix out =
      flatten_into rest prefix (flatten_value value (join_path prefix key) out)

  pub flatten_value : Value → String → Map Value → Map Value
  flatten_value (Json.object nested) at out = flatten_into nested at out
  flatten_value Json.null at out = insert at Json.null out
  flatten_value (Json.bool b) at out = insert at (Json.bool b) out
  flatten_value (Json.number n) at out = insert at (Json.number n) out
  flatten_value (Json.string s) at out = insert at (Json.string s) out
  flatten_value (Json.array vs) at out = insert at (Json.array vs) out

unfoldable pub flatten_to_paths : Value → Map Value
flatten_to_paths (Json.object fields) = flatten_into fields "" []
flatten_to_paths _ = []

-- `if let Some(value) = given { out.insert(key, value); }`
abbrev pub insert_found : String → Option Value → Map Value → Map Value
insert_found key none out = out
insert_found key (some value) out = insert key value out

unfoldable mutual
  pub unflatten_fields : FieldManifests → String → Map Value → Map Value → Map Value
  unflatten_fields nil prefix flat out = out
  unflatten_fields (cons f fields) prefix flat out =
      unflatten_fields fields prefix flat (unflatten_field f prefix flat out)

  pub unflatten_field : FieldManifest → String → Map Value → Map Value → Map Value
  unflatten_field (field key k a) prefix flat out =
      unflatten_kind k key (join_path prefix key) flat out

  pub unflatten_kind : FieldKind → String → String → Map Value → Map Value → Map Value
  unflatten_kind (section fields) key at flat out =
      insert key (Json.object (from_entries (unflatten_fields fields at flat []))) out
  unflatten_kind _ key at flat out = insert_found key (lookup at flat) out

unfoldable pub unflatten_from_paths : ConfigManifest → Map Value → Value
unflatten_from_paths manifest flat =
    Json.object (from_entries (unflatten_fields manifest.fields "" flat []))
