-- ===== src/Config/Service/MergePatch.antt =====
-- src/config/service/merge_patch.rs: a JSON merge patch (RFC 7386) applied to a document.
pub mod Fields
use cli_framework.Prelude.{
  String, Bool, true, false, List, [], ◌∷◌, Option, none, some, Map, if◌then◌else◌, unwrap_or,
}
use cli_framework.Prelude.Maps.{lookup, insert, remove}
use cli_framework.Json
use cli_framework.Json.{Value, Entries, end, entry, entries, from_entries}

abbrev pub is_null : Value → Bool
is_null Json.null = true
is_null _ = false

-- The target's fields, or none of it is not an object.
abbrev pub fields_of : Value → Map Value
fields_of (Json.object fields) = entries fields
fields_of _ = []

unfoldable mutual
  pub merge_patch : Value → Value → Value
  merge_patch target (Json.object patch) =
      Json.object (from_entries (merge_fields (fields_of target) patch))
  merge_patch target Json.null = Json.null
  merge_patch target (Json.bool b) = Json.bool b
  merge_patch target (Json.number n) = Json.number n
  merge_patch target (Json.string s) = Json.string s
  merge_patch target (Json.array vs) = Json.array vs

  -- The loop over the patch's fields.
  pub merge_fields : Map Value → Entries → Map Value
  merge_fields fields end = fields
  merge_fields fields (entry key value rest) =
      let merged = merge_patch (unwrap_or (lookup key fields) Json.null) value in
      if is_null value
      then merge_fields (remove key fields) rest
      else merge_fields (insert key merged fields) rest
