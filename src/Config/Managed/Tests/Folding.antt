-- ===== src/Config/Managed/Tests/Folding.antt =====
-- A policy folded over small documents (src/config/managed/mod.rs, src/config/resolution/flatten.rs).
use cli_framework.Config.Managed.Client.{other_error}
use cli_framework.Config.Managed.Roaming.{RoamingConfigClient, put_document}
use cli_framework.Config.Managed.Roaming.Shielded.{MayRoam, put_document-insert}
use cli_framework.Prelude.{
  In, here, there, ap, ◌∙◌, ok, err, ℕ, ◌≡◌, refl, true, false, [], ◌∷◌, Option, none, some,
}
use cli_framework.Prelude.Maps.{lookup, insert}
use cli_framework.Json as Json
use cli_framework.Json.{Value, Entries, unsigned}
use cli_framework.Config.Manifest.{
  ConfigManifest, attributes, LeafField, iter_leaves, collect_fields, FieldAttributes, FieldKind,
  user, field, cons, section, manifest_schema_version, nil,
}
use cli_framework.Config.Managed.Flatten.{
  unflatten_from_paths, unflatten_fields, flatten_to_paths, flatten_into,
}
use cli_framework.Config.Resolution.{
  resolve, value, resolve_leaves, resolve_leaf, server_layer, local_layer, default_value,
  default_for_kind, server_tree_drop_reason_enforced, value_matches_kind, entries,
}
use cli_framework.Config.Managed.Fold.Applied.{fold_into_json-value_at}
use cli_framework.Config.Managed.Fold.Placed.{leaf, inside, later, has_key, AreApart}
use cli_framework.Config.Managed.Fold.{fold_into_json, merge_entries, merge_json_objects}
use cli_framework.Config.Managed.Fold.Merged.{value_at, IsDistinct}

abbrev number : ℕ → Value
number n = Json.number (unsigned n)

abbrev unset : FieldAttributes
unset = record {
  default = none;
  label = none;
  description = none;
  group = none;
  scope = user;
  platforms = [];
  secret = false;
  local_only = false;
  protected = false;
  manageable = true;
  enforceable = true;
  restart_required = false;
  constraints = none;
}

-- `net.port`, beside `name`.
abbrev network : ConfigManifest
network = record {
  manifest_schema_version = manifest_schema_version;
  app = "app";
  fields =
      cons (field "name" FieldKind.str unset)
        (cons (field "net" (section (cons (field "port" FieldKind.int unset) nil)) unset) nil);
}

-- A document with a port of its own, and a policy that enforces another.
abbrev own_port : Entries
own_port = Json.entry "net" (Json.object (Json.entry "port" (number 80) Json.end)) Json.end

abbrev folded : Option Value
folded = fold_into_json network (Json.object own_port) (("net.port", number 443) ∷ []) []

fold_into_json-value_at_example :
    value_at ("net" ∷ "port" ∷ []) (
      Json.object (
        Json.entry "name"
          (Json.string "")
          (Json.entry "net" (Json.object (Json.entry "port" (number 443) Json.end)) Json.end)))
    ≡ some (number 443)
unfolding has_key AreApart IsDistinct resolve value fold_into_json resolve_leaves iter_leaves insert
    resolve_leaf server_layer local_layer lookup flatten_to_paths flatten_into default_value
    default_for_kind server_tree_drop_reason_enforced value_matches_kind entries merge_json_objects
    unflatten_from_paths merge_entries unflatten_fields collect_fields
fold_into_json-value_at_example =
    fold_into_json-value_at network own_port (("net.port", number 443) ∷ []) [] "net" ("port" ∷ [])
      "net.port" (number 443)
      (Json.object (
        Json.entry "name" (Json.string "")
          (Json.entry "net" (Json.object (Json.entry "port" (number 443) Json.end)) Json.end)))
      (later (field "name" FieldKind.str unset) _ "" "net" ("port" ∷ []) "net.port" (
        inside "net" (cons (field "port" FieldKind.int unset) nil) unset nil "" "port" [] "net.port"
          (leaf "port" FieldKind.int unset nil "net" refl)))
      (refl, (tt, (refl, ((refl, (tt, tt)), tt)))) (tt, (tt, tt)) refl refl refl

abbrev token : FieldAttributes
token = record unset { secret = true }

-- `name`, and `token`, which is a secret.
abbrev account : ConfigManifest
account = record network {
  fields = cons (field "name" FieldKind.str unset) (cons (field "token" FieldKind.str token) nil);
}

-- The world is the document that was sent last.
abbrev roaming : RoamingConfigClient Value
roaming = record {
  execute_get = λ w. (err (other_error "unreachable"), w);
  execute_put = λ tag body w. (ok (record { status = 204; etag = none; body = ok [] }), body);
  map_from_slice = λ bytes. ok [];
  unexpected_status = λ status. "unexpected status";
}

token_stays : (l : LeafField) → In l (iter_leaves account) → l.path ≡ "token" → ¬ MayRoam l
unfolding iter_leaves collect_fields
token_stays l (here e) same may = cc (ap (λ (f : LeafField). f.path) e ∙ same)
token_stays l (there (here e)) same (_, (_, shown)) =
    cc (ap (λ (f : LeafField). (attributes f.field).secret) e ∙ shown)
token_stays l (there (there m)) same may = elim m [ ]

put_document-insert_example :
    put_document roaming account
      (insert "token" (Json.string "s3cret") (("name", Json.string "a") ∷ []))
      "v1"
      Json.null
    ≡ put_document roaming account (("name", Json.string "a") ∷ []) "v1" Json.null
put_document-insert_example =
    put_document-insert roaming account (("name", Json.string "a") ∷ []) "v1" Json.null "token"
      (Json.string "s3cret") token_stays
