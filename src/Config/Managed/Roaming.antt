-- ===== src/Config/Managed/Roaming.antt =====
-- src/config/managed/roaming_client.rs: the user's own document, read and written at the server. The
-- HTTP client and the parser of a body are parameters.
pub mod Shielded
use cli_framework.Prelude.{
  ℕ, String, Bool, true, false, not, ◌&&◌, ◌||◌, List, [], ◌∷◌, Option, none, some, Map, Result, ok,
  err, eqb, keep, map, contains, if◌then◌else◌,
}
use cli_framework.Json
use cli_framework.Json.{Value, from_entries}
use cli_framework.Config.Manifest.{
  Scope, user, machine, org, ConfigManifest, LeafField, iter_leaves, attributes,
}
use cli_framework.Config.Managed.Client.{
  Response, HttpError, auth_error, status_error, other_error, message_of,
}

pub record RoamingDocument : Type 0 where
  pub value : Map Value
  pub etag : Option String

pub data RoamingClientError : Type 0 where
  conflict : RoamingClientError
  request invalid_response : (message : String) → RoamingClientError

-- `l.field.scope == Scope::User`
abbrev pub is_user : Scope → Bool
is_user user = true
is_user machine = false
is_user org = false

abbrev pub roams : LeafField → Bool
roams l = let a = attributes l.field in is_user a.scope && not a.local_only && not a.secret

abbrev pub user_paths : ConfigManifest → List String
user_paths manifest = map (λ (l : LeafField). l.path) (keep roams (iter_leaves manifest))

unfoldable pub filter_user_scoped : ConfigManifest → Map Value → Map Value
filter_user_scoped manifest doc =
    keep (λ (e : String × Value). contains (user_paths manifest) e.0) doc

-- The authenticated client at the document's address.
pub record RoamingConfigClient (W : Type 0) : Type 0 where
  pub execute_get : W → Result HttpError Response × W
  pub execute_put : (if_match : String) → Value → W → Result HttpError Response × W
  pub map_from_slice : List ℕ → Result String (Map Value)
  pub unexpected_status : ℕ → String

unfoldable pub classify_put_error : HttpError → RoamingClientError
classify_put_error (auth_error message) = request message
classify_put_error (status_error status message) =
    if eqb status 412 then conflict else request message
classify_put_error (other_error message) = request message

module _ {W : Type 0} (client : RoamingConfigClient W) where
  -- `RoamingConfigClient::get`
  unfoldable pub get_document : W → Result RoamingClientError RoamingDocument × W
  get_document w =
      let (answer, after) = client.execute_get w in
      (
        elim answer [
          | err e ↦ err (request (message_of e))
          | ok resp ↦ elim resp.body [
            | err message ↦ err (invalid_response message)
            | ok [] ↦ ok (record { value = []; etag = resp.etag })
            | ok (b ∷ bytes) ↦ elim (client.map_from_slice (b ∷ bytes)) [
              | err message ↦ err (invalid_response message)
              | ok parsed ↦ ok (record { value = parsed; etag = resp.etag })
            ]
          ]
        ],
        after,
      )

  -- `RoamingConfigClient::put`
  unfoldable pub put_document :
      ConfigManifest → Map Value → String → W → Result RoamingClientError (Unit {0}) × W
  put_document manifest doc if_match w =
      let filtered = filter_user_scoped manifest doc in
      let (answer, after) = client.execute_put if_match (Json.object (from_entries filtered)) w in
      (
        elim answer [
          | err e ↦ err (classify_put_error e)
          | ok resp ↦
              if eqb resp.status 200 || eqb resp.status 204
              then ok tt
              else err (request (client.unexpected_status resp.status))
        ],
        after,
      )
