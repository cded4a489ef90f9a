-- ===== src/Config/Resolution.antt =====
-- src/config/resolution/{provenance,resolver}.rs: the layers are folded into one value and one
-- provenance for each leaf of the manifest; the enforced tree is a veto pass over the others.
pub mod Precedence
pub mod ServerTrees
pub mod Entries
pub mod Quiet
use cli_framework.Prelude.{
  String, Bool, true, false, not, ◌&&◌, List, [], ◌∷◌, ◌++◌, Option, none, some, Map, any, all,
  if◌then◌else◌, ◌==◌,
}
use cli_framework.Prelude.Maps.{lookup, insert, keys}
use cli_framework.Json
use cli_framework.Json.{Value, Number, unsigned, negative, items}
use cli_framework.Config.Manifest.{
  Scope, org, FieldKind, FieldManifest, kind, attributes, ConfigManifest, LeafField, iter_leaves,
}

pub data Layer : Type 0 where
  default recommended config_file environment flags builder_override enforced : Layer

pub record Provenance : Type 0 where
  pub layer : Layer
  pub locked : Bool

abbrev is_enforced : Layer → Bool
is_enforced enforced = true
is_enforced _ = false

unfoldable pub new_provenance : Layer → Provenance
new_provenance layer = record { layer = layer; locked = is_enforced layer }

pub record ResolutionInput : Type 0 where
  pub recommended : Map Value
  pub config_file : Map Value
  pub environment : Map Value
  pub flags : Map Value
  pub builder_overrides : Map Value
  pub enforced : Map Value

pub data WarningReason : Type 0 where
  local_only_in_server_tree not_manageable_in_server_tree secret_in_server_tree : WarningReason
  org_scope_in_recommended not_enforceable_in_enforced unknown_key type_mismatch : WarningReason

pub record ResolutionWarning : Type 0 where
  pub path : String
  pub reason : WarningReason

pub record Resolved : Type 0 where
  pub values : Map Value
  pub provenance : Map Provenance
  pub warnings : List ResolutionWarning

is_integer : Number → Bool
is_integer (unsigned n) = true
is_integer (negative n) = true
is_integer (Number.float x) = false

unfoldable pub value_matches_kind : Value → FieldKind → Bool
unfolding is_integer
value_matches_kind (Value.bool b) FieldKind.bool = true
value_matches_kind (Value.number n) FieldKind.int = is_integer n
value_matches_kind (Value.number n) FieldKind.duration = is_integer n
value_matches_kind (Value.number n) FieldKind.float = true
value_matches_kind (Value.string s) FieldKind.str = true
value_matches_kind (Value.string s) FieldKind.path = true
value_matches_kind (Value.string s) FieldKind.url = true
value_matches_kind (Value.string s) (FieldKind.enumeration values) = any (λ v. v == s) values
value_matches_kind (Value.array vs) (FieldKind.list item) =
    all (λ e. value_matches_kind e item) (items vs)
value_matches_kind (Value.object es) (FieldKind.section fields) = true
value_matches_kind _ _ = false

first_or_empty : List String → Value
first_or_empty [] = Value.string ""
first_or_empty (v ∷ vs) = Value.string v

unfoldable pub default_for_kind : FieldKind → Value
unfolding first_or_empty
default_for_kind FieldKind.bool = Value.bool false
default_for_kind FieldKind.int = Value.number (unsigned 0)
default_for_kind FieldKind.duration = Value.number (unsigned 0)
default_for_kind FieldKind.float = Value.number (Number.float 0)
default_for_kind FieldKind.str = Value.string ""
default_for_kind FieldKind.path = Value.string ""
default_for_kind FieldKind.url = Value.string ""
default_for_kind (FieldKind.enumeration values) = first_or_empty values
default_for_kind (FieldKind.list item) = Value.array Json.nil
default_for_kind (FieldKind.section fields) = Value.object Json.end

abbrev is_org : Scope → Bool
is_org org = true
is_org _ = false

unfoldable pub server_tree_drop_reason_recommended : FieldManifest → Value → Option WarningReason
server_tree_drop_reason_recommended f raw =
    let a = attributes f in
    if a.local_only
    then some local_only_in_server_tree
    else if not a.manageable
    then some not_manageable_in_server_tree
    else if a.secret
    then some secret_in_server_tree
    else if is_org a.scope
    then some org_scope_in_recommended
    else if not (value_matches_kind raw (kind f))
    then some type_mismatch
    else none

unfoldable pub server_tree_drop_reason_enforced : FieldManifest → Value → Option WarningReason
server_tree_drop_reason_enforced f raw =
    let a = attributes f in
    if a.local_only
    then some local_only_in_server_tree
    else if not a.manageable
    then some not_manageable_in_server_tree
    else if a.secret
    then some secret_in_server_tree
    else if not a.enforceable
    then some not_enforceable_in_enforced
    else if not (value_matches_kind raw (kind f))
    then some type_mismatch
    else none

-- The mutable variables of the loop's body for one leaf.
pub record Draft : Type 0 where
  pub value : Value
  pub layer : Layer
  pub warnings : List ResolutionWarning

-- A server tree's entry is applied, or dropped with a warning.
unfoldable pub server_layer :
    Map Value → (FieldManifest → Value → Option WarningReason) → Layer → LeafField → Draft → Draft
server_layer tree drop_reason layer leaf d = elim (lookup leaf.path tree) [
  | none ↦ d
  | some raw ↦ elim (drop_reason leaf.field raw) [
    | some reason ↦ record d {
      warnings = d.warnings ++ record { path = leaf.path; reason = reason } ∷ [];
    }
    | none ↦ record d { value = raw; layer = layer }
  ]
]

unfoldable pub local_layer : Map Value → Layer → LeafField → Draft → Draft
local_layer tree layer leaf d = elim (lookup leaf.path tree) [
  | none ↦ d
  | some raw ↦ record d { value = raw; layer = layer }
]

unfoldable pub default_value : FieldManifest → Value
default_value f = elim (attributes f).default [
  | none ↦ default_for_kind (kind f)
  | some value ↦ value
]

-- The body of the loop, up to what it stores.
unfoldable pub resolve_leaf : ResolutionInput → LeafField → Draft
resolve_leaf input leaf =
    let start : Draft = record {
      value = default_value leaf.field;
      layer = default;
      warnings = [];
    } in
    let d2 : Draft =
      server_layer input.recommended server_tree_drop_reason_recommended recommended leaf start in
    let d3 : Draft = local_layer input.config_file config_file leaf d2 in
    let d4 : Draft = local_layer input.environment environment leaf d3 in
    let d5 : Draft = local_layer input.flags flags leaf d4 in
    let d6 : Draft = local_layer input.builder_overrides builder_override leaf d5 in
    server_layer input.enforced server_tree_drop_reason_enforced enforced leaf d6

unfoldable pub resolve_leaves : ResolutionInput → List LeafField → Resolved → Resolved
resolve_leaves input [] r = r
resolve_leaves input (leaf ∷ leaves) r =
    let d = resolve_leaf input leaf in
    resolve_leaves input leaves (record {
      values = insert leaf.path d.value r.values;
      provenance = insert leaf.path (new_provenance d.layer) r.provenance;
      warnings = r.warnings ++ d.warnings;
    })

unknown_keys : List LeafField → List String → List ResolutionWarning
unknown_keys leaves [] = []
unknown_keys leaves (key ∷ rest) =
    if any (λ l. l.path == key) leaves
    then unknown_keys leaves rest
    else record { path = key; reason = unknown_key } ∷ unknown_keys leaves rest

unfoldable pub push_unknown_key_warnings :
    List LeafField → Map Value → List ResolutionWarning → List ResolutionWarning
unfolding unknown_keys
push_unknown_key_warnings leaves tree warnings = warnings ++ unknown_keys leaves (keys tree)

unfoldable pub resolve : ConfigManifest → ResolutionInput → Resolved
unfolding push_unknown_key_warnings
resolve manifest input =
    let leaves = iter_leaves manifest in
    let r = resolve_leaves input leaves (record { values = []; provenance = []; warnings = [] }) in
    record r {
      warnings =
          push_unknown_key_warnings leaves input.enforced
            (push_unknown_key_warnings leaves input.recommended r.warnings);
    }

-- `Resolved::value`
unfoldable pub value : Resolved → String → Option Value
value r wanted = lookup wanted r.values

-- `Resolved::provenance`
unfoldable pub provenance : Resolved → String → Option Provenance
provenance r wanted = lookup wanted r.provenance

unfoldable pub paths : Resolved → List String
paths r = keys r.values

eq_reason : WarningReason → WarningReason → Bool
eq_reason local_only_in_server_tree local_only_in_server_tree = true
eq_reason not_manageable_in_server_tree not_manageable_in_server_tree = true
eq_reason secret_in_server_tree secret_in_server_tree = true
eq_reason org_scope_in_recommended org_scope_in_recommended = true
eq_reason not_enforceable_in_enforced not_enforceable_in_enforced = true
eq_reason unknown_key unknown_key = true
eq_reason type_mismatch type_mismatch = true
eq_reason _ _ = false

unfoldable pub has_warning : Resolved → String → WarningReason → Bool
unfolding eq_reason
has_warning r wanted reason = any (λ w. w.path == wanted && eq_reason w.reason reason) r.warnings

pub record ResolvedEntry : Type 0 where
  pub path : String
  pub value : Value
  pub provenance : Provenance

entries_of : Map Value → Map Provenance → Option (List ResolvedEntry)
entries_of [] ps = some []
entries_of ((k, v) ∷ m) ps =
    let rest = entries_of m ps in
    elim (lookup k ps) [
      | none ↦ none
      | some p ↦ elim rest [
        | none ↦ none
        | some es ↦ some (record { path = k; value = v; provenance = p } ∷ es)
      ]
    ]

-- `none` is the panic of `expect` on a value that has no provenance.
unfoldable pub entries : Resolved → Option (List ResolvedEntry)
unfolding entries_of
entries r = entries_of r.values r.provenance
