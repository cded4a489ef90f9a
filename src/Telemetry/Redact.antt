-- ===== src/Telemetry/Redact.antt =====
-- src/telemetry/redact.rs: what may be recorded, by the key and the level. An attribute is a key and
-- a value.
pub mod Laws
use Prim.Native.String
use text.Mathlib.Text.{starts_with}
use cli_framework.Prelude.{
  ℕ, String, Bool, true, false, not, ◌&&◌, ◌||◌, List, [], ◌∷◌, Option, none, some, any, find, keep,
  contains, if◌then◌else◌, ◌==◌,
}
use cli_framework.Prelude.Text.{to_ascii_lowercase, contains_text, is_blank}
use cli_framework.Telemetry.Axes.{TelemetryLevel, off, usage, diagnostic, debug, eq_level, le_level}
use cli_framework.Telemetry.Policy.{TelemetryPolicy}

abbrev pub never_list : List String
never_list = "password" ∷ "secret" ∷ "token" ∷ "authorization" ∷ "cookie" ∷ "api_key" ∷ []

abbrev pub never_keys : List String
never_keys = "url.full" ∷ "url.path" ∷ "url.query" ∷ "host.name" ∷ "process.command_line" ∷ []

abbrev pub never_list_exempt : List String
never_list_exempt = "cli.usage_error.token" ∷ "secrets.backend" ∷ "secrets.op" ∷ []

abbrev pub metric_label_allowlist : List String
metric_label_allowlist =
    "command" ∷ "surface" ∷ "status" ∷ "kind" ∷ "feature" ∷ "check" ∷ "severity" ∷ "tool" ∷ "plugin"
    ∷ "http.route" ∷ "http.request.method" ∷ "http.response.status_code" ∷ []

abbrev pub probe_attr_key : String
probe_attr_key = "cli.probe"

abbrev pub framework_prefixes : List String
framework_prefixes =
    "cli." ∷ "http." ∷ "mcp." ∷ "otel." ∷ "exception." ∷ "panic." ∷ "error." ∷ "session."
    ∷ "service." ∷ "telemetry." ∷ "url." ∷ "rpc." ∷ "server." ∷ "process." ∷ "config." ∷ "secrets."
    ∷ []

abbrev pub framework_bare_keys : List String
framework_bare_keys =
    "command" ∷ "surface" ∷ "status" ∷ "kind" ∷ "feature" ∷ "check" ∷ "severity" ∷ "tool" ∷ "plugin"
    ∷ "duration_ms" ∷ []

abbrev pub elevated : List (String × TelemetryLevel)
elevated =
    ("exception.message", debug)
    ∷ ("exception.stacktrace", debug)
    ∷ ("panic.message", debug)
    ∷ ("cli.command.arg_values", debug)
    ∷ ("cli.usage_error.token", debug)
    ∷ ("error.type", diagnostic)
    ∷ ("cli.command.arg_names", diagnostic)
    ∷ ("cli.command.arg_count", diagnostic)
    ∷ ("cli.command.args", diagnostic)
    ∷ ("server.address", diagnostic)
    ∷ ("http.client.server_address", diagnostic)
    ∷ []

unfoldable pub is_never_listed : String → List String → Bool
is_never_listed key extra =
    let lowered = to_ascii_lowercase key in
    if contains never_keys lowered
    then true
    else if any (λ f. contains_text (to_ascii_lowercase f) lowered)
        (keep (λ f. not (is_blank f)) extra)
    then true
    else if contains never_list_exempt key
    then false
    else any (λ f. contains_text f lowered) never_list

-- `find(..).map(|(_, l)| *l).unwrap_or(Usage)`
abbrev pub level_in : List (String × TelemetryLevel) → String → TelemetryLevel
level_in [] key = usage
level_in ((k, l) ∷ table) key = if k == key then l else level_in table key

unfoldable pub attribute_min_level : String → TelemetryLevel
attribute_min_level key =
    if starts_with key "cli.command.arg_values." then debug else level_in elevated key

unfoldable pub metric_label_is_allowed : String → Bool
metric_label_is_allowed key = contains metric_label_allowlist key

-- The values of attributes, of which the code reads the texts alone.
pub data AttributeValue (Other : Type 0) : Type 0 where
  string : String → AttributeValue Other
  other : Other → AttributeValue Other

pub record KeyValue (Other : Type 0) : Type 0 where
  pub key : String
  pub value : AttributeValue Other

abbrev pub text_of : {Other : Type 0} → AttributeValue Other → Option String
text_of (string s) = some s
text_of (other _) = none

unfoldable pub probe_of : {Other : Type 0} → List (KeyValue Other) → Option String
probe_of attrs = elim (find (λ kv. kv.key == probe_attr_key) attrs) [
  | some kv ↦ text_of kv.value
  | none ↦ none
]

pub record RedactionRules : Type 0 where
  pub level : TelemetryLevel
  pub app_attr_allowlist : List String
  pub extra_never : List String

unfoldable pub from_policy : TelemetryPolicy → RedactionRules
from_policy policy = record {
  level = policy.level;
  app_attr_allowlist = policy.app_attr_allowlist;
  extra_never = policy.extra_never;
}

unfoldable pub is_framework_key : String → Bool
is_framework_key key =
    any (λ p. starts_with key p) framework_prefixes || contains framework_bare_keys key

unfoldable pub keeps_attribute : RedactionRules → String → Bool
keeps_attribute rules key =
    if is_never_listed key rules.extra_never
    then false
    else if eq_level rules.level off
    then false
    else if not (is_framework_key key) && not (contains rules.app_attr_allowlist key)
    then false
    else le_level (attribute_min_level key) rules.level

unfoldable pub retain_attributes :
    {Other : Type 0} → RedactionRules → List (KeyValue Other) → List (KeyValue Other)
retain_attributes rules attrs = keep (λ kv. keeps_attribute rules kv.key) attrs
