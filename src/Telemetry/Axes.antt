-- ===== src/Telemetry/Axes.antt =====
-- src/telemetry/axes.rs: the deployment, the telemetry level and the attribution.
use cli_framework.Prelude.{
  ℕ, String, Bool, true, false, Option, none, Result, ok, err, ltb, leb, if◌then◌else◌, ◌==◌,
}

pub record ParseAxisError : Type 0 where
  pub kind : String
  pub value : String
  pub expected : String

pub data Deployment : Type 0 where
  end_user : Option String → Deployment
  service : Deployment

-- `Deployment::default`
abbrev pub default_deployment : Deployment
default_deployment = end_user none

abbrev pub is_end_user : Deployment → Bool
is_end_user (end_user _) = true
is_end_user service = false

abbrev pub privacy_url : Deployment → Option String
privacy_url (end_user url) = url
privacy_url service = none

-- `Deployment::as_str`
abbrev pub deployment_str : Deployment → String
deployment_str (end_user _) = "end_user"
deployment_str service = "service"

pub data TelemetryLevel : Type 0 where
  off usage diagnostic debug : TelemetryLevel

-- The derived order: a level's place among the constructors.
abbrev pub rank : TelemetryLevel → ℕ
rank off = 0
rank usage = 1
rank diagnostic = 2
rank debug = 3

-- `a < b` and `a <= b`
abbrev pub lt_level : TelemetryLevel → TelemetryLevel → Bool
lt_level a b = ltb (rank a) (rank b)

abbrev pub le_level : TelemetryLevel → TelemetryLevel → Bool
le_level a b = leb (rank a) (rank b)

-- `a == b`
abbrev pub eq_level : TelemetryLevel → TelemetryLevel → Bool
eq_level off off = true
eq_level usage usage = true
eq_level diagnostic diagnostic = true
eq_level debug debug = true
eq_level _ _ = false

abbrev pub level_str : TelemetryLevel → String
level_str off = "off"
level_str usage = "usage"
level_str diagnostic = "diagnostic"
level_str debug = "debug"

-- `TelemetryLevel::from_str`
unfoldable pub parse_level : String → Result ParseAxisError TelemetryLevel
parse_level s =
    if s == "off"
    then ok off
    else if s == "usage"
    then ok usage
    else if s == "diagnostic"
    then ok diagnostic
    else if s == "debug"
    then ok debug
    else err
        record { kind = "telemetry level"; value = s; expected = "off, usage, diagnostic, debug" }

pub data Attribution : Type 0 where
  anonymous pseudonymous identified : Attribution

abbrev pub is_anonymous : Attribution → Bool
is_anonymous anonymous = true
is_anonymous _ = false

abbrev pub attribution_str : Attribution → String
attribution_str anonymous = "anonymous"
attribution_str pseudonymous = "pseudonymous"
attribution_str identified = "identified"

-- `Attribution::from_str`
unfoldable pub parse_attribution : String → Result ParseAxisError Attribution
parse_attribution s =
    if s == "anonymous"
    then ok anonymous
    else if s == "pseudonymous"
    then ok pseudonymous
    else if s == "identified"
    then ok identified
    else err
        record { kind = "attribution"; value = s; expected = "anonymous, pseudonymous, identified" }
