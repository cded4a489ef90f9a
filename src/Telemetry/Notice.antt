-- ===== src/Telemetry/Notice.antt =====
-- src/telemetry/notice.rs: whether the first-run notice is shown, and what it says. The debug form of
-- a text is the standard library's and is a parameter. `Surface` is of src/telemetry/probes.rs.
pub mod Laws
use Prim.Native.String
use cli_framework.Prelude.{
  String, Bool, true, false, not, ◌||◌, Option, none, some, is_some, if◌then◌else◌,
}
use cli_framework.Config.Resolution.{Layer, config_file}
use cli_framework.Telemetry.Axes.{
  Deployment, end_user, service, is_end_user, privacy_url, TelemetryLevel, off, eq_level, le_level,
  level_str,
}
use cli_framework.Telemetry.Policy.{TelemetryPolicy}

pub data Surface : Type 0 where
  cli chat mcp api : Surface

abbrev pub surface_str : Surface → String
surface_str cli = "cli"
surface_str chat = "chat"
surface_str mcp = "mcp"
surface_str api = "api"

-- `matches!(surface, Surface::Cli | Surface::Chat)`
abbrev pub is_human : Surface → Bool
is_human cli = true
is_human chat = true
is_human mcp = false
is_human api = false

-- `policy.level_source == Layer::ConfigFile`
abbrev pub is_config_file : Layer → Bool
is_config_file config_file = true
is_config_file _ = false

pub data SkipReason : Type 0 where
  already_shown not_interactive not_a_human_surface service_deployment : SkipReason
  kill_switch configured_locally : SkipReason

pub data NoticeDecision : Type 0 where
  show : (message : String) → (announced_level : TelemetryLevel) → NoticeDecision
  skip : SkipReason → NoticeDecision

-- `Some(shown) if level <= shown`
abbrev pub announced : Option TelemetryLevel → TelemetryLevel → Bool
announced none level = false
announced (some shown) level = le_level level shown

infixr 66 ◌<>◌
abbrev ◌<>◌ : String → String → String
s <> t = String.◌++◌ s t

-- Who turned telemetry on.
abbrev policy_phrase : (String → String) → Option String → String
policy_phrase debug_form none = "an organisation policy"
policy_phrase debug_form (some name) = "policy " <> debug_form name

abbrev details : Option String → String
details none = ""
details (some url) = " Details: " <> url

unfoldable pub notice_text : (String → String) → TelemetryPolicy → String
notice_text debug_form policy =
    (if eq_level policy.level off
      then policy.app <> ": usage statistics are off.\nTurn them on with `" <> policy.app
        <> " telemetry set usage`; see what would be sent with `" <> policy.app
        <> " telemetry info`."
      else policy.app
        <> ": "
        <> policy_phrase debug_form policy.policy_name
        <> " turned on "
        <> level_str policy.level
        <> " telemetry"
        <> (if is_some policy.install_id then ", tagged with a random install id" else "")
        <> ".\nReview with `"
        <> policy.app
        <> " telemetry status`; opt out with `"
        <> policy.app
        <> " telemetry set off`.")
    <> details (privacy_url policy.deployment)

unfoldable pub notice_decision :
    (String → String) → TelemetryPolicy → Option TelemetryLevel → Surface → Bool → NoticeDecision
notice_decision debug_form policy notice_shown surface stderr_is_tty =
    if not (is_end_user policy.deployment)
    then skip service_deployment
    else if is_some policy.kill_switch
    then skip kill_switch
    else if not (is_human surface)
    then skip not_a_human_surface
    else if not stderr_is_tty
    then skip not_interactive
    else if eq_level policy.level off
    then (if is_some notice_shown
        then skip already_shown
        else show (notice_text debug_form policy) off)
    else if is_config_file policy.level_source
    then skip configured_locally
    else if announced notice_shown policy.level
    then skip already_shown
    else show (notice_text debug_form policy) policy.level
