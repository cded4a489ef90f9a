-- ===== src/Security/Risk.antt =====
-- src/security/command_risk.rs and src/security/risk_enforcer.rs. The check before a command reads
-- the environment and asks whether the terminal is interactive: `Surroundings` is what it finds.
-- What it logs is not modelled.
pub mod Laws
use cli_framework.Prelude.{
  [], String, Bool, true, false, not, ◌&&◌, ◌||◌, Option, none, some, Map, Result, ok, err,
  if◌then◌else◌, ◌==◌,
}
use cli_framework.Prelude.Maps.{lookup}

pub data CommandRiskTier : Type 0 where
  safe sensitive destructive : CommandRiskTier

pub record CommandRiskPolicy : Type 0 where
  pub tiers : Map CommandRiskTier
  pub default_tier : CommandRiskTier

abbrev pub default_policy : CommandRiskPolicy
default_policy = record { tiers = []; default_tier = safe }

-- The rule for a category, if there is one.
unfoldable pub category_tier : Option String → Option CommandRiskTier
category_tier none = none
category_tier (some category) =
    if category == "deployment" || category == "admin" || category == "destructive"
    then some destructive
    else if category == "data" || category == "config"
    then some sensitive
    else none

unfoldable pub classify : CommandRiskPolicy → String → Option String → CommandRiskTier
classify policy command_id category = elim (lookup command_id policy.tiers) [
  | some tier ↦ tier
  | none ↦ elim (category_tier category) [ some tier ↦ tier | none ↦ policy.default_tier ]
]

pub data PrefightError : Type 0 where
  sensitive_needs_confirmation : PrefightError
  destructive_env_gated : PrefightError
  destructive_needs_interactive : PrefightError

-- `ALLOW_DESTRUCTIVE_COMMANDS`, if it is set to a text, and whether the terminal is interactive.
pub record Surroundings : Type 0 where
  pub allow_destructive : Option String
  pub is_interactive : Bool

unfoldable pub env_allowed : Surroundings → Bool
env_allowed around = elim around.allow_destructive [
  | some setting ↦ setting == "1" || setting == "true"
  | none ↦ false
]

unfoldable pub enforce_preflight :
    Surroundings
    → CommandRiskPolicy
    → String
    → Option String
    → Bool
    → Result PrefightError (Unit {0})
enforce_preflight around policy command_id category assume_yes =
    elim (classify policy command_id category) [
      | safe ↦ ok tt
      | sensitive ↦
          if not around.is_interactive && not assume_yes
          then err sensitive_needs_confirmation
          else ok tt
      | destructive ↦
          if not (env_allowed around)
          then err destructive_env_gated
          else if not around.is_interactive
          then err destructive_needs_interactive
          else ok tt
    ]
