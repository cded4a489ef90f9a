-- ===== src/Telemetry/Policy/Level.antt =====
-- The level that a process resolves (src/telemetry/policy.rs).
use cli_framework.Prelude.{
  ◌≡◌, refl, ap, ◌∙◌, not, String, Bool, true, false, Option, none, some, is_some, or_else,
  unwrap_or, min, if◌then◌else◌, arith,
}
use cli_framework.Config.Resolution.{Layer}
use cli_framework.Telemetry.Axes.{TelemetryLevel, off, diagnostic, rank, is_end_user, lt_level}
use cli_framework.Telemetry.Policy.{
  TelemetryInputs, LayeredLevel, fold_layers, resolve_level, resolve_policy,
}

-- What a person or an organisation has chosen: the settings file over the recommendation.
abbrev pub chosen : LayeredLevel → Option TelemetryLevel
chosen layers = or_else layers.config_file layers.recommended

-- What this run asks for: the builder over the environment.
abbrev pub asked : LayeredLevel → Option TelemetryLevel
asked layers = or_else layers.builder_override layers.environment

fold_layers_lem :
    (start : TelemetryLevel) (layers : LayeredLevel) (clamped : Bool)
    → (fold_layers start layers clamped).0 ≡ (
        if clamped
        then unwrap_or (chosen layers) start
        else unwrap_or (or_else (asked layers) (chosen layers)) start)
unfolding fold_layers
fold_layers_lem start layers clamped = ground arith

-- The lower of two resolutions.
lower :
    (restricted full : TelemetryLevel × Layer)
    → rank (if lt_level (restricted.0) (full.0) then restricted else full).0
      ≡ min (rank (restricted.0)) (rank (full.0))
lower restricted full = ground arith

defaults :
    (endpoint : Option String)
    → (if not (is_some endpoint) then off else diagnostic)
      ≡ (if is_some endpoint then diagnostic else off)
defaults none = refl
defaults (some _) = refl

-- Without a kill switch, an end-user install has the lower of two levels: what was chosen (off, if
-- nothing was), and what this run asks for over it. The environment and the builder can so lower
-- the level but not raise it.
pub resolve_policy-end_user :
    (inputs : TelemetryInputs)
    → inputs.kill_switch ≡ none
    → is_end_user inputs.deployment ≡ true
    → rank (resolve_policy inputs).level
      ≡ min
          (rank (unwrap_or (chosen inputs.level) off))
          (rank (unwrap_or (or_else (asked inputs.level) (chosen inputs.level)) off))
unfolding resolve_policy resolve_level
resolve_policy-end_user inputs k d =
    let full = fold_layers_lem off inputs.level false in
    let restricted = fold_layers_lem off inputs.level true in
    rw (resolve_level, k, d)
      (lower (fold_layers off inputs.level true) (fold_layers off inputs.level false)
        ∙ ap (λ l. min (rank l) (rank (fold_layers off inputs.level false).0)) restricted
        ∙ ap (λ l. min (rank (unwrap_or (chosen inputs.level) off)) (rank l)) full)

-- Without a kill switch, a service has the level that this run asks for, or else the chosen one, or
-- else `diagnostic` with an endpoint and `off` without.
pub resolve_policy-service :
    (inputs : TelemetryInputs)
    → inputs.kill_switch ≡ none
    → is_end_user inputs.deployment ≡ false
    → (resolve_policy inputs).level
      ≡ unwrap_or
          (or_else (asked inputs.level) (chosen inputs.level))
          (if is_some inputs.endpoint then diagnostic else off)
unfolding resolve_policy resolve_level
resolve_policy-service inputs k d =
    rw (resolve_level, k, d)
      (fold_layers_lem _ inputs.level false
        ∙ ap (unwrap_or (or_else (asked inputs.level) (chosen inputs.level)))
            (defaults inputs.endpoint))
