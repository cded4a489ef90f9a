-- ===== src/Telemetry/Policy/Silence.antt =====
-- What a policy lets out of the process (src/telemetry/policy.rs).
use cli_framework.Prelude.{
  ◌≡◌, ◌⊎◌, ◌↔◌, refl, inl, inr, String, Bool, true, false, not, ◌&&◌, Option, none, some, is_some,
  contains, arith, Bool-cases, Option-cases, eq_iff, ap, ◌∙◌, &&-split, some-inj,
}
use cli_framework.Json.{lt_float, eq_float, le_float}
use cli_framework.Telemetry.Axes.{off, is_anonymous}
use cli_framework.Telemetry.Probe.{ProbeRegistry, effective, get}
use cli_framework.Telemetry.Policy.{
  KillSwitch, app_disabled, otel_sdk_disabled, do_not_track, env_var, detect_kill_switch, is_set_to,
  TelemetryInputs, TelemetryPolicy, resolve_policy, resolve_level, exports, probe_effective, one,
}

-- The value that sets off a kill switch.
abbrev pub trigger : KillSwitch → String
trigger app_disabled = "1"
trigger otel_sdk_disabled = "true"
trigger do_not_track = "1"

abbrev pub IsTriggered : String → (String → Option String) → KillSwitch → Type 0
IsTriggered app env switch = env (env_var switch app) ≡ some (trigger switch)

is_set_to_iff :
    (setting : Option String) (wanted : String)
    → (is_set_to setting wanted ≡ true) ↔ (setting ≡ some wanted)
is_set_to_iff none wanted = (λ h. cc, λ h. cc)
is_set_to_iff (some setting) wanted =
    (λ h. ap some ((eq_iff setting wanted).0 h), λ h. (eq_iff setting wanted).1 (some-inj h))

untriggered :
    (app : String) (env : String → Option String)
    → ¬ IsTriggered app env app_disabled
    → ¬ IsTriggered app env otel_sdk_disabled
    → ¬ IsTriggered app env do_not_track
    → (switch : KillSwitch) → ¬ IsTriggered app env switch
untriggered app env own sdk track app_disabled = own
untriggered app env own sdk track otel_sdk_disabled = sdk
untriggered app env own sdk track do_not_track = track

-- No kill switch is found exactly where none of the three variables has the value that sets it off.
pub detect_kill_switch-none_iff :
    (app : String) (env : String → Option String)
    → (detect_kill_switch app env ≡ none) ↔ ((switch : KillSwitch) → ¬ IsTriggered app env switch)
unfolding detect_kill_switch env_var
detect_kill_switch-none_iff app env =
    let own = is_set_to_iff (env (env_var app_disabled app)) "1" in
    let sdk = is_set_to_iff (env "OTEL_SDK_DISABLED") "true" in
    let track = is_set_to_iff (env "DO_NOT_TRACK") "1" in
    elim (Bool-cases (is_set_to (env (env_var app_disabled app)) "1")) [
      | inl a ↦ rw (detect_kill_switch, a) (λ h. cc, λ h. absurd (h app_disabled (own.0 a)))
      | inr a ↦ elim (Bool-cases (is_set_to (env "OTEL_SDK_DISABLED") "true")) [
        | inl b ↦
            rw (detect_kill_switch, a, b) (λ h. cc, λ h. absurd (h otel_sdk_disabled (sdk.0 b)))
        | inr b ↦ elim (Bool-cases (is_set_to (env "DO_NOT_TRACK") "1")) [
          | inl c ↦
              rw (detect_kill_switch, a, b, c) (λ h. cc, λ h. absurd (h do_not_track (track.0 c)))
          | inr c ↦
              rw (detect_kill_switch, a, b, c)
                (
                  λ _ switch.
                      untriggered app env (λ t. cc (own.1 t)) (λ t. cc (sdk.1 t))
                        (λ t. cc (track.1 t)) switch,
                  λ _. refl,
                )
        ]
      ]
    ]

pub exports_killed :
    (inputs : TelemetryInputs)
    → is_some inputs.kill_switch ≡ true
    → exports (resolve_policy inputs) ≡ false
unfolding resolve_policy exports
exports_killed inputs h = rw h refl

pub level_killed :
    (inputs : TelemetryInputs)
    → is_some inputs.kill_switch ≡ true
    → (resolve_policy inputs).level ≡ off
unfolding resolve_policy resolve_level
level_killed inputs h = rw (resolve_level, h) refl

pub exports-off : (policy : TelemetryPolicy) → policy.level ≡ off → exports policy ≡ false
unfolding exports
exports-off policy h = ground arith

effective-off :
    (registry : ProbeRegistry) (id : String) (enabled : String → Bool)
    → effective registry off id enabled ≡ false
unfolding effective
effective-off registry id enabled = elim (Option-cases (get registry id)) [
  | inl e ↦ rw (effective, e) refl
  | inr (spec, e) ↦ rw (effective, e) refl
]

-- A policy under a kill switch exports nothing and no probe of it may emit.
pub resolve_policy-kill_switch :
    (inputs : TelemetryInputs) (probe_id : String)
    → is_some inputs.kill_switch ≡ true
    → (exports (resolve_policy inputs) ≡ false)
      × (probe_effective (resolve_policy inputs) probe_id ≡ false)
unfolding resolve_policy resolve_level exports probe_effective effective
resolve_policy-kill_switch inputs probe_id h =
    let level : (resolve_level inputs).0 ≡ off = rw (resolve_level, h) refl in
    let enabled : String → Bool = λ id. not (contains inputs.disabled_probes id) in
    (
      rw h refl,
      ap (λ l. effective inputs.registry l probe_id enabled) level
          ∙ effective-off inputs.registry probe_id enabled,
    )

-- A policy names the install only where the store is available and the attribution is not anonymous,
-- and it samples a share above 0 and at most 1.
pub resolve_policy-IsBounded :
    (inputs : TelemetryInputs)
    → ((is_some (resolve_policy inputs).install_id ≡ false)
        ⊎ ((inputs.store_available ≡ true) × (is_anonymous inputs.attribution ≡ false)))
      × ((lt_float 0 (resolve_policy inputs).sample_ratio ≡ true)
          × (le_float (resolve_policy inputs).sample_ratio one ≡ true))
unfolding resolve_policy lt_float eq_float
resolve_policy-IsBounded inputs = (
  elim (Bool-cases (is_some (resolve_policy inputs).install_id)) [
    | inr e ↦ inl e
    | inl e ↦ inr (ground arith)
  ],
  elim (Bool-cases (lt_float 0 inputs.sample_ratio && le_float inputs.sample_ratio one)) [
    | inl e ↦ rw e (&&-split (lt_float 0 inputs.sample_ratio) (le_float inputs.sample_ratio one) e)
    | inr e ↦ rw e (refl, refl)
  ],
)
