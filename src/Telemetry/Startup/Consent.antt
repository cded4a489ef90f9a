-- ===== src/Telemetry/Startup/Consent.antt =====
-- An install on a person's machine sends nothing before somebody has chosen to (src/telemetry/startup.rs
-- and src/telemetry/policy.rs).
use cli_framework.Prelude.{
  ◌≡◌, refl, ap, ◌∙◌, String, Bool, true, false, [], ◌∷◌, Option, none, some, Bool-cases,
  Option-cases, Result-cases, inl, inr, or_else, unwrap_or, Map, arith, ◌==◌, ◌||◌, if◌then◌else◌,
}
use cli_framework.Prelude.Text.{strip_prefix, strip_suffix}
use cli_framework.Json.{Value}
use cli_framework.Config.Resolution.{Layer, config_file, environment}
use cli_framework.Telemetry.Axes.{
  TelemetryLevel, off, usage, diagnostic, debug, rank, is_end_user, parse_level, parse_attribution,
}
use cli_framework.Telemetry.Policy.{KillSwitch, TelemetryInputs, TelemetryPolicy, resolve_policy}
use cli_framework.Telemetry.Policy.Level.{resolve_policy-end_user, chosen}
use cli_framework.Telemetry.Policy.Silence.{level_killed, exports-off}
use cli_framework.Telemetry.Store.{
  TelemetryStore, TelemetrySettings, StoreState, settings, open_location,
}
use cli_framework.Telemetry.Env.{scan_environment}
use cli_framework.Telemetry.Startup.State.{
  StartupReport, StartupInputs, Process, Gathered, default_report,
}
use cli_framework.Telemetry.Startup.Fold.{
  fold_store, fold_environment, fold_key, set_level, set_attribution, set_endpoint, switch_probe,
  as_str, as_bool, filled,
}
use cli_framework.Telemetry.Startup.{
  gather, gather_from, continue_startup, decide, build, mint_install_id, wants_install_id,
  run_startup_recording, run_startup, switch_of,
}
use cli_framework.Telemetry.Startup.Quiet.{built_exports}

-- The second inputs have what the first have of the deployment, the choices and the kill switch.
abbrev Kept : TelemetryInputs → TelemetryInputs → Type 0
Kept a b =
    (b.deployment ≡ a.deployment)
    × (((b.level).recommended ≡ (a.level).recommended)
        × (((b.level).config_file ≡ (a.level).config_file) × (b.kill_switch ≡ a.kill_switch)))

Kept-refl : (a : TelemetryInputs) → Kept a a
Kept-refl a = (refl, (refl, (refl, refl)))

Kept-trans : (a b c : TelemetryInputs) → Kept a b → Kept b c → Kept a c
Kept-trans a b c (d, (r, (f, k))) (d', (r', (f', k'))) = (d' ∙ d, (r' ∙ r, (f' ∙ f, k' ∙ k)))

set_level-Kept : (o : Option String) (base : TelemetryInputs) → Kept base (set_level o base)
set_level-Kept none base = Kept-refl base
set_level-Kept (some s) base = elim (Result-cases (parse_level s)) [
  | inl (level, e) ↦ rw (set_level, e) (refl, (refl, (refl, refl)))
  | inr (why, e) ↦ rw (set_level, e) (refl, (refl, (refl, refl)))
]

set_attribution-Kept :
    (o : Option String) (base : TelemetryInputs) → Kept base (set_attribution o base)
set_attribution-Kept none base = Kept-refl base
set_attribution-Kept (some s) base = elim (Result-cases (parse_attribution s)) [
  | inl (level, e) ↦ rw (set_attribution, e) (refl, (refl, (refl, refl)))
  | inr (why, e) ↦ rw (set_attribution, e) (refl, (refl, (refl, refl)))
]

set_endpoint-Kept :
    (o : Option String) (layer : Layer) (base : TelemetryInputs)
    → Kept base (set_endpoint o layer base)
set_endpoint-Kept none layer base = Kept-refl base
set_endpoint-Kept (some e) layer base = (refl, (refl, (refl, refl)))

switch_probe-Kept :
    (probe : Option String) (enabled : Option Bool) (base : TelemetryInputs)
    → Kept base (switch_probe probe enabled base)
switch_probe-Kept (some probe) (some enabled) base = (refl, (refl, (refl, refl)))
switch_probe-Kept none enabled base = Kept-refl base
switch_probe-Kept (some probe) none base = Kept-refl base

Kept-if :
    (b : Bool) (base x y : TelemetryInputs)
    → Kept base x
    → Kept base y
    → Kept base (if b then x else y)
Kept-if true base x y h k = h
Kept-if false base x y h k = k

fold_key-Kept :
    (key : String) (given : Value) (base : TelemetryInputs) → Kept base (fold_key key given base)
unfolding fold_key
fold_key-Kept key given base =
    Kept-if (key == "level") base _ _ (set_level-Kept (as_str given) base) (
      Kept-if (key == "attribution") base _ _ (set_attribution-Kept (as_str given) base) (
        Kept-if (key == "endpoint") base _ _
          (set_endpoint-Kept (filled (as_str given)) environment base)
          (Kept-if (key == "install_id" || key == "notice_shown") base _ _ (Kept-refl base)
            (switch_probe-Kept (strip_suffix key ".enabled") (as_bool given) base))))

-- No variable of the environment changes what was chosen.
fold_environment-Kept :
    (values : Map Value) (base : TelemetryInputs) → Kept base (fold_environment values base)
unfolding fold_environment
fold_environment-Kept [] base = Kept-refl base
fold_environment-Kept ((path, given) ∷ values) base =
    elim (Option-cases (strip_prefix path "telemetry.")) [
      | inl e ↦ rw (fold_environment, e) (fold_environment-Kept values base)
      | inr (key, e) ↦
          rw (fold_environment, e)
            (Kept-trans base (fold_key key given base)
              (fold_environment values (fold_key key given base)) (fold_key-Kept key given base)
              (fold_environment-Kept values (fold_key key given base)))
    ]

rank-off : (level : TelemetryLevel) → rank level ≡ 0 → level ≡ off
rank-off off h = refl
rank-off usage h = absurd (omega arith)
rank-off diagnostic h = absurd (omega arith)
rank-off debug h = absurd (omega arith)

-- Where nothing was chosen, an end-user install resolves to `off`.
unchosen_off :
    (inputs : TelemetryInputs)
    → is_end_user inputs.deployment ≡ true
    → chosen inputs.level ≡ none
    → (resolve_policy inputs).level ≡ off
unchosen_off inputs d c = elim (Option-cases inputs.kill_switch) [
  | inr (switch, e) ↦ level_killed inputs (rw e refl)
  | inl e ↦
      let least = resolve_policy-end_user inputs e d in
      let zero_left : rank (unwrap_or (chosen inputs.level) off) ≡ 0 = rw c refl in
      rank-off (resolve_policy inputs).level (omega (arith, least, zero_left))
]

-- The level that the settings file holds.
abbrev pub stored_level :
    {Handle Finding W : Type 0}
    → Process Handle Finding W
    → StartupInputs
    → W
    → Option TelemetryLevel
stored_level process inputs w =
    let (opened, after) =
      open_location process.config process.platform inputs.store (inputs.base).app w in
    (settings process.config process.platform opened after).level

or_else-none : {A : Type 0} (a b : Option A) → or_else a b ≡ none → (a ≡ none) × (b ≡ none)
or_else-none none b h = (refl, h)
or_else-none (some a) b h = cc

folded_off :
    {Finding : Type 0} (values : Map Value) (base : TelemetryInputs)
    (report : StartupReport Finding) (state : StoreState) (given : TelemetrySettings)
    → is_end_user base.deployment ≡ true
    → chosen base.level ≡ none
    → given.level ≡ none
    → (resolve_policy (fold_environment values (fold_store base report state given).0)).level ≡ off
unfolding fold_store
folded_off values base report state given d c s =
    let stored : TelemetryInputs = (fold_store base report state given).0 in
    let (d1, (r1, (f1, _))) = set_endpoint-Kept (filled given.endpoint) config_file _ in
    let (d2, (r2, (f2, _))) = fold_environment-Kept values stored in
    let (no_file, no_advice) = or_else-none (base.level).config_file (base.level).recommended c in
    let file : (stored.level).config_file ≡ none = f1 ∙ rw (s, no_file) refl in
    let advice : (stored.level).recommended ≡ none = r1 ∙ no_advice in
    unchosen_off (fold_environment values stored) (ap is_end_user (d2 ∙ d1) ∙ d)
      (rw (f2, r2, file, advice) refl)

module _ {Handle Finding W : Type 0} (process : Process Handle Finding W) where
  mint_level :
      (policy : TelemetryPolicy) (store : Option (TelemetryStore W)) (w : W)
      → (mint_install_id process policy store w).0.level ≡ policy.level
  unfolding mint_install_id
  mint_level policy store w = elim (Bool-cases (wants_install_id policy)) [
    | inr e ↦ rw (mint_install_id, e) refl
    | inl e ↦ elim (Option-cases store) [
      | inl n ↦ rw (mint_install_id, e, n) refl
      | inr (opened, n) ↦ rw (mint_install_id, e, n) refl
    ]
  ]

  gathered_off :
      (inputs : StartupInputs) (switch : Option KillSwitch) (w : W)
      → is_end_user (inputs.base).deployment ≡ true
      → chosen (inputs.base).level ≡ none
      → stored_level process inputs w ≡ none
      → (resolve_policy (gather_from process inputs switch w).base).level ≡ off
  unfolding gather_from
  gathered_off inputs (some switch) w d c s = level_killed _ refl
  gathered_off inputs none w d c s =
      let base : TelemetryInputs = record (inputs.base) { kill_switch = none } in
      let report : StartupReport Finding = default_report in
      let (opened, after) =
        open_location process.config process.platform inputs.store (inputs.base).app w in
      folded_off
        (scan_environment process.parse_f64 (inputs.base).app inputs.manifest inputs.env).values
        base report opened.state (settings process.config process.platform opened after) d c s

  -- An end-user install for which nobody has chosen a level (no recommendation, none in the inputs and
  -- none in the settings file) starts at `off` and builds no providers, whatever the environment and
  -- the builder ask for.
  pub run_startup-consent :
      (inputs : StartupInputs) (w : W)
      → is_end_user (inputs.base).deployment ≡ true
      → chosen (inputs.base).level ≡ none
      → stored_level process inputs w ≡ none
      → ((run_startup process inputs w).0.policy.level ≡ off)
        × ((run_startup process inputs w).0.handle ≡ none)
  unfolding run_startup run_startup_recording continue_startup gather
  run_startup-consent inputs w d c s =
      let gathered : Gathered Finding W = gather_from process inputs (switch_of inputs) w in
      let level : (decide process gathered).0.level ≡ off =
        mint_level (resolve_policy gathered.base) gathered.store gathered.world
        ∙ gathered_off inputs (switch_of inputs) w d c s in
      let (live, _) =
        built_exports process (decide process gathered).0 gathered.report
          (decide process gathered).1 in
      let quiet = exports-off (decide process gathered).0 level in
      (
        level,
        elim (Option-cases
            (build process (decide process gathered).0 gathered.report
              (decide process gathered).1).handle) [
                | inl e ↦ e
                | inr (handle, e) ↦ let exported = live (rw e refl) in cc
              ],
      )
