-- ===== src/Telemetry/Startup.antt =====
-- src/telemetry/startup.rs: how a process starts telemetry. `W` is the state of the world that the
-- settings file, the providers, the subscriber and the panic hook act on; the construction of the
-- providers, the subscriber and the hook are parameters, and so is the finding of a foreign
-- subscriber. What is printed on the standard error is an effect on the world.
pub mod State
pub mod Fold
pub mod Order
pub mod Quiet
pub mod Consent
pub mod Forgotten
use Prim.Native.String
use cli_framework.Prelude.{
  ℕ, String, Bool, true, false, not, ◌&&◌, ◌||◌, List, [], ◌∷◌, ◌++◌, Option, none, some, Map,
  Result, ok, err, find, keep, is_some, or_else, if◌then◌else◌, ◌==◌,
}
use cli_framework.Prelude.Maps.{insert_key}
use cli_framework.Prelude.Text.{join, is_blank, strip_prefix, strip_suffix}
use cli_framework.Json
use cli_framework.Json.{Value, Float}
use cli_framework.Config.Manifest.{ConfigManifest}
use cli_framework.Config.Resolution.{Layer, config_file, environment}
use cli_framework.Config.Store.{VersionedConfig}
use cli_framework.Telemetry.Axes.{
  Deployment, end_user, service, TelemetryLevel, off, lt_level, parse_level, Attribution,
  is_anonymous, parse_attribution,
}
use cli_framework.Telemetry.Policy.{
  KillSwitch, detect_kill_switch, TelemetryInputs, TelemetryPolicy, resolve_policy, exports,
}
use cli_framework.Telemetry.Notice.{Surface, show, skip, notice_decision}
use cli_framework.Telemetry.Env.{EnvScan, scan_environment}
use cli_framework.Telemetry.Store.{
  TelemetrySettings, StoreState, default_state, is_ready, reason, TelemetryStore, Platform,
  settings, mutate, ensure_install_id, TelemetryStoreLocation, open_location,
}
use cli_framework.Telemetry.Startup.State.{
  StartupStep, kill_switches, open_store, merge_manifest, resolve, freeze_policy, build_providers,
  install_subscriber, announce_notice, install_panic_hook, dispatch, startup_order,
  SubscriberOutcome, installed, foreign_subscriber, StartupReport, default_report, StartupInputs,
  Process, TelemetryGuard, StartupResult, Gathered, Built,
}
use cli_framework.Telemetry.Startup.Fold.{
  detect_kill_switch_in, fold_store, fold_environment, flush_budget_for,
}

-- The kill switch of this run: the environment's, or else the one that the caller knows.
abbrev pub switch_of : StartupInputs → Option KillSwitch
switch_of inputs =
    or_else (detect_kill_switch_in (inputs.base).app inputs.env) (inputs.base).kill_switch

-- The install id is minted only where something may be sent.
abbrev pub wants_install_id : TelemetryPolicy → Bool
wants_install_id policy =
    lt_level off policy.level
    && not (is_anonymous policy.attribution)
    && not (is_some policy.install_id)

abbrev pub hook_steps : Bool → List StartupStep
hook_steps true = install_panic_hook ∷ []
hook_steps false = []

module _ {Handle Finding W : Type 0} (process : Process Handle Finding W) where
  unfoldable pub show_notice :
      TelemetryPolicy
      → Option TelemetryLevel
      → Surface
      → Bool
      → TelemetryStore W
      → W
      → Option String × W
  show_notice policy notice_shown surface stderr_is_tty store w =
      elim (notice_decision process.debug_form policy notice_shown surface stderr_is_tty) [
        | show text announced_level ↦
            let (_, after) =
              mutate process.config process.platform store
                (λ s. record s { notice_shown = some announced_level }) w in
            (some text, after)
        | skip _ ↦ (none, w)
      ]

  unfoldable pub install_subscriber_for :
      Handle → StartupReport Finding → W → StartupReport Finding × W
  install_subscriber_for providers report w =
      let (outcome, after) = process.install_telemetry_subscriber providers w in
      elim outcome [
        | installed ↦ (record report { subscriber = installed }, after)
        | foreign_subscriber ↦
            let (attached, last) = process.attach_otel_layer_globally providers after in
            elim attached [
              | true ↦ (record report { subscriber = installed }, last)
              | false ↦ (
                record report {
                  subscriber = foreign_subscriber;
                  findings = report.findings ++ process.foreign_subscriber_finding ∷ [];
                },
                process.warn_once_foreign_subscriber last,
              )
            ]
      ]

  -- Steps 1 to 3: nothing is opened where a kill switch is set.
  unfoldable pub gather_from : StartupInputs → Option KillSwitch → W → Gathered Finding W
  gather_from inputs (some switch) w = record {
    base = record (inputs.base) { kill_switch = some switch };
    report = record default_report { kill_switch = some switch };
    notice_shown = none;
    store = none;
    steps = kill_switches ∷ [];
    world = w;
  }
  gather_from inputs none w =
      let base = record (inputs.base) { kill_switch = none } in
      let (opened, after) = open_location process.config process.platform inputs.store base.app w in
      let given = settings process.config process.platform opened after in
      let (stored, noted) = fold_store base default_report opened.state given in
      let scan = scan_environment process.parse_f64 base.app inputs.manifest inputs.env in
      record {
        base = fold_environment scan.values stored;
        report = record noted { unmatched_env = scan.unmatched };
        notice_shown = given.notice_shown;
        store = some opened;
        steps = kill_switches ∷ open_store ∷ merge_manifest ∷ [];
        world = elim scan.unmatched [
          | [] ↦ after
          | _ ∷ _ ↦ process.warn_unmatched scan.unmatched after
        ];
      }

  unfoldable pub gather : StartupInputs → W → Gathered Finding W
  gather inputs w = gather_from inputs (switch_of inputs) w

  unfoldable pub mint_install_id :
      TelemetryPolicy → Option (TelemetryStore W) → W → TelemetryPolicy × W
  mint_install_id policy store w =
      if wants_install_id policy
      then elim store [
        | none ↦ (policy, w)
        | some opened ↦
            let (id, after) = ensure_install_id process.config process.platform opened w in
            (record policy { install_id = id }, after)
      ]
      else (policy, w)

  -- Steps 6 and 7.
  unfoldable pub build : TelemetryPolicy → StartupReport Finding → W → Built Handle Finding W
  build policy report w =
      if exports policy
      then (let (live, after) = process.init_from_policy policy w in
          elim live [
            | none ↦ record {
              handle = none;
              guard = none;
              report = report;
              steps = build_providers ∷ [];
              world = after;
            }
            | some providers ↦
                let (noted, last) = install_subscriber_for providers report after in
                record {
                  handle = some providers;
                  guard = some (record {
                    providers = providers;
                    flush_budget = flush_budget_for policy.deployment;
                  });
                  report = noted;
                  steps = build_providers ∷ install_subscriber ∷ [];
                  world = last;
                }
          ])
      else record { handle = none; guard = none; report = report; steps = []; world = w }

  -- Step 8.
  unfoldable pub announce :
      TelemetryPolicy
      → Option TelemetryLevel
      → StartupInputs
      → Option (TelemetryStore W)
      → W
      → Option String × W
  announce policy notice_shown inputs store w = elim store [
    | none ↦ (none, w)
    | some opened ↦ show_notice policy notice_shown inputs.surface inputs.stderr_is_tty opened w
  ]

  -- Step 9.
  unfoldable pub hook : Option Handle → TelemetryPolicy → W → Bool × W
  hook none policy w = (false, w)
  hook (some live) policy w = (true, process.panic_hook live policy w)

  -- Steps 4 and 5: the frozen policy.
  abbrev pub decide : Gathered Finding W → TelemetryPolicy × W
  decide gathered = mint_install_id (resolve_policy gathered.base) gathered.store gathered.world

  abbrev pub built_after : Gathered Finding W → Built Handle Finding W
  built_after gathered = build (decide gathered).0 gathered.report (decide gathered).1

  abbrev pub announced_after : StartupInputs → Gathered Finding W → Option String × W
  announced_after inputs gathered =
      announce (decide gathered).0 gathered.notice_shown inputs gathered.store
        (built_after gathered).world

  abbrev pub hooked_after : StartupInputs → Gathered Finding W → Bool × W
  hooked_after inputs gathered =
      hook (built_after gathered).handle (decide gathered).0 (announced_after inputs gathered).1

  -- Steps 4 to 10.
  unfoldable pub continue_startup :
      StartupInputs → Gathered Finding W → (StartupResult Handle Finding × List StartupStep) × W
  continue_startup inputs gathered = (
    (
      record {
        policy = (decide gathered).0;
        report = (built_after gathered).report;
        handle = (built_after gathered).handle;
        guard = (built_after gathered).guard;
        notice = (announced_after inputs gathered).0;
        panic_hook = (hooked_after inputs gathered).0;
      },
      gathered.steps
          ++ resolve
            ∷ freeze_policy
            ∷ ((built_after gathered).steps
                ++ announce_notice
                  ∷ (hook_steps (hooked_after inputs gathered).0 ++ dispatch ∷ [])),
    ),
    (hooked_after inputs gathered).1,
  )

  unfoldable pub run_startup_recording :
      StartupInputs → W → (StartupResult Handle Finding × List StartupStep) × W
  run_startup_recording inputs w = continue_startup inputs (gather inputs w)

  unfoldable pub run_startup : StartupInputs → W → StartupResult Handle Finding × W
  run_startup inputs w =
      let ((result, _), after) = run_startup_recording inputs w in (result, after)
