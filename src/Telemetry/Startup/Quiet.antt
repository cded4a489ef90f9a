-- ===== src/Telemetry/Startup/Quiet.antt =====
-- What a startup leaves alone (src/telemetry/startup.rs).
use cli_framework.Prelude.{
  ◌≡◌, refl, sym, ap, ◌∙◌, subst, true, false, [], Option, none, some, is_some, Bool-cases,
  Option-cases, inl, inr,
}
use cli_framework.Telemetry.Policy.{TelemetryPolicy, resolve_policy, exports}
use cli_framework.Telemetry.Policy.Silence.{exports_killed}
use cli_framework.Telemetry.Startup.State.{
  StartupReport, StartupInputs, StartupResult, Process, Gathered, Built,
}
use cli_framework.Telemetry.Startup.{
  gather, gather_from, continue_startup, decide, announced_after, built_after, hooked_after, build,
  mint_install_id, wants_install_id, announce, hook, run_startup_recording, run_startup, switch_of,
}

-- Nothing is built, shown or hooked up.
abbrev pub IsSilent : {Handle Finding : Type 0} → StartupResult Handle Finding → Type 0
IsSilent result =
    (result.handle ≡ none)
    × ((result.guard ≡ none) × ((result.notice ≡ none) × (result.panic_hook ≡ false)))

module _ {Handle Finding W : Type 0} (process : Process Handle Finding W) where
  -- Without a store nothing is minted.
  mint_nothing :
      (policy : TelemetryPolicy) (w : W) → mint_install_id process policy none w ≡ (policy, w)
  unfolding mint_install_id
  mint_nothing policy w = elim (Bool-cases (wants_install_id policy)) [
    | inl e ↦ rw e refl
    | inr e ↦ rw e refl
  ]

  IsSilent-gathered :
      (inputs : StartupInputs) (gathered : Gathered Finding W)
      → gathered.store ≡ none
      → exports (resolve_policy gathered.base) ≡ false
      → IsSilent (continue_startup process inputs gathered).0.0
        × ((continue_startup process inputs gathered).1 ≡ gathered.world)
  unfolding continue_startup build announce hook
  IsSilent-gathered inputs gathered s e =
      let minted : decide process gathered ≡ (resolve_policy gathered.base, gathered.world) =
        rw s (mint_nothing (resolve_policy gathered.base) gathered.world) in
      let built : build process (decide process gathered).0 gathered.report
            (decide process gathered).1
          ≡ record {
            handle = none;
            guard = none;
            report = gathered.report;
            steps = [];
            world = gathered.world;
          } =
        rw (minted, build, e) refl in
      let untold : announced_after process inputs gathered
          ≡ (none, (built_after process gathered).world) =
        rw s refl in
      let unhooked : hooked_after process inputs gathered
          ≡ (false, (announced_after process inputs gathered).1) =
        ap
          (λ (b : Built Handle Finding W).
            hook process b.handle (decide process gathered).0
              (announced_after process inputs gathered).1)
          built in
      (
        (
          ap (λ (b : Built Handle Finding W). b.handle) built,
          (
            ap (λ (b : Built Handle Finding W). b.guard) built,
            (ap (λ p. p.0) untold, ap (λ p. p.0) unhooked),
          ),
        ),
        ap (λ p. p.1) unhooked
            ∙ ap (λ p. p.1) untold
            ∙ ap (λ (b : Built Handle Finding W). b.world) built,
      )

  -- Under a kill switch, of the environment or of the caller, a startup leaves the world as it is: no
  -- store is opened, no id is minted, and nothing is built, shown or hooked up.
  pub run_startup-kill_switch :
      (inputs : StartupInputs) (w : W)
      → is_some (switch_of inputs) ≡ true
      → IsSilent (run_startup process inputs w).0 × ((run_startup process inputs w).1 ≡ w)
  unfolding run_startup run_startup_recording gather gather_from
  run_startup-kill_switch inputs w h = elim (Option-cases (switch_of inputs)) [
    | inl e ↦ cc (rw e at h)
    | inr (switch, e) ↦
        let silent =
          IsSilent-gathered inputs (gather_from process inputs (some switch) w) refl
            (exports_killed _ refl) in
        subst
          (λ o.
            IsSilent (continue_startup process inputs (gather_from process inputs o w)).0.0
            × ((continue_startup process inputs (gather_from process inputs o w)).1 ≡ w))
          (sym e) silent
  ]

  pub built_exports :
      (policy : TelemetryPolicy) (report : StartupReport Finding) (w : W)
      → (is_some (build process policy report w).handle ≡ true → exports policy ≡ true)
        × (is_some (build process policy report w).guard
            ≡ is_some (build process policy report w).handle)
  unfolding build
  built_exports policy report w = elim (Bool-cases (exports policy)) [
    | inr e ↦ rw (build, e) (λ h. cc, refl)
    | inl e ↦ elim (Option-cases (process.init_from_policy policy w).0) [
      | inl n ↦ rw (build, e, n) (λ h. refl, refl)
      | inr (live, n) ↦ rw (build, e, n) (λ h. refl, refl)
    ]
  ]

  hook_matches :
      (handle : Option Handle) (policy : TelemetryPolicy) (w : W)
      → (hook process handle policy w).0 ≡ is_some handle
  unfolding hook
  hook_matches none policy w = refl
  hook_matches (some live) policy w = refl

  -- Where a startup returns providers, its policy exports, and the panic hook and the guard that shuts
  -- them down are there too.
  pub run_startup-exports :
      (inputs : StartupInputs) (w : W)
      → is_some (run_startup process inputs w).0.handle ≡ true
      → (exports (run_startup process inputs w).0.policy ≡ true)
        × (((run_startup process inputs w).0.panic_hook ≡ true)
            × (is_some (run_startup process inputs w).0.guard ≡ true))
  unfolding run_startup run_startup_recording continue_startup
  run_startup-exports inputs w h =
      let gathered : Gathered Finding W = gather process inputs w in
      let (policy, minted) = decide process gathered in
      let (live, guarded) = built_exports policy gathered.report minted in
      (live h, (hook_matches (built_after process gathered).handle policy _ ∙ h, guarded ∙ h))
