-- ===== src/Telemetry/Startup/Order.antt =====
-- The order of the steps of telemetry's startup (src/telemetry/startup.rs).
use cli_framework.Prelude.{
  Bool, true, false, List, [], ◌∷◌, ◌++◌, Option, none, some, Bool-cases, Option-cases, inl, inr,
}
use cli_framework.Telemetry.Policy.{KillSwitch, TelemetryPolicy, exports}
use cli_framework.Telemetry.Startup.State.{
  kill_switches, open_store, merge_manifest, resolve, freeze_policy, build_providers,
  install_subscriber, announce_notice, install_panic_hook, dispatch, startup_order, StartupReport,
  StartupInputs, Process, Gathered,
}
use cli_framework.Telemetry.Startup.{
  gather, gather_from, continue_startup, decide, hooked_after, build, hook_steps,
  run_startup_recording, switch_of,
}

-- The first list is the second without some of its elements.
pub data Subsequence {A : Type 0} : List A → List A → Type 0 where
  done : Subsequence [] []
  take : {x : A} {xs ys : List A} → Subsequence xs ys → Subsequence (x ∷ xs) (x ∷ ys)
  drop : {y : A} {xs ys : List A} → Subsequence xs ys → Subsequence xs (y ∷ ys)

Subsequence-append :
    {A : Type 0} {front all xs ys : List A}
    → Subsequence front all
    → Subsequence xs ys
    → Subsequence (front ++ xs) (all ++ ys)
Subsequence-append done t = t
Subsequence-append (take s) t = take (Subsequence-append s t)
Subsequence-append (drop s) t = drop (Subsequence-append s t)

hook_steps_within : (hooked : Bool) → Subsequence (hook_steps hooked) (install_panic_hook ∷ [])
hook_steps_within true = take done
hook_steps_within false = drop done

module _ {Handle Finding W : Type 0} (process : Process Handle Finding W) where
  gather_steps :
      (inputs : StartupInputs) (switch : Option KillSwitch) (w : W)
      → Subsequence
          (gather_from process inputs switch w).steps
          (kill_switches ∷ open_store ∷ merge_manifest ∷ [])
  unfolding gather_from
  gather_steps inputs none w = take (take (take done))
  gather_steps inputs (some s) w = take (drop (drop done))

  build_steps :
      (policy : TelemetryPolicy) (report : StartupReport Finding) (w : W)
      → Subsequence
          (build process policy report w).steps
          (build_providers ∷ install_subscriber ∷ [])
  unfolding build
  build_steps policy report w = elim (Bool-cases (exports policy)) [
    | inr e ↦ rw (build, e) (drop (drop done))
    | inl e ↦ elim (Option-cases (process.init_from_policy policy w).0) [
      | inl n ↦ rw (build, e, n) (take (drop done))
      | inr (live, n) ↦ rw (build, e, n) (take (take done))
    ]
  ]

  continue_steps :
      (inputs : StartupInputs) (gathered : Gathered Finding W)
      → Subsequence gathered.steps (kill_switches ∷ open_store ∷ merge_manifest ∷ [])
      → Subsequence (continue_startup process inputs gathered).0.1 startup_order
  unfolding continue_startup
  continue_steps inputs gathered front = Subsequence-append front (
      Subsequence-append both (
        Subsequence-append
          (build_steps (decide process gathered).0 gathered.report (decide process gathered).1)
          (Subsequence-append notice (
            Subsequence-append (hook_steps_within (hooked_after process inputs gathered).0) last))))
    where
      both : Subsequence (resolve ∷ freeze_policy ∷ []) (resolve ∷ freeze_policy ∷ [])
      both = take (take done)

      notice : Subsequence (announce_notice ∷ []) (announce_notice ∷ [])
      notice = take done

      last : Subsequence (dispatch ∷ []) (dispatch ∷ [])
      last = take done

  -- Startup performs its steps in the order that it declares, none of them twice, whatever the
  -- environment, the store and the providers do.
  pub run_startup_recording-Subsequence :
      (inputs : StartupInputs) (w : W)
      → Subsequence ((run_startup_recording process inputs w).0.1) startup_order
  unfolding run_startup_recording gather
  run_startup_recording-Subsequence inputs w =
      continue_steps inputs (gather_from process inputs (switch_of inputs) w)
        (gather_steps inputs (switch_of inputs) w)
