-- ===== src/Telemetry/Startup/Forgotten.antt =====
-- A startup after the settings were reset (src/telemetry/startup.rs, src/telemetry/store.rs).
use cli_framework.Prelude.{◌≡◌, true, none, ok}
use cli_framework.Telemetry.Axes.{off, is_end_user}
use cli_framework.Telemetry.Policy.Level.{chosen}
use cli_framework.Telemetry.Store.{reset, open_location}
use cli_framework.Telemetry.Store.Reset.{IsForgetful, level_of-reset}
use cli_framework.Telemetry.Startup.State.{StartupInputs, Process}
use cli_framework.Telemetry.Startup.{run_startup}
use cli_framework.Telemetry.Startup.Consent.{run_startup-consent}

-- After a reset that succeeded, an end-user install for which nobody else has chosen a level (no
-- recommendation, and none in the inputs) starts at `off` and builds no providers, whatever level the
-- settings held before, and whatever the environment and the builder ask for. The default settings
-- choose no level, a file that was removed or was not there reads as empty, and to make a directory
-- changes no file.
pub run_startup-reset :
    {Handle Finding W : Type 0} (process : Process Handle Finding W) (inputs : StartupInputs)
    (w : W)
    → IsForgetful process.config process.platform
    → is_end_user (inputs.base).deployment ≡ true
    → chosen (inputs.base).level ≡ none
    → (reset process.platform
        (open_location process.config process.platform inputs.store (inputs.base).app w).0
        (open_location process.config process.platform inputs.store (inputs.base).app w).1).0
      ≡ ok tt
    → let after =
        (reset process.platform
          (open_location process.config process.platform inputs.store (inputs.base).app w).0
          (open_location process.config process.platform inputs.store (inputs.base).app w).1).1 in
      ((run_startup process inputs after).0.policy.level ≡ off)
      × ((run_startup process inputs after).0.handle ≡ none)
run_startup-reset process inputs w laws d c h =
    run_startup-consent process inputs _ d c
      (level_of-reset process.config process.platform laws inputs.store (inputs.base).app w h)
