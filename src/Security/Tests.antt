-- ===== src/Security/Tests.antt =====
-- The theorems on the risk check at concrete inputs.
use cli_framework.Prelude.{◌≡◌, refl, ◌↔◌, true, false, some, ok, err}
use cli_framework.Prelude.Maps.{lookup}
use cli_framework.Security.Risk.{
  Surroundings, destructive, default_policy, category_tier, classify, env_allowed,
  enforce_preflight, destructive_env_gated,
}
use cli_framework.Security.Risk.Laws.{Permits, enforce_preflight_iff}

-- A terminal, where the variable is set to `1`.
abbrev terminal : Surroundings
terminal = record { allow_destructive = some "1"; is_interactive = true }

enforce_preflight_iff_example :
    (enforce_preflight terminal default_policy "drop" (some "admin") false ≡ ok tt)
    ↔ Permits terminal false destructive
unfolding classify category_tier lookup
enforce_preflight_iff_example =
    enforce_preflight_iff terminal default_policy "drop" (some "admin") false

-- `--yes` does not help a destructive command.
unset :
    enforce_preflight
      (record { allow_destructive = some "0"; is_interactive = true })
      default_policy
      "drop"
      (some "admin")
      true
    ≡ err destructive_env_gated
unfolding classify category_tier lookup env_allowed enforce_preflight
unset = refl
