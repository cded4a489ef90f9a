-- ===== src/Commands/Registry/Invariant/Reachable.antt =====
-- The registries that registrations build (src/command/registry.rs).
use cli_framework.Prelude.{String, ◌≡◌, ok, List, some, Result-cases, subst, inl, inr}
use cli_framework.Prelude.Maps.{lookup}
use cli_framework.Spec.Args.{GroupMetadata}
use cli_framework.Spec.Paths.{CommandPath, to_path_string}
use cli_framework.Spec.Paths.Laws.{IsProper}
use cli_framework.Commands.{Command}
use cli_framework.Commands.Registry.{
  CommandRegistry, new_registry, register_at, register_group, register_framework_completion_at,
  set_help_section_order,
}
use cli_framework.Prelude.{ok-inj}
use cli_framework.Commands.Registry.Invariant.{IsWellFormed}
use cli_framework.Commands.Registry.Invariant.Groups.{register_group-IsWellFormed}
use cli_framework.Commands.Registry.Invariant.Commands.{register_at-IsWellFormed}

module _ {Execute : Type 0} where
  -- A registry after some operations on a new one, each at a proper path.
  pub data IsReachable : CommandRegistry Execute → Type 0 where
    at_start : IsReachable new_registry
    by_command :
        {before registered : CommandRegistry Execute} (p : CommandPath) (command : Command Execute)
        → IsProper p
        → IsReachable before
        → register_at before p command ≡ ok registered
        → IsReachable registered
    by_group :
        {before registered : CommandRegistry Execute} (p : CommandPath) (metadata : GroupMetadata)
        → IsProper p
        → IsReachable before
        → register_group before p metadata ≡ ok registered
        → IsReachable registered
    by_completion :
        {before registered : CommandRegistry Execute} (p : CommandPath) (command : Command Execute)
        → IsProper p
        → IsReachable before
        → register_framework_completion_at before p command ≡ ok registered
        → IsReachable registered
    by_sections :
        {before : CommandRegistry Execute} (sections : List String)
        → IsReachable before
        → IsReachable (set_help_section_order before sections)

  new_registry-IsWellFormed : IsWellFormed (new_registry {Execute = Execute})
  unfolding lookup
  new_registry-IsWellFormed =
      (λ key h. cc, (λ key other h _ _. cc, λ key alias command h _ other _ _. cc))

  completion_ok :
      (r : CommandRegistry Execute) (p : CommandPath) (command : Command Execute)
      (middle registered : CommandRegistry Execute)
      → register_at r p command ≡ ok middle
      → register_framework_completion_at r p command ≡ ok registered
      → record middle { framework_completion_path = some (to_path_string p) } ≡ registered
  unfolding register_framework_completion_at
  completion_ok r p command middle registered k h =
      ok-inj (rw (register_framework_completion_at, k) at h)

  -- Every registry that registrations at proper paths build is well formed: no text is that of a
  -- command and a group, nothing is registered below a command, and an alias stands for no other
  -- command or group nor for what is above one.
  pub IsReachable-IsWellFormed : (r : CommandRegistry Execute) → IsReachable r → IsWellFormed r
  unfolding set_help_section_order register_framework_completion_at
  IsReachable-IsWellFormed r at_start = new_registry-IsWellFormed
  IsReachable-IsWellFormed r (by_command {before} p command proper steps h) =
      register_at-IsWellFormed before p command r proper (IsReachable-IsWellFormed before steps) h
  IsReachable-IsWellFormed r (by_group {before} p metadata proper steps h) =
      register_group-IsWellFormed before p metadata r proper (IsReachable-IsWellFormed before steps)
        h
  IsReachable-IsWellFormed r (by_completion {before} p command proper steps h) =
      elim (Result-cases (register_at before p command)) [
        | inl (middle, k) ↦ subst IsWellFormed (completion_ok before p command middle r k h) (
            register_at-IsWellFormed before p command middle proper
              (IsReachable-IsWellFormed before steps) k)
        | inr (e, k) ↦ cc (rw (register_framework_completion_at, k) at h)
      ]
  IsReachable-IsWellFormed r (by_sections {before} sections steps) =
      IsReachable-IsWellFormed before steps
