-- ===== src/Commands/Registry/Lookup.antt =====
-- What a registry resolves after a registration (src/command/registry.rs).
use cli_framework.Prelude.{◌≡◌, sym, ap, ◌∙◌, none, some, ok, ◌==◌, if◌then◌else◌, arith}
use cli_framework.Prelude.Maps.{lookup, lookup-insert}
use cli_framework.Spec.Paths.{CommandPath, to_path_string}
use cli_framework.Commands.{Command}
use cli_framework.Commands.Registry.{CommandRegistry, register_at, resolve}
use cli_framework.Commands.Registry.Accepted.{register_at_ok}

module _ {Execute : Type 0} where
  -- After an accepted registration a path resolves to the new command exactly where its text is
  -- that of the command's path, every other path resolves as before, and no group changes.
  pub resolve-register_at :
      (r : CommandRegistry Execute) (p q : CommandPath) (command : Command Execute)
      (registered : CommandRegistry Execute)
      → register_at r p command ≡ ok registered
      → (resolve r p ≡ none)
        × ((resolve registered q
              ≡ (if to_path_string p == to_path_string q then some command else resolve r q))
            × (registered.groups ≡ r.groups))
  unfolding resolve
  resolve-register_at r p q command registered h =
      let (free, (_, (_, same))) = register_at_ok r p command registered h in
      (
        ground (arith, free.0),
        (
          sym (ap (λ x. lookup (to_path_string q) x.tree_commands) same)
              ∙ lookup-insert (to_path_string p) (to_path_string q) command r.tree_commands,
          sym (ap (λ x. x.groups) same),
        ),
      )
