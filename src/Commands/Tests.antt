-- ===== src/Commands/Tests.antt =====
-- The theorems on the registry at concrete inputs.
use cli_framework.Prelude.{String, ◌≡◌, refl, true, false, List, [], ◌∷◌, none, some, ok, err}
use cli_framework.Prelude.Maps.{lookup, insert}
use cli_framework.Prelude.Text.{has_char, split, join}
use cli_framework.Spec.Args.{CommandSpec}
use cli_framework.Spec.Paths.{CommandPath, to_path_string}
use cli_framework.Spec.Paths.Laws.{IsProper}
use cli_framework.Commands.{Command}
use cli_framework.Commands.Registry.{
  CommandRegistry, new_registry, command_ancestor, path_has_descendants, alias_for,
  existing_alias_for_path, existing_alias_ancestor, qualified_alias_path, alias_error, register_at,
  resolve, alias_conflict,
}
use cli_framework.Commands.Registry.Lookup.{resolve-register_at}
use cli_framework.Commands.Registry.Invariant.{IsWellFormed}
use cli_framework.Commands.Registry.Invariant.Reachable.{
  at_start, by_command, IsReachable-IsWellFormed,
}

registry : Unit {0}
unfolding lookup insert has_char split join to_path_string command_ancestor path_has_descendants
    alias_for existing_alias_for_path existing_alias_ancestor qualified_alias_path alias_error
    register_at resolve
registry = tt

abbrev named : List String → CommandSpec
named names = record {
  summary = "";
  long_about = none;
  examples = [];
  aliases = names;
  hidden_aliases = [];
  hidden = false;
  deprecated = none;
  env_vars = [];
  exit_codes = [];
  args = [];
  notes = none;
  category = none;
  help_order = none;
  syntax = none;
}

abbrev command : String → List String → Command (Unit {0})
command name names = record {
  id = name;
  spec = named names;
  validator = none;
  execute = tt;
  expose_mcp = false;
  expose_chat = true;
  meta = none;
  visibility = none;
}

abbrev get_path : CommandPath
get_path = record { segments = "cluster" ∷ "get" ∷ [] }

abbrev one_command : CommandRegistry (Unit {0})
one_command = record {
  tree_commands = ("cluster/get", command "get" ("ls" ∷ [])) ∷ [];
  groups = [];
  help_section_order = [];
  framework_completion_path = none;
}

registered : register_at new_registry get_path (command "get" ("ls" ∷ [])) ≡ ok one_command
unfolding registry
registered = refl

-- The alias `ls` of `cluster/get` stands for `cluster/ls`.
taken :
    register_at one_command (record { segments = "cluster" ∷ "ls" ∷ [] }) (command "ls" [])
    ≡ err (alias_conflict "ls" "cluster/get")
unfolding registry
taken = refl

get_path-IsProper : IsProper get_path
unfolding has_char
get_path-IsProper = (λ h. cc, (refl, (refl, tt)))

IsReachable-IsWellFormed_example : IsWellFormed one_command
IsReachable-IsWellFormed_example =
    IsReachable-IsWellFormed one_command
      (by_command get_path (command "get" ("ls" ∷ [])) get_path-IsProper at_start registered)

resolve-register_at_example :
    (resolve (new_registry {Execute = Unit {0}}) get_path ≡ none)
    × ((resolve one_command get_path ≡ some (command "get" ("ls" ∷ [])))
        × (one_command.groups ≡ []))
unfolding registry
resolve-register_at_example =
    resolve-register_at new_registry get_path get_path (command "get" ("ls" ∷ [])) one_command
      registered
