-- ===== src/Commands/Registry/Invariant.antt =====
-- What the registry's contents satisfy, and that each registration keeps it
-- (src/command/registry.rs).
pub mod Groups
pub mod Commands
pub mod Reachable
use Prim.Native.String
use text.Mathlib.TextLemmas.{append_cancel_left, append-nil, cons-append, nil≢cons}
use cli_framework.Prelude.{
  ℕ, String, ◌≡◌, refl, sym, ap, ◌∙◌, subst, ◌⊎◌, inl, inr, ◌≢◌, Bool, true, false, ◌||◌, List, [],
  ◌∷◌, Option, none, some, Map, Result, ok, err, arith, is_some, or_else, In, Bool-cases,
  Option-cases, Result-cases, ◌==◌, eq_iff, if◌then◌else◌,
}
use cli_framework.Prelude.Maps.{lookup, insert, contains_key, lookup-insert}
use cli_framework.Prelude.Text.{split}
use cli_framework.Spec.Args.{GroupMetadata}
use cli_framework.Spec.Paths.{CommandPath, to_path_string}
use cli_framework.Spec.Paths.Laws.{IsProper, split-to_path_string}
use cli_framework.Commands.{Command, all_aliases}
use cli_framework.Commands.Registry.{
  RegistrationError, CommandRegistry, find_map, qualified_alias_path, command_ancestor,
  path_has_descendants, existing_alias_for_path, existing_alias_ancestor, alias_error, register_at,
  register_group,
}
use cli_framework.Commands.Registry.Accepted.{IsFree, register_at_ok, register_group_ok}
use cli_framework.Commands.Registry.Below.{
  IsBelow, IsOccupied, find_map-none, command_ancestor_lem, path_has_descendants_lem,
  existing_alias_for_path_lem, existing_alias_ancestor_lem,
}

pub not-IsBelow_itself : (path : String) → ¬ IsBelow path path
not-IsBelow_itself path (rest, e) = nil≢cons (
    append_cancel_left path "" (String.◌++◌ "/" rest) (append-nil path ∙ e)
    ∙ cons-append "/" "" rest)

pub contains-insert :
    {V : Type 0} (path key : String) (v : V) (m : Map V)
    → contains_key key (insert path v m) ≡ true
    → (path ≡ key) ⊎ (contains_key key m ≡ true)
contains-insert path key v m h = elim (Bool-cases (path == key)) [
  | inl e ↦ inl ((eq_iff path key).0 e)
  | inr e ↦ inr (ground (arith, lookup-insert path key v m))
]

module _ {Execute : Type 0} where
  -- The text of an alias is that of no other command or group and of none's ancestor.
  abbrev pub ClearOf : CommandRegistry Execute → String → String → Type 0
  ClearOf r own path =
      (key : String) → IsOccupied r key → key ≢ own → (path ≢ key) × ¬ IsBelow path key

  abbrev pub Apart : CommandRegistry Execute → Type 0
  Apart r =
      (key : String) → contains_key key r.tree_commands ≡ true → contains_key key r.groups ≡ false

  abbrev pub NothingBelow : CommandRegistry Execute → Type 0
  NothingBelow r =
      (key other : String)
      → contains_key key r.tree_commands ≡ true
      → IsOccupied r other
      → ¬ IsBelow key other

  abbrev pub AliasesClear : CommandRegistry Execute → Type 0
  AliasesClear r =
      (key alias : String) (command : Command Execute)
      → lookup key r.tree_commands ≡ some command
      → In alias (all_aliases command)
      → ClearOf r key (qualified_alias_path (record { segments = split 47 key }) alias)

  -- No text is that of a command and a group, nothing is below a command, and no alias of a
  -- command stands for another command or group or for what is above one.
  abbrev pub IsWellFormed : CommandRegistry Execute → Type 0
  IsWellFormed r = Apart r × (NothingBelow r × AliasesClear r)

  -- The alias of a registered command is clear of a free path.
  pub clear_of_free :
      (r : CommandRegistry Execute) (p : CommandPath) (key alias : String)
      (command : Command Execute)
      → IsProper p
      → IsFree r p
      → lookup key r.tree_commands ≡ some command
      → In alias (all_aliases command)
      → (qualified_alias_path (record { segments = split 47 key }) alias ≢ to_path_string p)
        × ¬ IsBelow
            (qualified_alias_path (record { segments = split 47 key }) alias)
            (to_path_string p)
  clear_of_free r p key alias command proper (_, (_, (_, (free, above)))) found m = (
    existing_alias_for_path_lem r (to_path_string p) key alias command free found m,
    existing_alias_ancestor_lem r p key alias command proper above found m,
  )
