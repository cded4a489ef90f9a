-- ===== src/Commands/Registry.antt =====
-- src/command/registry.rs: the commands and groups by the text of their path. A hash map's
-- iteration order is not fixed in the code: here it is that of the keys.
pub mod Sections
pub mod Below
pub mod Accepted
pub mod Invariant
pub mod Lookup
pub mod Children
use Prim.Native.String
use Prim.Native.String.{len, slice}
use text.Mathlib.Text.{starts_with}
use cli_framework.Prelude.{
  ℕ, suc, String, Bool, true, false, not, ◌&&◌, ◌||◌, List, [], ◌∷◌, ◌++◌, map, Option, none, some,
  Map, Result, ok, err, any, find, contains, is_some, or_else, if◌then◌else◌, ◌==◌,
}
use cli_framework.Prelude.Maps.{lookup, insert, contains_key, keys}
use cli_framework.Prelude.Text.{split, join}
use cli_framework.Spec.Args.{GroupMetadata}
use cli_framework.Spec.Paths.{CommandPath, has_slash, root_for, to_path_string, all_but_last}
use cli_framework.Commands.{Command, all_aliases}

pub data RegistrationError : Type 0 where
  collision : String → RegistrationError
  alias_conflict : String → String → RegistrationError

pub record CommandRegistry (Execute : Type 0) : Type 0 where
  pub tree_commands : Map (Command Execute)
  pub groups : Map GroupMetadata
  pub help_section_order : List String
  pub framework_completion_path : Option String

-- `iter().find_map(f)`
abbrev pub find_map : {A B : Type 0} → (A → Option B) → List A → Option B
find_map f [] = none
find_map f (x ∷ xs) = or_else (f x) (find_map f xs)

-- `path.0[..len]` for `len` in `1..path.0.len()`.
abbrev pub proper_prefixes : List String → List (List String)
proper_prefixes [] = []
proper_prefixes (s ∷ []) = []
proper_prefixes (s ∷ t ∷ rest) = (s ∷ []) ∷ map (λ taken. s ∷ taken) (proper_prefixes (t ∷ rest))

unfoldable pub qualified_alias_path : CommandPath → String → String
qualified_alias_path p alias =
    if has_slash alias then alias else join "/" (all_but_last p.segments ++ alias ∷ [])

unfoldable pub push_sections : List String → List String → List String
push_sections order [] = order
push_sections order (section ∷ sections) =
    if not (contains order section)
    then push_sections (order ++ section ∷ []) sections
    else push_sections order sections

unfoldable pub position : String → List String → Option ℕ
position section [] = none
position section (known ∷ order) =
    let rest = position section order in
    if known == section then some 0 else elim rest [ some n ↦ some (suc n) | none ↦ none ]

-- `&key[prefix.len()..]`
abbrev pub rest_after : String → String → String
rest_after key start = slice key (len start) (len key)

-- The child of `p` whose text is `key`, if there is one.
unfoldable pub child_of : CommandPath → String → String → Option CommandPath
child_of p start key =
    if starts_with key start
    then (if not (has_slash (rest_after key start)) && not (rest_after key start == "")
        then some record { segments = p.segments ++ rest_after key start ∷ [] }
        else none)
    else none

abbrev pub child_prefix : CommandPath → String
child_prefix p = elim p.segments [ [] ↦ "" | _ ∷ _ ↦ String.◌++◌ (to_path_string p) "/" ]

-- `iter().filter_map(f).collect()`
abbrev pub filter_map : {A B : Type 0} → (A → Option B) → List A → List B
filter_map f [] = []
filter_map f (x ∷ xs) = elim (f x) [ some y ↦ y ∷ filter_map f xs | none ↦ filter_map f xs ]

module _ {Execute : Type 0} where
  abbrev pub new_registry : CommandRegistry Execute
  new_registry = record {
    tree_commands = [];
    groups = [];
    help_section_order = [];
    framework_completion_path = none;
  }

  unfoldable pub command_ancestor : CommandRegistry Execute → CommandPath → Option String
  command_ancestor r p =
      find_map
        (λ taken.
          if contains_key (join "/" taken) r.tree_commands then some (join "/" taken) else none)
        (proper_prefixes p.segments)

  unfoldable pub path_has_descendants : CommandRegistry Execute → String → Bool
  path_has_descendants r path =
      any (λ key. starts_with key (String.◌++◌ path "/")) (keys r.tree_commands)
      || any (λ key. starts_with key (String.◌++◌ path "/")) (keys r.groups)

  -- The alias of a command at `path` that stands for `candidate`, with that path.
  unfoldable pub alias_for : String → String × Command Execute → Option (String × String)
  alias_for candidate (path, command) =
      elim (find
        (λ alias. qualified_alias_path (record { segments = split 47 path }) alias == candidate)
        (all_aliases command)) [ some alias ↦ some (alias, path) | none ↦ none ]

  unfoldable pub existing_alias_for_path :
      CommandRegistry Execute → String → Option (String × String)
  existing_alias_for_path r candidate = find_map (alias_for candidate) r.tree_commands

  unfoldable pub existing_alias_ancestor :
      CommandRegistry Execute → CommandPath → Option (String × String)
  existing_alias_ancestor r p =
      find_map (λ taken. existing_alias_for_path r (join "/" taken)) (proper_prefixes p.segments)

  -- What refuses one alias of a command that is to stand at `p`.
  unfoldable pub alias_error :
      CommandRegistry Execute → CommandPath → String → Option RegistrationError
  alias_error r p alias =
      let path = qualified_alias_path p alias in
      if contains_key path r.tree_commands
      then some (alias_conflict alias path)
      else if contains_key path r.groups
      then some (alias_conflict alias path)
      else if path_has_descendants r path
      then some (alias_conflict alias path)
      else elim (existing_alias_for_path r path) [
        | some (_, existing) ↦ some (alias_conflict alias existing)
        | none ↦ none
      ]

  unfoldable pub register_at :
      CommandRegistry Execute
      → CommandPath
      → Command Execute
      → Result RegistrationError (CommandRegistry Execute)
  register_at r p command =
      let path = to_path_string p in
      if contains_key path r.tree_commands
        || contains_key path r.groups
        || is_some (command_ancestor r p)
        || path_has_descendants r path
      then err (collision path)
      else elim (existing_alias_for_path r path) [
        | some (alias, existing) ↦ err (alias_conflict alias existing)
        | none ↦ elim (existing_alias_ancestor r p) [
          | some (alias, existing) ↦ err (alias_conflict alias existing)
          | none ↦ elim (find_map (alias_error r p) (all_aliases command)) [
            | some e ↦ err e
            | none ↦ ok (record r { tree_commands = insert path command r.tree_commands })
          ]
        ]
      ]

  unfoldable pub register_group :
      CommandRegistry Execute
      → CommandPath
      → GroupMetadata
      → Result RegistrationError (CommandRegistry Execute)
  register_group r p metadata =
      let path = to_path_string p in
      if contains_key path r.tree_commands
        || contains_key path r.groups
        || is_some (command_ancestor r p)
      then err (collision path)
      else elim (or_else (existing_alias_for_path r path) (existing_alias_ancestor r p)) [
        | some (alias, existing) ↦ err (alias_conflict alias existing)
        | none ↦ ok (record r { groups = insert path metadata r.groups })
      ]

  unfoldable pub register_framework_completion_at :
      CommandRegistry Execute
      → CommandPath
      → Command Execute
      → Result RegistrationError (CommandRegistry Execute)
  register_framework_completion_at r p command = elim (register_at r p command) [
    | ok registered ↦ ok (record registered { framework_completion_path = some (to_path_string p) })
    | err e ↦ err e
  ]

  -- `none` where the code panics: the registration fails.
  unfoldable pub register :
      CommandRegistry Execute → Command Execute → Option (CommandRegistry Execute)
  register r command = elim (register_at r (root_for command.id) command) [
    | ok registered ↦ some registered
    | err e ↦ none
  ]

  unfoldable pub is_framework_completion : CommandRegistry Execute → String → Bool
  is_framework_completion r path = elim r.framework_completion_path [
    | some known ↦ known == path
    | none ↦ false
  ]

  unfoldable pub set_help_section_order :
      CommandRegistry Execute → List String → CommandRegistry Execute
  set_help_section_order r sections = record r { help_section_order = push_sections [] sections }

  unfoldable pub help_section_rank : CommandRegistry Execute → String → Option ℕ
  help_section_rank r section = position section r.help_section_order

  unfoldable pub get : CommandRegistry Execute → String → Option (Command Execute)
  get r id = lookup id r.tree_commands

  unfoldable pub group_metadata_for : CommandRegistry Execute → String → Option GroupMetadata
  group_metadata_for r path = lookup path r.groups

  unfoldable pub resolve : CommandRegistry Execute → CommandPath → Option (Command Execute)
  resolve r p = lookup (to_path_string p) r.tree_commands

  unfoldable pub list_children : CommandRegistry Execute → CommandPath → List CommandPath
  list_children r p = filter_map (child_of p (child_prefix p)) (keys r.tree_commands)

  -- `path.join(" ")` where the registry resolves it.
  unfoldable pub registered_command_label : CommandRegistry Execute → List String → Option String
  registered_command_label r segments = elim (resolve r (record { segments = segments })) [
    | some command ↦ some (join " " segments)
    | none ↦ none
  ]
