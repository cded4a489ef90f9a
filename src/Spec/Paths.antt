-- ===== src/Spec/Paths.antt =====
-- src/spec/command_tree.rs: CommandPath, a command's place in the tree.
pub mod Texts
pub mod Laws
use cli_framework.Prelude.{
  String, Bool, List, [], ◌∷◌, ◌++◌, Option, none, some, Result, ok, err, if◌then◌else◌,
}
use cli_framework.Prelude.Text.{has_char, join}

pub record CommandPath : Type 0 where
  pub segments : List String

pub data CommandPathError : Type 0 where
  invalid_segment : String → CommandPathError

-- `segment.contains('/')`
abbrev pub has_slash : String → Bool
has_slash = has_char 47

unfoldable pub check_segments : List String → Result CommandPathError (List String)
check_segments [] = ok []
check_segments (s ∷ rest) =
    let checked = check_segments rest in
    if has_slash s
    then err (invalid_segment s)
    else elim checked [ ok tail ↦ ok (s ∷ tail) | err e ↦ err e ]

-- `CommandPath::new`
unfoldable pub new_path : List String → Result CommandPathError CommandPath
new_path segments = elim (check_segments segments) [
  | ok checked ↦ ok record { segments = checked }
  | err e ↦ err e
]

abbrev pub root_for : String → CommandPath
root_for id = record { segments = id ∷ [] }

unfoldable pub to_path_string : CommandPath → String
to_path_string p = join "/" p.segments

-- `segments[..segments.len() - 1]`, and nothing of an empty list.
abbrev pub all_but_last : List String → List String
all_but_last [] = []
all_but_last (s ∷ []) = []
all_but_last (s ∷ t ∷ rest) = s ∷ all_but_last (t ∷ rest)

abbrev pub last : List String → Option String
last [] = none
last (s ∷ []) = some s
last (s ∷ t ∷ rest) = last (t ∷ rest)

unfoldable pub parent : CommandPath → Option CommandPath
parent p = elim p.segments [
  | [] ↦ none
  | s ∷ [] ↦ none
  | s ∷ t ∷ rest ↦ some record { segments = all_but_last (s ∷ t ∷ rest) }
]

unfoldable pub push : CommandPath → String → Result CommandPathError CommandPath
push p segment =
    if has_slash segment
    then err (invalid_segment segment)
    else ok record { segments = p.segments ++ segment ∷ [] }

unfoldable pub leaf : CommandPath → Option String
leaf p = last p.segments
