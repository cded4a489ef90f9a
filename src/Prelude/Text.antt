-- ===== src/Prelude/Text.antt =====
-- The text operations of the standard library that the code calls.
use Prim.Native.Nat.{ℕ, ◌-◌}
use Prim.Native.Char.{Char, code}
use Prim.Native.String
use Prim.Native.String.{String, [], ◌∷◌, slice, len}
use mathlib.Core.Bool.{Bool, true, false, ◌&&◌, ◌||◌}
use mathlib.Core.List.{List}
use mathlib.Core.Option.{Option, none, some}
use text.Mathlib.Text.{starts_with, ◌==◌}
use cli_framework.Prelude.Tests.{eqb, leb}

-- `text.contains(separator)`
unfoldable pub has_char : ℕ → String → Bool
has_char separator [] = false
has_char separator (c ∷ s) = eqb (code c) separator || has_char separator s

abbrev pub push_front : Char → List String → List String
push_front c List.[] = List.◌∷◌ (c ∷ []) List.[]
push_front c (List.◌∷◌ w ws) = List.◌∷◌ (c ∷ w) ws

-- `text.split(separator)`: at least one piece.
unfoldable pub split : ℕ → String → List String
split separator [] = List.◌∷◌ "" List.[]
split separator (c ∷ s) =
    let rest = split separator s in
    elim (eqb (code c) separator) [ true ↦ List.◌∷◌ "" rest | false ↦ push_front c rest ]

-- `pieces.join(separator)`
unfoldable pub join : String → List String → String
join separator List.[] = ""
join separator (List.◌∷◌ w List.[]) = w
join separator (List.◌∷◌ w (List.◌∷◌ v ws)) =
    String.◌++◌ w (String.◌++◌ separator (join separator (List.◌∷◌ v ws)))

-- `text.chars().all(p)`
unfoldable pub all_chars : (Char → Bool) → String → Bool
all_chars p [] = true
all_chars p (c ∷ s) = p c && all_chars p s

-- `c` becomes the character that stands in the second text where `c` stands in the first.
abbrev swap_in : String → String → Char → Char
swap_in (a ∷ old) (b ∷ new) c = elim (eqb (code a) (code c)) [
  | true ↦ b
  | false ↦ swap_in old new c
]
swap_in _ _ c = c

abbrev pub map_chars : (Char → Char) → String → String
map_chars f [] = []
map_chars f (c ∷ s) = f c ∷ map_chars f s

-- `text.to_ascii_uppercase()` and `text.to_ascii_lowercase()`
unfoldable pub to_ascii_uppercase : String → String
to_ascii_uppercase = map_chars (swap_in "abcdefghijklmnopqrstuvwxyz" "ABCDEFGHIJKLMNOPQRSTUVWXYZ")

unfoldable pub to_ascii_lowercase : String → String
to_ascii_lowercase = map_chars (swap_in "ABCDEFGHIJKLMNOPQRSTUVWXYZ" "abcdefghijklmnopqrstuvwxyz")

-- `text.replace([a, b], "_")` for two characters by their numbers.
unfoldable pub to_underscore : ℕ → ℕ → String → String
to_underscore a b [] = []
to_underscore a b (c ∷ s) = elim (eqb (code c) a || eqb (code c) b) [
  | true ↦ String.◌++◌ "_" (to_underscore a b s)
  | false ↦ c ∷ to_underscore a b s
]

-- `text.contains(wanted)` for a text: one of the places begins with it.
unfoldable pub contains_text : String → String → Bool
contains_text wanted [] = wanted == ""
contains_text wanted (c ∷ s) = starts_with (c ∷ s) wanted || contains_text wanted s

-- `char::is_whitespace`
abbrev is_whitespace : Char → Bool
is_whitespace c =
    (leb 9 (code c) && leb (code c) 13)
    || eqb (code c) 32
    || eqb (code c) 0x85
    || eqb (code c) 0xa0
    || eqb (code c) 0x1680
    || (leb 0x2000 (code c) && leb (code c) 0x200a)
    || eqb (code c) 0x2028
    || eqb (code c) 0x2029
    || eqb (code c) 0x202f
    || eqb (code c) 0x205f
    || eqb (code c) 0x3000

-- `text.trim().is_empty()`
unfoldable pub is_blank : String → Bool
is_blank = all_chars is_whitespace

-- `text.strip_prefix(start)` and `text.strip_suffix(ending)`
unfoldable pub strip_prefix : String → String → Option String
strip_prefix s start = elim (starts_with s start) [
  | true ↦ some (slice s (len start) (len s))
  | false ↦ none
]

unfoldable pub strip_suffix : String → String → Option String
strip_suffix s ending = elim (slice s (len s - len ending) (len s) == ending) [
  | true ↦ some (slice s 0 (len s - len ending))
  | false ↦ none
]
