-- ===== src/Secrets/Key.antt =====
-- src/secrets/key.rs: a secret's path of validated segments.
pub mod Laws
use Prim.Native.Char.{code}
use Prim.Native.String
use Prim.Native.String.{[], ◌∷◌}
use cli_framework.Prelude.{
  ℕ, String, Bool, true, false, not, ◌&&◌, ◌||◌, List, Result, ok, err, leb, eqb, if◌then◌else◌,
  ◌==◌,
}
use cli_framework.Prelude.Text.{split}

pub record SecretKey : Type 0 where
  pub text : String

pub data SecretKeyError : Type 0 where
  empty empty_segment : SecretKeyError
  invalid_segment : String → SecretKeyError

-- `c.is_ascii_alphanumeric()` of a character's code.
abbrev pub is_ascii_alphanumeric : ℕ → Bool
is_ascii_alphanumeric c =
    (leb 48 c && leb c 57) || (leb 65 c && leb c 90) || (leb 97 c && leb c 122)

-- `_`, `-` and `.` besides.
abbrev pub is_allowed : ℕ → Bool
is_allowed c = is_ascii_alphanumeric c || eqb c 95 || eqb c 45 || eqb c 46

unfoldable pub all_allowed : String → Bool
all_allowed [] = true
all_allowed (c ∷ s) = is_allowed (code c) && all_allowed s

unfoldable pub validate_segment : String → Result SecretKeyError (Unit {0})
validate_segment segment =
    if segment == ""
    then err empty_segment
    else if segment == "." || segment == ".."
    then err (invalid_segment segment)
    else if not (all_allowed segment)
    then err (invalid_segment segment)
    else ok tt

-- The loop: what is joined so far, and whether there was a segment.
unfoldable pub join_segments : String → Bool → List String → Result SecretKeyError (String × Bool)
join_segments joined any List.[] = ok (joined, any)
join_segments joined any (List.◌∷◌ segment rest) =
    let next = if any then String.◌++◌ joined "/" else joined in
    let more = join_segments (String.◌++◌ next segment) true rest in
    elim (validate_segment segment) [ ok done ↦ more | err e ↦ err e ]

-- `SecretKey::new`
unfoldable pub new_key : List String → Result SecretKeyError SecretKey
new_key segments = elim (join_segments "" false segments) [
  | err e ↦ err e
  | ok found ↦ if not found.1 then err empty else ok record { text = found.0 }
]

-- `SecretKey::parse`
unfoldable pub parse_key : String → Result SecretKeyError SecretKey
parse_key path = new_key (split 47 path)

unfoldable pub segments_of : SecretKey → List String
segments_of key = split 47 key.text
