-- ===== src/Telemetry/Probe/Grammar.antt =====
-- Which texts are probe ids (src/telemetry/probe.rs).
use Prim.Native.Char.{Char, code}
use cli_framework.Prelude.{
  ◌≡◌, ◌≢◌, ◌↔◌, refl, sym, subst, ◌∙◌, is_some, String, Bool, true, false, not, ◌&&◌, List, Option,
  none, some, Result, ok, err, All, contains, eqb, arith, eq_iff, ◌==◌, find, if◌then◌else◌,
}
use cli_framework.Prelude.Text.{has_char, join, split, all_chars}
use cli_framework.Prelude.Splitting
use cli_framework.Telemetry.Probe.{
  check_segments, check_id, validate_probe_id, is_word_char, is_lower_or_digit, ProbeIdError,
  malformed, reserved, reserved_first_segments,
}

-- A segment: a name over the characters that pass the test.
abbrev pub IsSegment : (Char → Bool) → String → Type 0
IsSegment test s = (s ≢ "") × (all_chars test s ≡ true)

-- The first segment has letters and digits and is not reserved.
abbrev pub IsFirst : String → Type 0
IsFirst s = IsSegment is_lower_or_digit s × (contains reserved_first_segments s ≡ false)

-- A later one may have underscores, and is not the framework's own leaf.
abbrev pub IsLater : String → Type 0
IsLater s = IsSegment is_word_char s × (s ≢ "enabled")

-- An id: such segments with dots between them.
abbrev pub IsProbeId : String → Type 0
IsProbeId id =
    (first : String) × ((rest : List String) × ((id ≡ join "." (List.◌∷◌ first rest))
        × (IsFirst first × All IsLater rest)))

no_dot_char : (c : Char) → is_word_char c ≡ true → eqb (code c) 46 ≡ false
no_dot_char c h = ground arith

pub no_dot_first : (s : String) → all_chars is_lower_or_digit s ≡ true → has_char 46 s ≡ false
unfolding all_chars has_char
no_dot_first String.[] h = refl
no_dot_first (String.◌∷◌ c s) h = ground (arith, no_dot_char c, no_dot_first s)

pub no_dot_later : (s : String) → all_chars is_word_char s ≡ true → has_char 46 s ≡ false
unfolding all_chars has_char
no_dot_later String.[] h = refl
no_dot_later (String.◌∷◌ c s) h = ground (arith, no_dot_char c, no_dot_later s)

later_free : (rest : List String) → All IsLater rest → All (λ x. has_char 46 x ≡ false) rest
later_free List.[] h = tt
later_free (List.◌∷◌ s rest) (((_, word), _), h) = (no_dot_later s word, later_free rest h)

check_segments_iff :
    (id : String) (segments : List String)
    → (check_segments id segments ≡ ok tt) ↔ All IsLater segments
unfolding check_segments
check_segments_iff id List.[] = (λ _. tt, λ _. refl)
check_segments_iff id (List.◌∷◌ s rest) =
    ground (arith, check_segments_iff id rest, eq_iff s "", eq_iff s "enabled")

is_some-find :
    (s : String) (names : List String) → is_some (find (λ r. r == s) names) ≡ contains names s
is_some-find s List.[] = refl
is_some-find s (List.◌∷◌ n names) = ground (arith, is_some-find s names)

-- The tests on the first segment, one after the other.
passes :
    (id : String) (found : Option String) (first : String) (rest : Result ProbeIdError (Unit {0}))
    → ((elim found [
      | some r ↦ err (reserved id r)
      | none ↦
          if not (not (first == "") && all_chars is_lower_or_digit first)
          then err (malformed id)
          else rest
    ])
        ≡ ok tt)
      ↔ ((is_some found ≡ false) × (IsSegment is_lower_or_digit first × (rest ≡ ok tt)))
passes id none first rest = ground (arith, eq_iff first "")
passes id (some r) first rest = (λ h. cc, λ (h, _). cc)

check_id_iff :
    (id first : String) (rest : List String)
    → (check_id id (List.◌∷◌ first rest) ≡ ok tt) ↔ (IsFirst first × All IsLater rest)
unfolding check_id
check_id_iff id first rest =
    let (there, back) =
      passes id (find (λ r. r == first) reserved_first_segments) first (check_segments id rest) in
    let later = check_segments_iff id rest in
    let found = is_some-find first reserved_first_segments in
    (
      λ h. let (fresh, (shape, ok_rest)) = there h in ((shape, sym found ∙ fresh), later.0 ok_rest),
      λ ((shape, fresh), h). back (found ∙ fresh, (shape, later.1 h)),
    )

-- The segments of an id.
pub pieces_of_id :
    (id : String)
    → IsProbeId id
    → (first : String) × ((rest : List String) × ((split 46 id ≡ List.◌∷◌ first rest)
          × (IsFirst first × All IsLater rest)))
pieces_of_id id (first, (rest, (e, ((shape, fresh), later)))) = (
  first,
  (
    rest,
    (
      subst (λ t. split 46 t ≡ List.◌∷◌ first rest) (sym e)
          (Splitting.split-join "." first rest (no_dot_first first shape.1, later_free rest later)),
      ((shape, fresh), later),
    ),
  ),
)

-- A text is accepted as a probe id exactly where it is segments with dots between them, the first
-- of small letters and digits and none of the reserved words, the others of small letters, digits
-- and underscores and none of them `enabled`.
pub validate_probe_id_iff : (id : String) → (validate_probe_id id ≡ ok tt) ↔ IsProbeId id
unfolding validate_probe_id
validate_probe_id_iff id = (
  λ h.
      let (w, (ws, k)) = Splitting.split-cons "." id in
      let checked : check_id id (List.◌∷◌ w ws) ≡ ok tt = subst (λ l. check_id id l ≡ ok tt) k h in
      (
        w,
        (
          ws,
          (
            sym (subst (λ l. join "." l ≡ id) k (Splitting.join-split "." id)),
            (check_id_iff id w ws).0 checked,
          ),
        ),
      ),
  λ h.
      let (first, (rest, (pieces, good))) = pieces_of_id id h in
      subst (λ l. check_id id l ≡ ok tt) (sym pieces) ((check_id_iff id first rest).1 good),
)
