-- ===== src/Secrets/Key/Laws.antt =====
-- Keys and their segments (src/secrets/key.rs).
use Prim.Native.Char.{Char, code}
use Prim.Native.String
use Prim.Native.String.{[], ◌∷◌}
use text.Mathlib.TextLemmas.{append_assoc, nil-append, append-nil}
use cli_framework.Prelude.{
  ok-inj, ℕ, ◌≤◌, ◌⊎◌, &&-split, eq_iff, String, ◌≡◌, refl, sym, ap, ◌∙◌, ◌↔◌, ◌≢◌, Bool, true,
  false, List, ok, arith, All, Result-cases, inl, inr, if◌then◌else◌,
}
use cli_framework.Prelude.Text.{has_char, split, join}
use cli_framework.Spec.Paths.Texts.{split-join}
use cli_framework.Secrets.Key.{
  SecretKey, is_allowed, all_allowed, validate_segment, join_segments, new_key, parse_key,
  segments_of,
}

-- A letter, a digit, `_` (95), `-` (45) or `.` (46), by its number.
abbrev pub IsNameChar : ℕ → Type 0
IsNameChar c =
    ((48 ≤ c) × (c ≤ 57))
    ⊎ (((65 ≤ c) × (c ≤ 90)) ⊎ (((97 ≤ c) × (c ≤ 122)) ⊎ ((c ≡ 95) ⊎ ((c ≡ 45) ⊎ (c ≡ 46)))))

-- Such characters alone.
pub data IsName : String → Type 0 where
  end : IsName ""
  next : (c : Char) (s : String) → IsNameChar (code c) → IsName s → IsName (c ∷ s)

-- A segment: a name that is not empty, and no step in a path.
abbrev pub IsValid : String → Type 0
IsValid s = (s ≢ "") × ((s ≢ ".") × ((s ≢ "..") × IsName s))

is_allowed_iff : (c : ℕ) → (is_allowed c ≡ true) ↔ IsNameChar c
is_allowed_iff c = (λ h. ground arith, λ h. ground arith)

all_allowed-IsName : (s : String) → all_allowed s ≡ true → IsName s
unfolding all_allowed
all_allowed-IsName [] h = end
all_allowed-IsName (c ∷ s) h =
    let (allowed, others) = &&-split (is_allowed (code c)) (all_allowed s) h in
    next c s ((is_allowed_iff (code c)).0 allowed) (all_allowed-IsName s others)

IsName-all_allowed : (s : String) → IsName s → all_allowed s ≡ true
unfolding all_allowed
IsName-all_allowed _ end = refl
IsName-all_allowed _ (next c s allowed others) =
    rw ((is_allowed_iff (code c)).1 allowed, IsName-all_allowed s others) refl

validate_segment_iff : (s : String) → (validate_segment s ≡ ok tt) ↔ IsValid s
unfolding validate_segment
validate_segment_iff s = (
  λ h. ground (arith, eq_iff s "", eq_iff s ".", eq_iff s "..", all_allowed-IsName s),
  λ (nonempty, (one, (two, named))).
      ground (arith, eq_iff s "", eq_iff s ".", eq_iff s "..", IsName-all_allowed s),
)

slash_free : (s : String) → IsName s → has_char 47 s ≡ false
unfolding has_char
slash_free _ end = refl
slash_free _ (next c s allowed others) = ground (arith, slash_free s others)

IsValid-slash_free : (s : String) → IsValid s → has_char 47 s ≡ false
IsValid-slash_free s (_, (_, (_, named))) = slash_free s named

-- The text that the loop makes of valid segments after the first.
suffix : List String → String
suffix List.[] = ""
suffix (List.◌∷◌ s rest) = String.◌++◌ "/" (String.◌++◌ s (suffix rest))

join-cons :
    (s : String) (rest : List String) → join "/" (List.◌∷◌ s rest) ≡ String.◌++◌ s (suffix rest)
unfolding join suffix
join-cons s List.[] = sym (append-nil s)
join-cons s (List.◌∷◌ t rest) = ap (λ x. String.◌++◌ s (String.◌++◌ "/" x)) (join-cons t rest)

join_segments-suffix :
    (joined : String) (segments : List String)
    → All IsValid segments
    → join_segments joined true segments ≡ ok (String.◌++◌ joined (suffix segments), true)
unfolding join_segments suffix
join_segments-suffix joined List.[] h = ap (λ x. ok (x, true)) (sym (append-nil joined))
join_segments-suffix joined (List.◌∷◌ s rest) (valid, h) =
    rw (join_segments, (validate_segment_iff s).1 valid)
      (join_segments-suffix (String.◌++◌ (String.◌++◌ joined "/") s) rest h
        ∙ ap (λ x. ok (x, true))
            (append_assoc (String.◌++◌ joined "/") s (suffix rest)
              ∙ append_assoc joined "/" (String.◌++◌ s (suffix rest))))

join_segments-IsValid :
    (joined : String) (any : Bool) (segments : List String) (found : String × Bool)
    → join_segments joined any segments ≡ ok found
    → All IsValid segments
unfolding join_segments
join_segments-IsValid joined any List.[] found h = tt
join_segments-IsValid joined any (List.◌∷◌ s rest) found h =
    elim (Result-cases (validate_segment s)) [
      | inr (e, k) ↦ cc (rw (join_segments, k) at h)
      | inl (done, k) ↦ (
        (validate_segment_iff s).0 k,
        join_segments-IsValid (String.◌++◌ (if any then String.◌++◌ joined "/" else joined) s) true
            rest found (rw (join_segments, k) at h),
      )
    ]

new_key-IsValid :
    (segments : List String) (key : SecretKey) → new_key segments ≡ ok key → All IsValid segments
unfolding new_key
new_key-IsValid segments key h = elim (Result-cases (join_segments "" false segments)) [
  | inr (e, k) ↦ cc (rw (new_key, k) at h)
  | inl (found, k) ↦ join_segments-IsValid "" false segments found k
]

new_key_valid :
    (s : String) (rest : List String)
    → All IsValid (List.◌∷◌ s rest)
    → new_key (List.◌∷◌ s rest) ≡ ok record { text = join "/" (List.◌∷◌ s rest) }
unfolding new_key join_segments
new_key_valid s rest (valid, h) =
    let made : join_segments "" false (List.◌∷◌ s rest)
        ≡ ok (String.◌++◌ (String.◌++◌ "" s) (suffix rest), true) =
      rw (join_segments, (validate_segment_iff s).1 valid)
        (join_segments-suffix (String.◌++◌ "" s) rest h) in
    rw (new_key, made)
      (ap (λ x. ok record { text = x })
        (ap (λ x. String.◌++◌ x (suffix rest)) (nil-append s) ∙ sym (join-cons s rest)))

-- A key is made of exactly the lists of at least one segment in which every segment is not empty,
-- is neither `.` nor `..`, and has ASCII letters and digits, `_`, `-` and `.` alone; and its text is
-- the segments joined by slashes.
pub new_key_iff :
    (segments : List String) (key : SecretKey)
    → (new_key segments ≡ ok key) ↔ (
        (segments ≢ List.[]) × (All IsValid segments × (record { text = join "/" segments } ≡ key)))
unfolding new_key join_segments
new_key_iff List.[] key = (λ h. cc, λ (nonempty, _). elim (nonempty refl) [ ])
new_key_iff (List.◌∷◌ s rest) key = (
  λ h.
      let valid = new_key-IsValid (List.◌∷◌ s rest) key h in
      (λ e. cc, (valid, ok-inj (sym (new_key_valid s rest valid) ∙ h))),
  λ (_, (valid, same)). new_key_valid s rest valid ∙ ap ok same,
)

All-slash_free :
    (segments : List String) → All IsValid segments → All (λ s. has_char 47 s ≡ false) segments
All-slash_free List.[] h = tt
All-slash_free (List.◌∷◌ s rest) (valid, h) = (IsValid-slash_free s valid, All-slash_free rest h)

split-join_valid :
    (segments : List String)
    → segments ≢ List.[]
    → All IsValid segments
    → split 47 (join "/" segments) ≡ segments
split-join_valid List.[] nonempty h = elim (nonempty refl) [ ]
split-join_valid (List.◌∷◌ s rest) nonempty h =
    split-join s rest (All-slash_free (List.◌∷◌ s rest) h)

-- The segments of a key are those that it was made of, and parsing its text gives the key back.
pub segments_of-new_key :
    (segments : List String) (key : SecretKey)
    → new_key segments ≡ ok key
    → (segments_of key ≡ segments) × (parse_key key.text ≡ ok key)
unfolding segments_of parse_key
segments_of-new_key segments key h =
    let (nonempty, (valid, same)) = (new_key_iff segments key).0 h in
    let parts : split 47 key.text ≡ segments =
      ap (λ k. split 47 k.text) (sym same) ∙ split-join_valid segments nonempty valid in
    (parts, ap new_key parts ∙ h)
