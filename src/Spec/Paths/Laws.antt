-- ===== src/Spec/Paths/Laws.antt =====
-- Paths, their parents and their texts (src/spec/command_tree.rs).
use cli_framework.Prelude.{
  String, ◌≡◌, refl, ap, ◌∙◌, true, false, List, some, ok, err, arith, All, Bool-cases,
  Result-cases, ◌≢◌, inl, inr, ◌++◌, ◌⊎◌,
}
use cli_framework.Prelude.Text.{join, split}
use cli_framework.Spec.Paths.Texts.{split-join}
use cli_framework.Spec.Paths
use cli_framework.Spec.Paths.{
  CommandPath, has_slash, check_segments, new_path, to_path_string, all_but_last, last, parent,
  push, leaf,
}

-- At least one segment, and no slash in any.
abbrev pub IsProper : CommandPath → Type 0
IsProper p = (p.segments ≢ List.[]) × All (λ s. has_slash s ≡ false) p.segments

proper_text :
    (segments : List String)
    → segments ≢ List.[]
    → All (λ s. has_slash s ≡ false) segments
    → split 47 (join "/" segments) ≡ segments
proper_text List.[] nonempty h = elim (nonempty refl) [ ]
proper_text (List.◌∷◌ s rest) nonempty h = split-join s rest h

pub split-to_path_string : (p : CommandPath) → IsProper p → split 47 (to_path_string p) ≡ p.segments
unfolding to_path_string
split-to_path_string p (nonempty, h) = proper_text p.segments nonempty h

check_segments_lem :
    (segments checked : List String)
    → check_segments segments ≡ ok checked
    → (checked ≡ segments) × All (λ s. has_slash s ≡ false) segments
unfolding check_segments
check_segments_lem List.[] checked h = (ground arith, tt)
check_segments_lem (List.◌∷◌ s rest) checked h = elim (Bool-cases (has_slash s)) [
  | inl e ↦ cc (rw e at h)
  | inr e ↦ elim (Result-cases (check_segments rest)) [
    | inl (tail, k) ↦
        let (same, free) = check_segments_lem rest tail k in
        let h : ok (List.◌∷◌ s tail) ≡ ok checked = rw (e, k, check_segments) at h in
        (ground (arith, same), (e, free))
    | inr (x, k) ↦ cc (rw (e, k, check_segments) at h)
  ]
]

new_path-segments :
    (segments : List String) (p : CommandPath)
    → new_path segments ≡ ok p
    → (p.segments ≡ segments) × All (λ s. has_slash s ≡ false) segments
unfolding new_path
new_path-segments segments p h = elim (Result-cases (check_segments segments)) [
  | inl (checked, k) ↦
      let (same, free) = check_segments_lem segments checked k in
      let h : ok record { segments = checked } ≡ ok p = rw (new_path, k) at h in
      (ground (arith, same), free)
  | inr (x, k) ↦ cc (rw (new_path, k) at h)
]

-- The text of a path that `new` built of at least one segment splits into these segments.
pub split-new_path :
    (segments : List String) (p : CommandPath)
    → segments ≢ List.[]
    → new_path segments ≡ ok p
    → split 47 (to_path_string p) ≡ segments
unfolding to_path_string
split-new_path segments p nonempty h =
    let (same, free) = new_path-segments segments p h in
    ap (λ x. split 47 (join "/" x)) same ∙ proper_text segments nonempty free

last-append : (segments : List String) (s : String) → last (segments ++ List.◌∷◌ s List.[]) ≡ some s
last-append List.[] s = refl
last-append (List.◌∷◌ t List.[]) s = refl
last-append (List.◌∷◌ t (List.◌∷◌ u rest)) s = last-append (List.◌∷◌ u rest) s

all_but_last-append :
    (segments : List String) (s : String) → all_but_last (segments ++ List.◌∷◌ s List.[]) ≡ segments
all_but_last-append List.[] s = refl
all_but_last-append (List.◌∷◌ t List.[]) s = refl
all_but_last-append (List.◌∷◌ t (List.◌∷◌ u rest)) s =
    ap (List.◌∷◌ t) (all_but_last-append (List.◌∷◌ u rest) s)

parent-of_child :
    (segments : List String) (s : String)
    → segments ≢ List.[]
    → parent (record { segments = segments ++ List.◌∷◌ s List.[] })
      ≡ some record { segments = segments }
unfolding parent
parent-of_child List.[] s nonempty = elim (nonempty refl) [ ]
parent-of_child (List.◌∷◌ t List.[]) s nonempty = refl
parent-of_child (List.◌∷◌ t (List.◌∷◌ u rest)) s nonempty =
    ap (λ x. some record { segments = x }) (all_but_last-append (List.◌∷◌ t (List.◌∷◌ u rest)) s)

-- `push` refuses a segment exactly when it holds a slash; the path it returns otherwise has that
-- segment as its leaf and, where the path was not empty, that path as its parent.
pub push_lem :
    (p : CommandPath) (s : String)
    → ((has_slash s ≡ true) × (push p s ≡ err (Paths.invalid_segment s)))
      ⊎ ((has_slash s ≡ false)
          × ((q : CommandPath) × ((push p s ≡ ok q)
                × ((leaf q ≡ some s) × (p.segments ≢ List.[] → parent q ≡ some p)))))
unfolding push leaf
push_lem p s = elim (Bool-cases (has_slash s)) [
  | inl e ↦ inl (e, rw e refl)
  | inr e ↦ inr (
    e,
    (
      record { segments = p.segments ++ List.◌∷◌ s List.[] },
      (rw e refl, (last-append p.segments s, parent-of_child p.segments s)),
    ),
  )
]
