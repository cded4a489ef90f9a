-- ===== src/Commands/Registry/Children.antt =====
-- The children that a registry lists for a path (src/command/registry.rs).
use Prim.Native.String
use Prim.Native.String.{len, slice}
use text.Mathlib.Text.{starts_with}
use text.Mathlib.TextLemmas.{append_assoc, nil-append}
use text.Mathlib.TextEquality.{starts_with_iff}
use text.Mathlib.TextPositions.{starts_with-append, slice-append_right, len-append}
use cli_framework.Prelude.{
  String, ◌≡◌, refl, sym, ap, ◌∙◌, subst, ◌↔◌, true, false, not, ◌&&◌, List, [], ◌∷◌, ◌++◌, Option,
  none, some, In, In-cons, here, there, Bool-cases, Option-cases, inl, inr, ◌==◌, if◌then◌else◌,
  Map, contains-of-In, In-of-contains,
}
use cli_framework.Prelude.Maps.{keys, contains_key, lookup-contains}
use cli_framework.Prelude.Text.{join}
use cli_framework.Spec.Paths.{CommandPath, has_slash, to_path_string}
use cli_framework.Prelude.{some-inj}
use cli_framework.Commands.Registry.{
  CommandRegistry, rest_after, child_of, child_prefix, filter_map, list_children,
}

-- The rest of a text after a prefix of it.
rest_after-append : (start rest : String) → rest_after (String.◌++◌ start rest) start ≡ rest
rest_after-append start rest = rw (len-append start rest) (slice-append_right start rest)

In-filter_map :
    {A B : Type 0} (f : A → Option B) (b : B) (xs : List A)
    → In b (filter_map f xs) ↔ ((a : A) × (In a xs × (f a ≡ some b)))
In-filter_map f b [] = (λ m. elim m [ ], λ (a, (m, _)). elim m [ ])
In-filter_map f b (x ∷ xs) =
    let rest = In-filter_map f b xs in
    elim (Option-cases (f x)) [
      | inl e ↦
          rw (filter_map, e)
            (
              λ m. let (a, (n, k)) = rest.0 m in (a, (there n, k)),
              λ (a, (m, k)). elim (In-cons m) [ inl same ↦ cc | inr n ↦ rest.1 (a, (n, k)) ],
            )
      | inr (y, e) ↦
          rw (filter_map, e)
            (
              λ m. elim (In-cons m) [
                | inl same ↦ (x, (here refl, e ∙ ap some same))
                | inr n ↦ let (a, (n, k)) = rest.0 n in (a, (there n, k))
              ],
              λ (a, (m, k)). elim (In-cons m) [
                | inl same ↦ here (some-inj (sym e ∙ ap f same ∙ k))
                | inr n ↦ there (rest.1 (a, (n, k)))
              ],
            )
    ]

-- What makes a key the child of a path by a segment.
IsChild : CommandPath → String → String → CommandPath → String → Type 0
IsChild p start key q segment =
    (key ≡ String.◌++◌ start segment)
    × ((has_slash segment ≡ false)
        × (((segment == "") ≡ false) × (q ≡ record { segments = p.segments ++ segment ∷ [] })))

child_of-some :
    (p q : CommandPath) (start key : String)
    → child_of p start key ≡ some q
    → (segment : String) × IsChild p start key q segment
unfolding child_of IsChild
child_of-some p q start key h = elim (Bool-cases (starts_with key start)) [
  | inr e ↦ cc (rw (child_of, e) at h)
  | inl e ↦
      let (rest, k) = (starts_with_iff key start).0 e in
      let same : rest_after key start ≡ rest =
        ap (λ x. rest_after x start) (sym k) ∙ rest_after-append start rest in
      let h : (if not (has_slash rest) && not (rest == "")
            then some record { segments = p.segments ++ rest ∷ [] }
            else none)
          ≡ some q =
        rw (child_of, e, same) at h in
      elim (Bool-cases (has_slash rest)) [
        | inl a ↦ cc (rw a at h)
        | inr a ↦ elim (Bool-cases (rest == "")) [
          | inl b ↦ cc (rw (a, b) at h)
          | inr b ↦ (rest, (sym k, (a, (b, sym (some-inj (rw (a, b) at h))))))
        ]
      ]
]

child_of-child :
    (p q : CommandPath) (start key segment : String)
    → IsChild p start key q segment
    → child_of p start key ≡ some q
unfolding child_of IsChild
child_of-child p q start key segment (place, (slashless, (nonempty, same))) =
    let begins : starts_with key start ≡ true =
      subst (λ x. starts_with x start ≡ true) (sym place) (starts_with-append start segment) in
    let rest : rest_after key start ≡ segment =
      ap (λ x. rest_after x start) place ∙ rest_after-append start segment in
    rw (child_of, begins, rest, slashless, nonempty) (ap some (sym same))

join-snoc :
    (s : String) (rest : List String) (segment : String)
    → join "/" (s ∷ rest ++ segment ∷ [])
      ≡ String.◌++◌ (String.◌++◌ (join "/" (s ∷ rest)) "/") segment
unfolding join
join-snoc s [] segment = sym (append_assoc s "/" segment)
join-snoc s (t ∷ rest) segment =
    ap (λ x. String.◌++◌ s (String.◌++◌ "/" x)) (join-snoc t rest segment) ∙ simp append_assoc

-- A child's text is the prefix of its parent and its last segment.
child_prefix-append :
    (segments : List String) (segment : String)
    → String.◌++◌ (child_prefix (record { segments = segments })) segment
      ≡ to_path_string (record { segments = segments ++ segment ∷ [] })
unfolding to_path_string join
child_prefix-append [] segment = nil-append segment
child_prefix-append (s ∷ rest) segment = sym (join-snoc s rest segment)

In-keys_iff : {V : Type 0} (k : String) (m : Map V) → In k (keys m) ↔ (contains_key k m ≡ true)
In-keys_iff k m = (
  λ h. sym (lookup-contains k m) ∙ contains-of-In h,
  λ h. In-of-contains (keys m) k (lookup-contains k m ∙ h),
)

module _ {Execute : Type 0} where
  -- A path is listed as a child exactly when it is the given path with one segment more, which
  -- is not empty and holds no slash, and a command is registered there.
  pub list_children_iff :
      (r : CommandRegistry Execute) (p q : CommandPath)
      → In q (list_children r p) ↔ (
          (segment : String) × ((q ≡ record { segments = p.segments ++ segment ∷ [] })
            × ((has_slash segment ≡ false)
                × (((segment == "") ≡ false)
                    × (contains_key (to_path_string q) r.tree_commands ≡ true)))))
  unfolding list_children IsChild
  list_children_iff r p q =
      let listed = In-filter_map (child_of p (child_prefix p)) q (keys r.tree_commands) in
      let text : (segment : String)
          → String.◌++◌ (child_prefix p) segment
            ≡ to_path_string (record { segments = p.segments ++ segment ∷ [] }) =
        child_prefix-append p.segments in
      (
        λ m.
            let (key, (known, k)) = listed.0 m in
            let (segment, (place, (slashless, (nonempty, same)))) =
              child_of-some p q (child_prefix p) key k in
            let at_key : key ≡ to_path_string q =
              place ∙ text segment ∙ ap to_path_string (sym same) in
            (
              segment,
              (
                same,
                (
                  slashless,
                  (
                    nonempty,
                    subst (λ x. contains_key x r.tree_commands ≡ true) at_key
                        ((In-keys_iff key r.tree_commands).0 known),
                  ),
                ),
              ),
            ),
        λ (segment, (same, (slashless, (nonempty, known)))). listed.1 (
          to_path_string q,
          (
            (In-keys_iff (to_path_string q) r.tree_commands).1 known,
            child_of-child p q (child_prefix p) (to_path_string q) segment
                (ap to_path_string same ∙ sym (text segment), (slashless, (nonempty, same))),
          ),
        ),
      )
