-- ===== src/Telemetry/Env/Advertised.antt =====
-- What the help advertises (src/telemetry/env.rs).
use cli_framework.Prelude.{
  ◌≡◌, ◌↔◌, ◌⊎◌, inl, inr, refl, subst, String, Bool, true, false, List, [], ◌∷◌, ◌++◌, some, In,
  here, there, In-cons, In-append, In-append_left, In-append_right, not-In-nil, Bool-cases,
  Option-cases,
}
use cli_framework.Prelude.Text.{has_char, strip_prefix}
use cli_framework.Config.Manifest.{ConfigManifest, LeafField, iter_leaves, attributes}
use cli_framework.Telemetry.Env.{env_var_name}
use cli_framework.Telemetry.Env.Help.{
  HelpRows, general_entries, probe_entry, described, help_row, help_rows, help_entries,
}

-- A leaf of the telemetry section that is not the framework's own state, and whether it is nested.
pub record IsShown (leaf : LeafField) (nested : Bool) : Type 0 where
  pub rest : String
  pub below : strip_prefix leaf.path "telemetry." ≡ some rest
  pub settable : (attributes leaf.field).local_only ≡ false
  pub dotted : has_char 46 rest ≡ nested

abbrev row_of : String → LeafField → String × String
row_of app leaf = (env_var_name app leaf.path, described leaf)

module _ (app : String) where
  -- What one round does.
  data Round (rows : HelpRows) (leaf : LeafField) : HelpRows → Type 0 where
    skipped : Round rows leaf rows
    switch : IsShown leaf true → Round rows leaf (record rows { has_probe_switch = true })
    setting :
        IsShown leaf false
        → Round rows leaf (record rows { out = rows.out ++ row_of app leaf ∷ [] })

  help_row-Round : (rows : HelpRows) (leaf : LeafField) → Round rows leaf (help_row app rows leaf)
  unfolding help_row
  help_row-Round rows leaf = elim (Option-cases (strip_prefix leaf.path "telemetry.")) [
    | inl e ↦ rw (help_row, e) skipped
    | inr (rest, e) ↦ elim (Bool-cases (attributes leaf.field).local_only) [
      | inl l ↦ rw (help_row, e, l) skipped
      | inr l ↦ elim (Bool-cases (has_char 46 rest)) [
        | inl d ↦
            rw (help_row, e, l, d)
              (switch record { rest = rest; below = e; settable = l; dotted = d })
        | inr d ↦
            rw (help_row, e, l, d)
              (setting record { rest = rest; below = e; settable = l; dotted = d })
      ]
    ]
  ]

  -- The leaf whose row it is.
  abbrev pub IsListed : List LeafField → String × String → Type 0
  IsListed leaves row =
      (leaf : LeafField) × (In leaf leaves × (IsShown leaf false × (row_of app leaf ≡ row)))

  Round-sound :
      (rows after : HelpRows) (leaf : LeafField) (row : String × String)
      → Round rows leaf after
      → In row after.out
      → In row rows.out ⊎ (IsShown leaf false × (row_of app leaf ≡ row))
  Round-sound rows _ leaf row skipped m = inl m
  Round-sound rows _ leaf row (switch s) m = inl m
  Round-sound rows _ leaf row (setting s) m = elim (In-append rows.out m) [
    | inl old ↦ inl old
    | inr new ↦ elim (In-cons new) [ inl e ↦ inr (s, e) | inr n ↦ absurd (not-In-nil n) ]
  ]

  Round-switch :
      (rows after : HelpRows) (leaf : LeafField)
      → Round rows leaf after
      → after.has_probe_switch ≡ true
      → (rows.has_probe_switch ≡ true) ⊎ IsShown leaf true
  Round-switch rows _ leaf skipped h = inl h
  Round-switch rows _ leaf (switch s) h = inr s
  Round-switch rows _ leaf (setting s) h = inl h

  help_rows_sound :
      (rows : HelpRows) (leaves : List LeafField) (row : String × String)
      → In row (help_rows app rows leaves).out
      → In row rows.out ⊎ IsListed leaves row
  unfolding help_rows
  help_rows_sound rows [] row m = inl m
  help_rows_sound rows (leaf ∷ leaves) row m =
      elim (help_rows_sound (help_row app rows leaf) leaves row m) [
        | inr (other, (n, s)) ↦ inr (other, (there n, s))
        | inl n ↦
            elim (Round-sound rows (help_row app rows leaf) leaf row (help_row-Round rows leaf) n) [
              | inl old ↦ inl old
              | inr s ↦ inr (leaf, (here refl, s))
            ]
      ]

  Round-kept :
      (rows after : HelpRows) (leaf : LeafField)
      → Round rows leaf after
      → ((row : String × String) → In row rows.out → In row after.out)
        × (rows.has_probe_switch ≡ true → after.has_probe_switch ≡ true)
  Round-kept rows _ leaf skipped = (λ row m. m, λ h. h)
  Round-kept rows _ leaf (switch s) = (λ row m. m, λ h. refl)
  Round-kept rows _ leaf (setting s) = (λ row m. In-append_left (row_of app leaf ∷ []) m, λ h. h)

  help_rows_kept :
      (rows : HelpRows) (leaves : List LeafField)
      → ((row : String × String) → In row rows.out → In row (help_rows app rows leaves).out)
        × (rows.has_probe_switch ≡ true → (help_rows app rows leaves).has_probe_switch ≡ true)
  unfolding help_rows
  help_rows_kept rows [] = (λ row m. m, λ h. h)
  help_rows_kept rows (leaf ∷ leaves) =
      let (first, switched) =
        Round-kept rows (help_row app rows leaf) leaf (help_row-Round rows leaf) in
      let (later, kept) = help_rows_kept (help_row app rows leaf) leaves in
      (λ row m. later row (first row m), λ h. kept (switched h))

  shown_row :
      (rows : HelpRows) (leaf : LeafField)
      → IsShown leaf false
      → In (row_of app leaf) (help_row app rows leaf).out
  unfolding help_row
  shown_row rows leaf s =
      rw (help_row, s.below, s.settable, s.dotted) (In-append_right rows.out (here refl))

  shown_switch :
      (rows : HelpRows) (leaf : LeafField)
      → IsShown leaf true
      → (help_row app rows leaf).has_probe_switch ≡ true
  unfolding help_row
  shown_switch rows leaf s = rw (help_row, s.below, s.settable, s.dotted) refl

  help_rows_complete :
      (rows : HelpRows) (leaves : List LeafField) (leaf : LeafField)
      → In leaf leaves
      → (IsShown leaf false → In (row_of app leaf) (help_rows app rows leaves).out)
        × (IsShown leaf true → (help_rows app rows leaves).has_probe_switch ≡ true)
  unfolding help_rows
  help_rows_complete rows [] leaf m = absurd (not-In-nil m)
  help_rows_complete rows (first ∷ leaves) leaf m = elim (In-cons m) [
    | inl same ↦
        let (kept, switched) = help_rows_kept (help_row app rows first) leaves in
        subst
          (λ (l : LeafField).
            (IsShown l false → In (row_of app l) (help_rows app rows (first ∷ leaves)).out)
            × (IsShown l true → (help_rows app rows (first ∷ leaves)).has_probe_switch ≡ true))
          same
          (
            λ s. kept (row_of app first) (shown_row rows first s),
            λ s. switched (shown_switch rows first s),
          )
    | inr later ↦ help_rows_complete (help_row app rows first) leaves leaf later
  ]

  switch_sound :
      (rows : HelpRows) (leaves : List LeafField)
      → (help_rows app rows leaves).has_probe_switch ≡ true
      → (rows.has_probe_switch ≡ true) ⊎ ((leaf : LeafField) × (In leaf leaves × IsShown leaf true))
  unfolding help_rows
  switch_sound rows [] h = inl h
  switch_sound rows (leaf ∷ leaves) h = elim (switch_sound (help_row app rows leaf) leaves h) [
    | inr (other, (m, s)) ↦ inr (other, (there m, s))
    | inl k ↦ elim (Round-switch rows (help_row app rows leaf) leaf (help_row-Round rows leaf) k) [
      | inl old ↦ inl old
      | inr s ↦ inr (leaf, (here refl, s))
    ]
  ]

  -- The rows before the loop, and those after it.
  abbrev start : HelpRows
  start = record { out = general_entries app; has_probe_switch = false }

  In-help_entries :
      (manifest : ConfigManifest) (row : String × String)
      → In row (help_entries app manifest) ↔ (
          In row (help_rows app start (iter_leaves manifest)).out
          ⊎ ((probe_entry app ≡ row)
              × ((help_rows app start (iter_leaves manifest)).has_probe_switch ≡ true)))
  unfolding help_entries
  In-help_entries manifest row =
      elim (Bool-cases (help_rows app start (iter_leaves manifest)).has_probe_switch) [
        | inr e ↦ rw (help_entries, e) (λ m. inl m, λ s. elim s [ inl m ↦ m | inr (_, h) ↦ cc ])
        | inl e ↦
            rw (help_entries, e)
              (
                λ m. elim (In-append (help_rows app start (iter_leaves manifest)).out m) [
                  | inl old ↦ inl old
                  | inr new ↦ elim (In-cons new) [
                    | inl same ↦ inr (same, refl)
                    | inr n ↦ absurd (not-In-nil n)
                  ]
                ],
                λ s. elim s [
                  | inl m ↦ In-append_left (probe_entry app ∷ []) m
                  | inr (same, _) ↦
                      In-append_right (help_rows app start (iter_leaves manifest)).out (here same)
                ],
              )
      ]

  -- The rows of the help are the general ones, the row of every leaf of the telemetry section that
  -- is neither the framework's own nor nested, and the row on probes where some such leaf is nested.
  pub help_entries_iff :
      (manifest : ConfigManifest) (row : String × String)
      → In row (help_entries app manifest) ↔ (
          In row (general_entries app)
          ⊎ (IsListed (iter_leaves manifest) row
              ⊎ ((probe_entry app ≡ row)
                  × ((leaf : LeafField) × (In leaf (iter_leaves manifest) × IsShown leaf true)))))
  unfolding help_entries
  help_entries_iff manifest row = (
    λ m. elim ((In-help_entries manifest row).0 m) [
      | inr (same, h) ↦ elim (switch_sound start (iter_leaves manifest) h) [
        | inl k ↦ cc
        | inr s ↦ inr (inr (same, s))
      ]
      | inl n ↦ elim (help_rows_sound start (iter_leaves manifest) row n) [
        | inl general ↦ inl general
        | inr s ↦ inr (inl s)
      ]
    ],
    λ s. (In-help_entries manifest row).1 (elim s [
      | inl general ↦ inl ((help_rows_kept start (iter_leaves manifest)).0 row general)
      | inr (inl (leaf, (m, (shown, same)))) ↦ inl (
          subst (λ (r : String × String). In r (help_rows app start (iter_leaves manifest)).out)
            same ((help_rows_complete start (iter_leaves manifest) leaf m).0 shown))
      | inr (inr (same, (leaf, (m, shown)))) ↦
          inr (same, (help_rows_complete start (iter_leaves manifest) leaf m).1 shown)
    ]),
  )
