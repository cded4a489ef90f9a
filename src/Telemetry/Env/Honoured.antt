-- ===== src/Telemetry/Env/Honoured.antt =====
-- The scan of the environment takes what the help advertises (src/telemetry/env.rs).
use Prim.Native.String
use text.Mathlib.Text.{starts_with}
use cli_framework.Prelude.{
  ◌≡◌, ◌≢◌, ◌⊎◌, inl, inr, refl, sym, ap, ◌∙◌, subst, String, false, not, List, [], ◌∷◌, Option,
  none, some, In, here, there, In-cons, In-append, not-In-nil, find, eq_iff, ◌==◌, ◌&&◌, Bool-cases,
  Option-cases,
}
use cli_framework.Prelude.Maps.{lookup, lookup-insert}
use cli_framework.Prelude.Sorting.{In-sort_by}
use cli_framework.Prelude.TextOrder.{le_text}
use cli_framework.Json.{Float, Value}
use cli_framework.Config.Manifest.{ConfigManifest, LeafField, iter_leaves, kind}
use cli_framework.Telemetry.Policy.{env_var_prefix}
use cli_framework.Telemetry.Env.{
  EnvScan, KnownVariable, env_var_name, known_variables, scan_variable, scan_variables,
  scan_environment, typed,
}
use cli_framework.Telemetry.Env.Help.{general_entries, probe_entry, help_entries}
use cli_framework.Telemetry.Env.Variables.{
  variable_of, shown_path, In-known_variables, variable-In, find_variable, name_apart,
}
use cli_framework.Telemetry.Env.Advertised.{IsShown, help_entries_iff}

-- The scan, where the search for `name` finds `k`, and no other name leads to the path of `k`.
module _ (parse_f64 : String → Option Float) (app : String) (known : List KnownVariable)
    (name raw : String) (k : KnownVariable) (found : find (λ v. v.variable == name) known ≡ some k)
    (apart : (other : String) (v : KnownVariable)
      → find (λ v. v.variable == other) known ≡ some v
      → v.path ≡ k.path
      → other ≡ name) where
  abbrev given : Option Value
  given = some (typed parse_f64 k.field_kind raw)

  scan_variable-found :
      (scan : EnvScan)
      → lookup k.path (scan_variable parse_f64 app known scan (name, raw)).values ≡ given
  unfolding scan_variable
  scan_variable-found scan =
      let same = (eq_iff k.path k.path).1 refl in
      rw
        (
          scan_variable,
          found,
          lookup-insert k.path k.path (typed parse_f64 k.field_kind raw) scan.values,
          same,
        )
        refl

  scan_variable-kept :
      (scan : EnvScan) (other value : String)
      → other ≢ name
      → lookup k.path (scan_variable parse_f64 app known scan (other, value)).values
        ≡ lookup k.path scan.values
  unfolding scan_variable
  scan_variable-kept scan other value differs =
      elim (Option-cases (find (λ v. v.variable == other) known)) [
        | inl e ↦
            rw (scan_variable, e)
              (elim (Bool-cases (
                starts_with other (String.◌++◌ (env_var_prefix app) "_TELEMETRY_")
                && not (other == String.◌++◌ (env_var_prefix app) "_TELEMETRY_DISABLED"))) [
                  | inl b ↦ rw b refl
                  | inr b ↦ rw b refl
                ])
        | inr (v, e) ↦ elim (Bool-cases (v.path == k.path)) [
          | inl b ↦ absurd (differs (apart other v e ((eq_iff v.path k.path).0 b)))
          | inr b ↦
              rw
                (
                  scan_variable,
                  e,
                  lookup-insert v.path k.path (typed parse_f64 v.field_kind value) scan.values,
                  b,
                )
                refl
        ]
      ]

  scan_variables-value :
      (scan : EnvScan) (vars : List (String × String))
      → ((other : String) → In (name, other) vars → other ≡ raw)
      → (lookup k.path scan.values ≡ given) ⊎ In (name, raw) vars
      → lookup k.path (scan_variables parse_f64 app known scan vars).values ≡ given
  unfolding scan_variables
  scan_variables-value scan [] once (inl h) = h
  scan_variables-value scan [] once (inr m) = absurd (not-In-nil m)
  scan_variables-value scan ((other, value) ∷ vars) once h =
      let later =
        scan_variables-value (scan_variable parse_f64 app known scan (other, value)) vars
          (λ v m. once v (there m)) in
      elim (Bool-cases (other == name)) [
        | inl e ↦
            let same = (eq_iff other name).0 e in
            let whole = once value (here (ap (λ n. (n, value)) same)) in
            later (
              inl (
                subst
                  (λ (var : String × String).
                    lookup k.path (scan_variable parse_f64 app known scan var).values ≡ given)
                  (ap (λ n. (n, raw)) (sym same) ∙ ap (λ v. (other, v)) (sym whole))
                  (scan_variable-found scan)))
        | inr e ↦
            let differs : other ≢ name = λ same. cc ((eq_iff other name).1 same) in
            later (elim h [
              | inl old ↦ inl (scan_variable-kept scan other value differs ∙ old)
              | inr m ↦ elim (In-cons m) [
                | inl same ↦ absurd (differs (ap (λ (var : String × String). var.0) same))
                | inr n ↦ inr n
              ]
            ])
      ]

  scan_variable-matched :
      (scan : EnvScan) (other value : String)
      → In name (scan_variable parse_f64 app known scan (other, value)).unmatched
      → In name scan.unmatched
  unfolding scan_variable
  scan_variable-matched scan other value m =
      elim (Option-cases (find (λ v. v.variable == other) known)) [
        | inr (v, e) ↦ rw (scan_variable, e) at m
        | inl e ↦
            elim (Bool-cases (
              starts_with other (String.◌++◌ (env_var_prefix app) "_TELEMETRY_")
              && not (other == String.◌++◌ (env_var_prefix app) "_TELEMETRY_DISABLED"))) [
                | inr b ↦ rw (scan_variable, e, b) at m
                | inl b ↦ elim (In-append scan.unmatched (rw (scan_variable, e, b) at m)) [
                  | inl old ↦ old
                  | inr new ↦ elim (In-cons new) [
                    | inl same ↦
                        let missed = subst (λ n. find (λ v. v.variable == n) known ≡ none) same e in
                        cc
                    | inr n ↦ absurd (not-In-nil n)
                  ]
                ]
              ]
      ]

  scan_variables-matched :
      (scan : EnvScan) (vars : List (String × String))
      → In name (scan_variables parse_f64 app known scan vars).unmatched
      → In name scan.unmatched
  unfolding scan_variables
  scan_variables-matched scan [] m = m
  scan_variables-matched scan ((other, value) ∷ vars) m =
      scan_variable-matched scan other value
        (scan_variables-matched (scan_variable parse_f64 app known scan (other, value)) vars m)

module _ (parse_f64 : String → Option Float) (app : String) (manifest : ConfigManifest)
    (vars : List (String × String)) (name raw : String) (m : In (name, raw) vars)
    (once : (other : String) → In (name, other) vars → other ≡ raw) where
  -- The scan gives the leaf its value, and knows the variable.
  abbrev IsTaken : LeafField → Type 0
  IsTaken leaf =
      (lookup leaf.path (scan_environment parse_f64 app manifest vars).values
        ≡ some (typed parse_f64 (kind leaf.field) raw))
      × ¬ (In name (scan_environment parse_f64 app manifest vars).unmatched)

  shown-IsTaken :
      (leaf : LeafField)
      → In leaf (iter_leaves manifest)
      → IsShown leaf false
      → env_var_name app leaf.path ≡ name
      → (taken : LeafField) × (In taken (iter_leaves manifest)
          × ((env_var_name app taken.path ≡ name) × IsTaken taken))
  unfolding scan_environment
  shown-IsTaken leaf n shown named =
      let known = known_variables app (iter_leaves manifest) in
      let start : EnvScan = record { values = []; unmatched = [] } in
      let (k, (searched, (among, same))) = find_variable app known (variable_of app leaf) (
        variable-In app (iter_leaves manifest) leaf (shown_path leaf.path shown.rest shown.below)
          n) in
      let found : find (λ v. v.variable == name) known ≡ some k =
        subst (λ t. find (λ v. v.variable == t) known ≡ some k) named searched in
      let (taken, (listed, e)) = In-known_variables app (iter_leaves manifest) k among in
      let value =
        scan_variables-value parse_f64 app known name raw k found
          (name_apart app (iter_leaves manifest) name k found) start vars once (inr m) in
      (
        taken,
        (
          listed,
          (
            ap (λ (v : KnownVariable). v.variable) e ∙ same ∙ named,
            (
              subst
                  (λ (v : KnownVariable).
                    lookup v.path (scan_variables parse_f64 app known start vars).values
                    ≡ some (typed parse_f64 v.field_kind raw))
                  (sym e) value,
              λ missed. not-In-nil (
                  scan_variables-matched parse_f64 app known name raw k found
                    (name_apart app (iter_leaves manifest) name k found) start vars
                    (In-sort_by le_text name
                      (scan_variables parse_f64 app known start vars).unmatched missed)),
            ),
          ),
        ),
      )

-- Every row of the help after the general ones, but the one on probes, names the variable of a leaf
-- of the telemetry section; and where the environment has the variable, once, the scan gives that
-- leaf its value, typed as the leaf's kind, and does not list the variable as unmatched.
pub help_entries-honoured :
    (parse_f64 : String → Option Float) (app : String) (manifest : ConfigManifest)
    (vars : List (String × String)) (name text raw : String)
    → In (name, text) (help_entries app manifest)
    → In (name, raw) vars
    → ((other : String) → In (name, other) vars → other ≡ raw)
    → In (name, text) (general_entries app)
      ⊎ ((probe_entry app ≡ (name, text))
          ⊎ ((leaf : LeafField) × (In leaf (iter_leaves manifest)
                × ((env_var_name app leaf.path ≡ name)
                    × ((lookup leaf.path (scan_environment parse_f64 app manifest vars).values
                          ≡ some (typed parse_f64 (kind leaf.field) raw))
                        × ¬ (In name (scan_environment parse_f64 app manifest vars).unmatched))))))
unfolding scan_environment
help_entries-honoured parse_f64 app manifest vars name text raw row m once =
    elim ((help_entries_iff app manifest (name, text)).0 row) [
      | inl general ↦ inl general
      | inr (inr (same, _)) ↦ inr (inl same)
      | inr (inl (leaf, (n, (shown, same)))) ↦ inr (
          inr (
            shown-IsTaken parse_f64 app manifest vars name raw m once leaf n shown
              (ap (λ (r : String × String). r.0) same)))
    ]
