-- ===== src/Telemetry/Env/Variables.antt =====
-- The variables that the manifest knows (src/telemetry/env.rs).
use text.Mathlib.Text.{starts_with}
use cli_framework.Prelude.{
  ◌≡◌, inl, inr, refl, sym, ap, ◌∙◌, subst, String, true, false, List, [], ◌∷◌, some, In, here,
  there, In-cons, not-In-nil, arith, find, find_sound, find-none, All-In, eq_iff, ◌==◌, Bool-cases,
  Option-cases,
}
use cli_framework.Prelude.Text.{strip_prefix}
use cli_framework.Config.Manifest.{LeafField, kind}
use cli_framework.Telemetry.Env.{KnownVariable, env_var_name, is_telemetry_path, known_variables}

abbrev pub variable_of : String → LeafField → KnownVariable
variable_of app leaf = record {
  variable = env_var_name app leaf.path;
  path = leaf.path;
  field_kind = kind leaf.field;
}

pub shown_path :
    (path rest : String)
    → strip_prefix path "telemetry." ≡ some rest
    → is_telemetry_path path ≡ true
unfolding strip_prefix
shown_path path rest h = elim (Bool-cases (starts_with path "telemetry.")) [
  | inl e ↦ rw e (ground arith)
  | inr e ↦ cc (rw (strip_prefix, e) at h)
]

module _ (app : String) where
  -- A known variable is that of a leaf.
  pub In-known_variables :
      (leaves : List LeafField) (k : KnownVariable)
      → In k (known_variables app leaves)
      → (leaf : LeafField) × (In leaf leaves × (variable_of app leaf ≡ k))
  unfolding known_variables
  In-known_variables [] k m = absurd (not-In-nil m)
  In-known_variables (leaf ∷ leaves) k m = elim (Bool-cases (is_telemetry_path leaf.path)) [
    | inl e ↦ elim (In-cons (rw (known_variables, e) at m)) [
      | inl same ↦ (leaf, (here refl, same))
      | inr later ↦ let (l, (n, same)) = In-known_variables leaves k later in (l, (there n, same))
    ]
    | inr e ↦
        let (l, (n, same)) = In-known_variables leaves k (rw (known_variables, e) at m) in
        (l, (there n, same))
  ]

  pub variable-In :
      (leaves : List LeafField) (leaf : LeafField)
      → is_telemetry_path leaf.path ≡ true
      → In leaf leaves
      → In (variable_of app leaf) (known_variables app leaves)
  unfolding known_variables
  variable-In [] leaf h m = absurd (not-In-nil m)
  variable-In (first ∷ leaves) leaf h m = elim (In-cons m) [
    | inl same ↦
        let shown : is_telemetry_path first.path ≡ true =
          subst (λ (l : LeafField). is_telemetry_path l.path ≡ true) (sym same) h in
        rw (known_variables, shown) (here (ap (variable_of app) same))
    | inr later ↦ elim (Bool-cases (is_telemetry_path first.path)) [
      | inl e ↦ rw (known_variables, e) (there (variable-In leaves leaf h later))
      | inr e ↦ rw (known_variables, e) (variable-In leaves leaf h later)
    ]
  ]

  -- The search finds a variable of that name.
  pub find_variable :
      (known : List KnownVariable) (k : KnownVariable)
      → In k known
      → (other : KnownVariable) × ((find (λ v. v.variable == k.variable) known ≡ some other)
          × (In other known × (other.variable ≡ k.variable)))
  find_variable known k m = elim (Option-cases (find (λ v. v.variable == k.variable) known)) [
    | inl e ↦
        let failed =
          All-In (λ (v : KnownVariable). (v.variable == k.variable) ≡ false) known k
            (find-none (λ v. v.variable == k.variable) known e) m in
        let same = (eq_iff k.variable k.variable).1 refl in cc
    | inr (other, e) ↦
        let (n, t) = find_sound (λ v. v.variable == k.variable) known other e in
        (other, (e, (n, (eq_iff other.variable k.variable).0 t)))
  ]

  variable-name :
      (leaves : List LeafField) (k : KnownVariable)
      → In k (known_variables app leaves)
      → k.variable ≡ env_var_name app k.path
  variable-name leaves k m =
      let (leaf, (_, same)) = In-known_variables leaves k m in
      subst (λ (v : KnownVariable). v.variable ≡ env_var_name app v.path) same refl

  -- Only `name` leads to a path that it leads to.
  pub name_apart :
      (leaves : List LeafField) (name : String) (k : KnownVariable)
      → find (λ v. v.variable == name) (known_variables app leaves) ≡ some k
      → (other : String) (v : KnownVariable)
      → find (λ w. w.variable == other) (known_variables app leaves) ≡ some v
      → v.path ≡ k.path
      → other ≡ name
  name_apart leaves name k found other v e same =
      let (m, t) = find_sound (λ w. w.variable == name) (known_variables app leaves) k found in
      let (n, u) = find_sound (λ w. w.variable == other) (known_variables app leaves) v e in
      sym ((eq_iff v.variable other).0 u)
      ∙ variable-name leaves v n
      ∙ ap (env_var_name app) same
      ∙ sym (variable-name leaves k m)
      ∙ (eq_iff k.variable name).0 t
