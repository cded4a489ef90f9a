-- ===== src/Config/Service/Types/Wire.antt =====
-- The names of rule operators and mutations (src/config/service/types.rs).
use cli_framework.Prelude.{
  String, ◌≡◌, refl, sym, ap, ◌∙◌, ◌↔◌, true, Option, some, ◌==◌, eq_iff, Bool-cases, inl, inr,
}
use cli_framework.Config.Service.Types.{
  RuleOperator, MutationKind, operator_wire_str, parse_operator, mutation_wire_str, parse_mutation,
}

-- A text that equals a name stands for what has that name.
named :
    {A : Type 0} (wire : A → String) (s name : String) (a b : A)
    → s == name ≡ true
    → Path (Option A) (some a) (some b)
    → wire a ≡ name
    → wire b ≡ s
named wire s name a b e same named_so =
    let equal : a ≡ b = cc in ap wire (sym equal) ∙ named_so ∙ sym ((eq_iff s name).0 e)

operator_parses : (op : RuleOperator) → parse_operator (operator_wire_str op) ≡ some op
unfolding parse_operator operator_wire_str
operator_parses RuleOperator.equals = refl
operator_parses RuleOperator.contains = refl
operator_parses RuleOperator.exists = refl
operator_parses RuleOperator.default = refl

operator_prints :
    (s : String) (op : RuleOperator) → parse_operator s ≡ some op → operator_wire_str op ≡ s
unfolding parse_operator operator_wire_str
operator_prints s op h = elim (Bool-cases (s == "equals")) [
  | inl e0 ↦
      named operator_wire_str s "equals" RuleOperator.equals op e0 (rw (parse_operator, e0) at h)
        refl
  | inr e0 ↦ elim (Bool-cases (s == "contains")) [
    | inl e1 ↦
        named operator_wire_str s "contains" RuleOperator.contains op e1
          (rw (parse_operator, e0, e1) at h) refl
    | inr e1 ↦ elim (Bool-cases (s == "exists")) [
      | inl e2 ↦
          named operator_wire_str s "exists" RuleOperator.exists op e2
            (rw (parse_operator, e0, e1, e2) at h) refl
      | inr e2 ↦ elim (Bool-cases (s == "default")) [
        | inl e3 ↦
            named operator_wire_str s "default" RuleOperator.default op e3
              (rw (parse_operator, e0, e1, e2, e3) at h) refl
        | inr e3 ↦ cc (rw (parse_operator, e0, e1, e2, e3) at h)
      ]
    ]
  ]
]

mutation_parses : (kind : MutationKind) → parse_mutation (mutation_wire_str kind) ≡ some kind
unfolding parse_mutation mutation_wire_str
mutation_parses MutationKind.manifest_put = refl
mutation_parses MutationKind.policy_put = refl
mutation_parses MutationKind.policy_patch = refl
mutation_parses MutationKind.policy_restore = refl
mutation_parses MutationKind.assignments_put = refl
mutation_parses MutationKind.import = refl

mutation_prints :
    (s : String) (kind : MutationKind) → parse_mutation s ≡ some kind → mutation_wire_str kind ≡ s
unfolding parse_mutation mutation_wire_str
mutation_prints s kind h = elim (Bool-cases (s == "manifest_put")) [
  | inl e0 ↦
      named mutation_wire_str s "manifest_put" MutationKind.manifest_put kind e0
        (rw (parse_mutation, e0) at h) refl
  | inr e0 ↦ elim (Bool-cases (s == "policy_put")) [
    | inl e1 ↦
        named mutation_wire_str s "policy_put" MutationKind.policy_put kind e1
          (rw (parse_mutation, e0, e1) at h) refl
    | inr e1 ↦ elim (Bool-cases (s == "policy_patch")) [
      | inl e2 ↦
          named mutation_wire_str s "policy_patch" MutationKind.policy_patch kind e2
            (rw (parse_mutation, e0, e1, e2) at h) refl
      | inr e2 ↦ elim (Bool-cases (s == "policy_restore")) [
        | inl e3 ↦
            named mutation_wire_str s "policy_restore" MutationKind.policy_restore kind e3
              (rw (parse_mutation, e0, e1, e2, e3) at h) refl
        | inr e3 ↦ elim (Bool-cases (s == "assignments_put")) [
          | inl e4 ↦
              named mutation_wire_str s "assignments_put" MutationKind.assignments_put kind e4
                (rw (parse_mutation, e0, e1, e2, e3, e4) at h) refl
          | inr e4 ↦ elim (Bool-cases (s == "import")) [
            | inl e5 ↦
                named mutation_wire_str s "import" MutationKind.import kind e5
                  (rw (parse_mutation, e0, e1, e2, e3, e4, e5) at h) refl
            | inr e5 ↦ cc (rw (parse_mutation, e0, e1, e2, e3, e4, e5) at h)
          ]
        ]
      ]
    ]
  ]
]

-- A text is read as an operator, and as a kind of mutation, exactly where it is that one's name.
pub parse_operator_iff :
    (s : String) (op : RuleOperator) (kind : MutationKind)
    → ((parse_operator s ≡ some op) ↔ (operator_wire_str op ≡ s))
      × ((parse_mutation s ≡ some kind) ↔ (mutation_wire_str kind ≡ s))
parse_operator_iff s op kind = (
  (operator_prints s op, λ e. ap parse_operator (sym e) ∙ operator_parses op),
  (mutation_prints s kind, λ e. ap parse_mutation (sym e) ∙ mutation_parses kind),
)
