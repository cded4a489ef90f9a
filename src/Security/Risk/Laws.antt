-- ===== src/Security/Risk/Laws.antt =====
-- What the check before a command lets pass (src/security/risk_enforcer.rs).
use cli_framework.Prelude.{
  some-inj, String, ◌≡◌, refl, ◌↔◌, ◌⊎◌, inl, inr, Bool, true, Option, some, ok, arith,
  if◌then◌else◌, ◌==◌, eq_iff, Bool-cases, Option-cases, ap,
}
use cli_framework.Prelude.Maps.{insert, lookup-insert}
use cli_framework.Security.Risk.{
  CommandRiskTier, CommandRiskPolicy, safe, sensitive, destructive, classify, env_allowed,
  Surroundings, enforce_preflight,
}

-- What a tier asks for.
abbrev pub Permits : Surroundings → Bool → CommandRiskTier → Type 0
Permits around assume_yes safe = Unit
Permits around assume_yes sensitive = (around.is_interactive ≡ true) ⊎ (assume_yes ≡ true)
Permits around assume_yes destructive =
    (around.is_interactive ≡ true)
    × ((around.allow_destructive ≡ some "1") ⊎ (around.allow_destructive ≡ some "true"))

env_allowed_iff :
    (around : Surroundings)
    → (env_allowed around ≡ true)
      ↔ ((around.allow_destructive ≡ some "1") ⊎ (around.allow_destructive ≡ some "true"))
unfolding env_allowed
env_allowed_iff around = elim (Option-cases around.allow_destructive) [
  | inl e ↦ rw (env_allowed, e) (λ h. cc, λ h. elim h [ inl x ↦ cc | inr x ↦ cc ])
  | inr (setting, e) ↦
      rw (env_allowed, e)
        (
          λ h. elim (Bool-cases (setting == "1")) [
            | inl one ↦ inl (ap some ((eq_iff setting "1").0 one))
            | inr other ↦ inr (ap some ((eq_iff setting "true").0 (ground arith)))
          ],
          λ h. elim h [
            | inl x ↦ ground (arith, (eq_iff setting "1").1 (some-inj x))
            | inr x ↦ ground (arith, (eq_iff setting "true").1 (some-inj x))
          ],
        )
]

tier-cases : (tier : CommandRiskTier) → (tier ≡ safe) ⊎ ((tier ≡ sensitive) ⊎ (tier ≡ destructive))
tier-cases safe = inl refl
tier-cases sensitive = inr (inl refl)
tier-cases destructive = inr (inr refl)

-- A command may run exactly where its tier permits it: a safe one always, a sensitive one on an
-- interactive terminal or with `--yes`, a destructive one on an interactive terminal where the
-- environment variable is set to `1` or `true`, whatever `--yes` says.
pub enforce_preflight_iff :
    (around : Surroundings) (policy : CommandRiskPolicy) (id : String) (category : Option String)
    (assume_yes : Bool)
    → (enforce_preflight around policy id category assume_yes ≡ ok tt)
      ↔ Permits around assume_yes (classify policy id category)
unfolding enforce_preflight
enforce_preflight_iff around policy id category assume_yes =
    elim (tier-cases (classify policy id category)) [
      | inl e ↦ rw (enforce_preflight, e) (λ _. tt, λ _. refl)
      | inr (inl e) ↦ rw (enforce_preflight, e) (ground arith)
      | inr (inr e) ↦
          let allowed = env_allowed_iff around in
          elim (Bool-cases (env_allowed around)) [
            | inr a ↦ rw (enforce_preflight, e, a) (λ h. cc, λ (_, setting). cc (allowed.1 setting))
            | inl a ↦ elim (Bool-cases around.is_interactive) [
              | inr b ↦ rw (enforce_preflight, e, a, b) (λ h. cc, λ (terminal, _). cc)
              | inl b ↦ rw (enforce_preflight, e, a, b) (λ _. (refl, allowed.0 a), λ _. refl)
            ]
          ]
    ]

-- Overriding one command's tier leaves the other commands' tiers, and the override counts before
-- any category.
pub classify-insert :
    (policy : CommandRiskPolicy) (id other : String) (tier : CommandRiskTier)
    (category : Option String)
    → classify (record policy { tiers = insert id tier policy.tiers }) other category
      ≡ (if id == other then tier else classify policy other category)
unfolding classify
classify-insert policy id other tier category = elim (Bool-cases (id == other)) [
  | inl e ↦ rw (classify, lookup-insert id other tier policy.tiers, e) refl
  | inr e ↦ rw (classify, lookup-insert id other tier policy.tiers, e) refl
]
