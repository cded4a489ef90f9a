-- ===== src/Config/Store/Migrations.antt =====
-- What a load returns (src/config/store.rs).
use cli_framework.Prelude.{
  ok-inj, ℕ, zero, suc, ◌+◌, ◌-◌, ◌≤◌, ◌<◌, ◌≡◌, refl, ap, subst, ◌↔◌, List, some, ok, arith, ltb,
  Bool-cases, Option-cases, Result-cases, inl, inr,
}
use cli_framework.Json
use cli_framework.Json.{Value, entries}
use cli_framework.Config.Store.{
  VersionedConfig, ConfigStore, Migration, read_version, write_version, migration_from, migrate,
  load_document,
}

-- The registered migrations lead from one version's document to another's, each applied once, in
-- the order of the versions, and the new version stamped after each.
pub data Migrates (migrations : List (ℕ × Migration)) (target : ℕ)
    : ℕ → Value → Value → Type 0 where
  at_target :
      {version : ℕ} {value : Value}
      → version ≡ target
      → Migrates migrations target version value value
  step :
      {version : ℕ} {value last : Value} (migration : Migration) (migrated : Value)
      → version < target
      → migration_from migrations version ≡ some migration
      → migration value ≡ ok migrated
      → Migrates migrations target (suc version) (write_version migrated (suc version)) last
      → Migrates migrations target version value last

migrate-Migrates :
    (migrations : List (ℕ × Migration)) (target left version : ℕ) (value last : Value)
    → version + left ≡ target
    → migrate migrations target left version value ≡ ok last
    → Migrates migrations target version value last
unfolding migrate
migrate-Migrates migrations target zero version value last e h =
    subst (Migrates migrations target version value) (ok-inj h) (at_target (omega (arith, e)))
migrate-Migrates migrations target (suc left) version value last e h =
    elim (Option-cases (migration_from migrations version)) [
      | inl k ↦ cc (rw (migrate, k) at h)
      | inr (migration, k) ↦ elim (Result-cases (migration value)) [
        | inr (source, m) ↦ cc (rw (migrate, k, m) at h)
        | inl (migrated, m) ↦ step migration migrated (omega (arith, e)) k m (
            migrate-Migrates migrations target left (suc version)
              (write_version migrated (suc version)) last (omega (arith, e))
              (rw (migrate, k, m) at h))
      ]
    ]

Migrates-migrate :
    (migrations : List (ℕ × Migration)) (target left version : ℕ) (value last : Value)
    → version + left ≡ target
    → Migrates migrations target version value last
    → migrate migrations target left version value ≡ ok last
unfolding migrate
Migrates-migrate migrations target zero version value last e (at_target h) = refl
Migrates-migrate migrations target zero version value last e (step _ _ more _ _ _) =
    let absurd : ⊥ = omega (arith, e, more) in elim absurd [ ]
Migrates-migrate migrations target (suc left) version value last e (at_target h) =
    let absurd : ⊥ = omega (arith, e, h) in elim absurd [ ]
Migrates-migrate migrations target (suc left) version value last e
      (step migration migrated more k m rest) =
    rw (migrate, k, m)
      (Migrates-migrate migrations target left (suc version) (write_version migrated (suc version))
        last (omega (arith, e)) rest)

-- A document loads exactly where its version is not past the store's, the registered migrations
-- lead from it to the store's version, and the last document is one of the configuration's; the
-- configuration is then that document's, with the store's version.
pub load_document_iff :
    {T W : Type 0} (config : VersionedConfig T) (store : ConfigStore T W) (value : Value)
    (loaded : T)
    → (load_document config store value ≡ ok loaded) ↔ (
        (read_version value ≤ store.current_version)
        × ((last : Value) × (Migrates store.migrations store.current_version
                (read_version value)
                value
                last
              × ((found : T) × ((config.from_value last ≡ ok found)
                    × (config.set_schema_version store.current_version found ≡ loaded))))))
unfolding load_document
load_document_iff config store value loaded =
    let version = read_version value in
    let target = store.current_version in
    elim (Bool-cases (ltb target version)) [
      | inl e ↦
          rw (load_document, e)
            (λ h. cc, λ (within, _). let absurd : ⊥ = ground arith in elim absurd [ ])
      | inr e ↦
          let within : version ≤ target = ground arith in
          let steps : version + (target - version) ≡ target = omega (arith, within) in
          rw (load_document, e)
            (
              λ h.
                  elim (Result-cases
                    (migrate store.migrations target (target - version) version value)) [
                      | inr (x, k) ↦ cc (rw k at h)
                      | inl (last, k) ↦ elim (Result-cases (config.from_value last)) [
                        | inr (x, f) ↦ cc (rw (k, f) at h)
                        | inl (found, f) ↦ (
                          within,
                          (
                            last,
                            (
                              migrate-Migrates store.migrations target (target - version) version
                                  value last steps k,
                              (found, (f, ok-inj (rw (k, f) at h))),
                            ),
                          ),
                        )
                      ]
                    ],
              λ (_, (last, (chain, (found, (f, same))))).
                  rw
                    (
                      Migrates-migrate store.migrations target (target - version) version value last
                          steps chain,
                      f,
                    )
                    (ap ok same),
            )
    ]
