-- ===== src/Config/Store/Versions.antt =====
-- The version of the value that a store caches (src/config/store.rs).
use cli_framework.Prelude.{
  ok-inj, ℕ, ◌-◌, ◌≡◌, sym, subst, ◌⊎◌, inl, inr, List, [], ◌∷◌, ok, ltb, Bool-cases, Result-cases,
}
use cli_framework.Json.{Value}
use cli_framework.Config.Store.{
  VersionedConfig, ConfigFormat, ConfigBackend, ConfigStore, Migration, read_version, migrate,
  new_store, with_migration, load_document, load, save, resolve, reload, subscribe,
}

module _ {T W : Type 0} (config : VersionedConfig T) where
  -- A store after some operations, of any outcome and in any state of the world.
  pub data IsReached : ConfigStore T W → Type 0 where
    built :
        (on : ConfigBackend W) (format : ConfigFormat) (version : ℕ)
        → IsReached (new_store config on format version)
    migrating :
        {before : ConfigStore T W} (version : ℕ) (migration : Migration)
        → IsReached before
        → IsReached (with_migration config before version migration)
    subscribing :
        {before : ConfigStore T W} (f : T → W → W)
        → IsReached before
        → IsReached (subscribe config before f)
    saving :
        {before : ConfigStore T W} (given : T) (w : W)
        → IsReached before
        → IsReached (save config before given w).1.0
    resolving :
        {before : ConfigStore T W} (w : W)
        → IsReached before
        → IsReached (resolve config before w).1.0
    reloading :
        {before : ConfigStore T W} (w : W)
        → IsReached before
        → IsReached (reload config before w).1.0

  -- The cached value has the store's version: stamping it with that changes nothing.
  abbrev pub IsStamped : ConfigStore T W → T → Type 0
  IsStamped store value = config.set_schema_version store.current_version value ≡ value

  load_document-stamps :
      (store : ConfigStore T W) (json : Value) (value : T)
      → load_document config store json ≡ ok value
      → (found : T) × (config.set_schema_version store.current_version found ≡ value)
  unfolding load_document
  load_document-stamps store json value h =
      elim (Bool-cases (ltb store.current_version (read_version json))) [
        | inl e ↦ cc (rw (load_document, e) at h)
        | inr e ↦
            elim (Result-cases (
              migrate store.migrations store.current_version
                (store.current_version - read_version json) (read_version json) json)) [
                  | inr (x, k) ↦ cc (rw (load_document, e, k) at h)
                  | inl (last, k) ↦ elim (Result-cases (config.from_value last)) [
                    | inr (x, f) ↦ cc (rw (load_document, e, k, f) at h)
                    | inl (found, f) ↦ (found, ok-inj (rw (load_document, e, k, f) at h))
                  ]
                ]
      ]

  loaded-stamps :
      (store : ConfigStore T W) (w : W) (bytes : List ℕ) (value : T)
      → store.backend.read w ≡ ok bytes
      → load config store w ≡ ok value
      → (found : T) × (config.set_schema_version store.current_version found ≡ value)
  unfolding load
  loaded-stamps store w [] value r h = (config.default, ok-inj (rw (load, r) at h))
  loaded-stamps store w (b ∷ more) value r h =
      elim (Result-cases (store.format.bytes_to_value store.backend.label (b ∷ more))) [
        | inl (json, p) ↦ load_document-stamps store json value (rw (load, r, p) at h)
        | inr (e, p) ↦ cc (rw (load, r, p) at h)
      ]

  load-IsStamped :
      ((version : ℕ) (value : T)
        → config.set_schema_version version (config.set_schema_version version value)
          ≡ config.set_schema_version version value)
      → (store : ConfigStore T W) (w : W) (value : T) → load config store w ≡ ok value
      → IsStamped store value
  unfolding load
  load-IsStamped again store w value h = elim (Result-cases (store.backend.read w)) [
    | inr (e, r) ↦ cc (rw (load, r) at h)
    | inl (bytes, r) ↦
        let (found, same) = loaded-stamps store w bytes value r h in
        subst (IsStamped store) same (again store.current_version found)
  ]

  -- What a save does to the store.
  saved_store :
      (store : ConfigStore T W) (given : T) (w : W)
      → ((save config store given w).1.0 ≡ store)
        ⊎ ((save config store given w).1.0
            ≡ record store { current = config.set_schema_version store.current_version given })
  unfolding save
  saved_store store given w =
      let stamped = config.set_schema_version store.current_version given in
      elim (Bool-cases store.backend.supports_write) [
        | inr a ↦ inl (simp (save, a))
        | inl a ↦ elim (Result-cases (config.to_value stamped)) [
          | inr (e, b) ↦ inl (simp (save, a, b))
          | inl (json, b) ↦
              elim (Result-cases (store.format.value_to_bytes store.backend.label json)) [
                | inr (e, c) ↦ inl (simp (save, a, b, c))
                | inl (bytes, c) ↦ elim (Result-cases (store.backend.write bytes w).0) [
                  | inr (e, d) ↦ inl (simp (save, a, b, c, d))
                  | inl (done, d) ↦ inr (simp (save, a, b, c, d))
                ]
              ]
        ]
      ]

  after_load :
      ((version : ℕ) (value : T)
        → config.set_schema_version version (config.set_schema_version version value)
          ≡ config.set_schema_version version value)
      → (store : ConfigStore T W) (w : W) → IsStamped store store.current
      → IsStamped (resolve config store w).1.0 (resolve config store w).1.0.current
        × IsStamped (reload config store w).1.0 (reload config store w).1.0.current
  unfolding resolve reload
  after_load again store w h = elim (Result-cases (load config store w)) [
    | inl (value, k) ↦
        let stamped = load-IsStamped again store w value k in
        (rw (resolve, k) stamped, rw (reload, k) stamped)
    | inr (e, k) ↦ (rw (resolve, k) h, rw (reload, k) h)
  ]

  -- Where stamping a version twice is stamping it once, the value that a store caches has the store's
  -- version, whatever is loaded, reloaded and saved, and whatever of it fails, as long as the
  -- application does not replace the value by `set_current_and_notify`.
  pub IsReached-IsStamped :
      ((version : ℕ) (value : T)
        → config.set_schema_version version (config.set_schema_version version value)
          ≡ config.set_schema_version version value)
      → (store : ConfigStore T W) → IsReached store
      → IsStamped store store.current
  unfolding new_store with_migration subscribe
  IsReached-IsStamped again store (built on format version) = again version config.default
  IsReached-IsStamped again store (migrating {before} version migration steps) =
      IsReached-IsStamped again before steps
  IsReached-IsStamped again store (subscribing {before} f steps) =
      IsReached-IsStamped again before steps
  IsReached-IsStamped again store (saving {before} given w steps) =
      elim (saved_store before given w) [
        | inl same ↦
            subst (λ x. IsStamped x x.current) (sym same) (IsReached-IsStamped again before steps)
        | inr same ↦
            subst (λ x. IsStamped x x.current) (sym same) (again before.current_version given)
      ]
  IsReached-IsStamped again store (resolving {before} w steps) =
      (after_load again before w (IsReached-IsStamped again before steps)).0
  IsReached-IsStamped again store (reloading {before} w steps) =
      (after_load again before w (IsReached-IsStamped again before steps)).1
