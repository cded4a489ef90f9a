-- ===== src/Config/Store/Saved.antt =====
-- What a save leaves for a load (src/config/store.rs).
use cli_framework.Prelude.{
  ℕ, ◌-◌, ◌≡◌, refl, ap, ◌∙◌, ◌≢◌, true, false, List, [], ◌∷◌, ok, arith, ltb,
}
use cli_framework.Json.{Value}
use cli_framework.Config.Store.{
  VersionedConfig, ConfigStore, read_version, migrate, load_document, load, save,
}

module _ {T W : Type 0} (config : VersionedConfig T) where
  same_version :
      (store : ConfigStore T W) (given : T) (json : Value)
      → read_version json ≡ store.current_version
      → config.from_value json ≡ ok given
      → load_document config store json ≡ ok (config.set_schema_version store.current_version given)
  unfolding load_document migrate
  same_version store given json version found =
      let current : ltb store.current_version (read_version json) ≡ false =
        ground (arith, version) in
      let steps : store.current_version - read_version json ≡ 0 = omega (arith, version) in
      rw (load_document, current, steps, migrate, found) refl

  load-bytes :
      (store : ConfigStore T W) (w : W) (bytes : List ℕ) (json : Value)
      → store.backend.read w ≡ ok bytes
      → bytes ≢ []
      → store.format.bytes_to_value store.backend.label bytes ≡ ok json
      → load config store w ≡ load_document config store json
  unfolding load
  load-bytes store w [] json read some_bytes parsed = elim (some_bytes refl) [ ]
  load-bytes store w (b ∷ bytes) json read some_bytes parsed = rw (load, read, parsed) refl

  -- Saving a configuration on a backend that can write caches it with the store's version, and the
  -- next load returns the same. The conditions: stamping the version twice is stamping it once, serde
  -- makes a document of the stamped configuration and the configuration of it again, the version that
  -- is read in that document is the store's, the format prints it as bytes, at least one, and parses
  -- them back, and the backend accepts the bytes and then reads what it wrote.
  pub load-save :
      (store : ConfigStore T W) (given stamped : T) (json : Value) (bytes : List ℕ) (w after : W)
      → store.backend.supports_write ≡ true
      → config.set_schema_version store.current_version given ≡ stamped
      → config.set_schema_version store.current_version stamped ≡ stamped
      → config.to_value stamped ≡ ok json
      → config.from_value json ≡ ok stamped
      → read_version json ≡ store.current_version
      → store.format.value_to_bytes store.backend.label json ≡ ok bytes
      → bytes ≢ []
      → store.format.bytes_to_value store.backend.label bytes ≡ ok json
      → store.backend.write bytes w ≡ (ok tt, after)
      → store.backend.read after ≡ ok bytes
      → (save config store given w ≡ (ok tt, (record store { current = stamped }, after)))
        × (load config (record store { current = stamped }) after ≡ ok stamped)
  unfolding save
  load-save store given stamped json bytes w after writable stamp again out back version printed
        some_bytes parsed written reads =
      (
        simp (save, writable, stamp, out, printed, written),
        load-bytes (record store { current = stamped }) after bytes json reads some_bytes parsed
            ∙ same_version (record store { current = stamped }) stamped json version back
            ∙ ap ok again,
      )
