-- ===== src/Config/Managed/Cache.antt =====
-- src/config/managed/cache.rs: the cached policy with its tag and the time of its fetch, on a backend.
-- What serde makes of an entry is a parameter.
use cli_framework.Prelude.{ℕ, String, List, [], ◌∷◌, Option, none, some, Result, ok, err}
use cli_framework.Json.{Value}
use cli_framework.Config.Store as Versioned
use cli_framework.Config.Store.{ConfigError, ConfigBackend}

pub record PolicyCacheEntry : Type 0 where
  pub policy : Value
  pub etag : Option String
  pub fetched_at_epoch_secs : ℕ

-- `serde_json::from_slice` and `to_vec_pretty` at an entry.
pub record EntrySerde : Type 0 where
  pub from_slice : List ℕ → Result String PolicyCacheEntry
  pub to_vec_pretty : PolicyCacheEntry → Result String (List ℕ)

pub record PolicyCache (W : Type 0) : Type 0 where
  pub backend : ConfigBackend W
  pub serde : EntrySerde

module _ {W : Type 0} where
  unfoldable pub read_cache : PolicyCache W → W → Result ConfigError (Option PolicyCacheEntry)
  read_cache cache w = elim (cache.backend.read w) [
    | err e ↦ err e
    | ok [] ↦ ok none
    | ok (b ∷ bytes) ↦ elim (cache.serde.from_slice (b ∷ bytes)) [
      | err source ↦ err (Versioned.parse cache.backend.label source)
      | ok entry ↦ ok (some entry)
    ]
  ]

  unfoldable pub write_cache :
      PolicyCache W → PolicyCacheEntry → W → Result ConfigError (Unit {0}) × W
  write_cache cache entry w = elim (cache.serde.to_vec_pretty entry) [
    | err source ↦ (err (Versioned.serialize cache.backend.label source), w)
    | ok bytes ↦ cache.backend.write bytes w
  ]

  unfoldable pub clear_cache : PolicyCache W → W → Result ConfigError (Unit {0}) × W
  clear_cache cache w = cache.backend.write [] w
