-- ===== src/Config/Store/Tests.antt =====
-- The theorems on the versioned store at concrete inputs.
use cli_framework.Prelude.{ℕ, ◌≤◌, ◌≡◌, refl, ◌↔◌, ◌≢◌, true, List, [], ◌∷◌, ok, err}
use cli_framework.Prelude.Maps.{lookup, insert}
use cli_framework.Json
use cli_framework.Json.{Value, end, entry, entries, from_entries}
use cli_framework.Config.Store.{
  new_store, save, VersionedConfig, ConfigFormat, ConfigBackend, ConfigStore, parse, read_version,
  write_version, migration_from, migrate, load_document, load, save,
}
use cli_framework.Config.Store.Migrations.{Migrates, load_document_iff}
use cli_framework.Config.Store.Saved.{load-save}
use cli_framework.Config.Store.Versions.{IsStamped, built, saving, IsReached-IsStamped}

-- A configuration that is its version, stored as the document of that version.
abbrev document : ℕ → Value
document version = Json.object (entry "schema_version" (Json.number (Json.unsigned version)) end)

abbrev versions : VersionedConfig ℕ
versions = record {
  default = 0;
  set_schema_version = λ version value. version;
  to_value = λ value. ok (document value);
  from_value = λ json. ok (read_version json);
}

-- A document of one byte, its version.
abbrev byte : ConfigFormat
byte = record {
  bytes_to_value = λ label bytes. elim bytes [
    | [] ↦ err (parse label "empty")
    | version ∷ more ↦ ok (document version)
  ];
  value_to_bytes = λ label json. ok (read_version json ∷ []);
}

-- The world is the bytes that are stored.
abbrev memory : ConfigBackend (List ℕ)
memory = record {
  read = λ stored. ok stored;
  write = λ bytes stored. (ok tt, bytes);
  supports_write = true;
  label = "memory";
}

abbrev two : ConfigStore ℕ (List ℕ)
two = record {
  backend = memory;
  format = byte;
  current_version = 2;
  migrations = (1, λ value. ok value) ∷ [];
  current = 2;
  subscribers = [];
}

load_document_iff_example : (load_document versions two (document 1) ≡ ok 2) ↔ (
    (1 ≤ 2)
    × ((last : Value) × (Migrates two.migrations 2 1 (document 1) last
          × ((found : ℕ) × ((versions.from_value last ≡ ok found)
                × (versions.set_schema_version 2 found ≡ 2))))))
unfolding read_version lookup
load_document_iff_example = load_document_iff versions two (document 1) 2

migrated : load versions two (1 ∷ []) ≡ ok 2
unfolding load load_document migrate migration_from read_version write_version lookup insert
migrated = refl

cons≢nil : {n : ℕ} {ns : List ℕ} → n ∷ ns ≢ []
cons≢nil h = cc

load-save_example :
    (save versions two 7 [] ≡ (ok tt, (two, 2 ∷ []))) × (load versions two (2 ∷ []) ≡ ok 2)
unfolding read_version lookup
load-save_example =
    load-save versions two 7 2 (document 2) (2 ∷ []) [] (2 ∷ []) refl refl refl refl refl refl refl
      cons≢nil refl refl refl

IsReached-IsStamped_example :
    IsStamped versions
      (save versions (new_store versions memory byte 2) 7 []).1.0
      (save versions (new_store versions memory byte 2) 7 []).1.0.current
IsReached-IsStamped_example =
    IsReached-IsStamped versions (λ version value. refl)
      (save versions (new_store versions memory byte 2) 7 []).1.0
      (saving 7 [] (built memory byte 2))
