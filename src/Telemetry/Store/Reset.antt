-- ===== src/Telemetry/Store/Reset.antt =====
-- The settings after a reset (src/telemetry/store.rs).
use cli_framework.Prelude.{
  ℕ, ◌≡◌, ◌⊎◌, refl, sym, ap, ◌∙◌, subst, String, [], Option, none, some, Result, ok, err,
  Option-cases, Result-cases, inl, inr,
}
use cli_framework.Config.Store as Versioned
use cli_framework.Config.Store.{ConfigError, ConfigStore, VersionedConfig, load, new_store}
use cli_framework.Telemetry.Axes.{TelemetryLevel}
use cli_framework.Telemetry.Store.{
  TelemetrySettings, TelemetryStore, Removal, removed, missing, failed, Platform, describe, reset,
  ready, unavailable, telemetry_schema_version, settings, load_or_default, open_at_with_format,
  open_with_format, open_location, TelemetryStoreLocation,
}

-- The default settings choose no level, whatever their version; a file that was removed, or was not
-- there, reads as empty; and to make a directory changes no file.
abbrev pub IsForgetful : {W : Type 0} → VersionedConfig TelemetrySettings → Platform W → Type 0
IsForgetful {W} config platform =
    ((version : ℕ) → (config.set_schema_version version config.default).level ≡ none)
    × (((location : String) (w : W)
          → ((platform.remove_file location w).0 ≡ removed)
            ⊎ ((platform.remove_file location w).0 ≡ missing)
          → (platform.file_backend location).read (platform.remove_file location w).1 ≡ ok [])
        × ((dir location : String) (w : W)
            → (platform.file_backend location).read (platform.create_dir_all dir w).1
              ≡ (platform.file_backend location).read w))

removal-cases :
    (r : Removal) → ((r ≡ removed) ⊎ (r ≡ missing)) ⊎ ((why : String) × (r ≡ failed why))
removal-cases removed = inl (inl refl)
removal-cases missing = inl (inr refl)
removal-cases (failed why) = inr (why, refl)

module _ {W : Type 0} (config : VersionedConfig TelemetrySettings) (platform : Platform W)
    (laws : IsForgetful config platform) where
  abbrev pub level_of : TelemetryStore W × W → Option TelemetryLevel
  level_of (opened, after) = (settings config platform opened after).level

  -- Where the settings of this directory are.
  abbrev location_of : String → String → String
  location_of dir app = platform.join_paths (platform.join_paths dir app) platform.file_name

  opened_ok :
      (dir app : String) (w : W)
      → (platform.create_dir_all (platform.join_paths dir app) w).0 ≡ ok tt
      → open_at_with_format config platform dir app w ≡ (
        record {
          state = ready (location_of dir app);
          store = some (
              new_store config
                (platform.file_backend (location_of dir app))
                platform.format
                telemetry_schema_version);
        },
        (platform.create_dir_all (platform.join_paths dir app) w).1,
      )
  unfolding open_at_with_format
  opened_ok dir app w e = rw (open_at_with_format, e) refl

  level_of_empty :
      (dir app : String) (w : W)
      → (platform.file_backend (location_of dir app)).read w ≡ ok []
      → level_of (open_at_with_format config platform dir app w) ≡ none
  unfolding open_at_with_format settings load_or_default load new_store
  level_of_empty dir app w h =
      let app_dir : String = platform.join_paths dir app in
      let empty = laws.1.1 app_dir (location_of dir app) w ∙ h in
      elim (Result-cases (platform.create_dir_all app_dir w).0) [
        | inr (why, e) ↦ rw (open_at_with_format, e) refl
        | inl (tt, e) ↦
            ap level_of (opened_ok dir app w e)
            ∙ rw (settings, load_or_default, load, empty) (laws.0 telemetry_schema_version)
      ]

  -- The outcome of a reset of the opened store, and the world after it.
  abbrev pub reset_of : TelemetryStore W × W → Result ConfigError (Unit {0}) × W
  reset_of (opened, after) = reset platform opened after

  ready_reset :
      (location : String) (inner : Option (ConfigStore TelemetrySettings W)) (w : W)
      → (reset_of (record { state = ready location; store = inner }, w)).0 ≡ ok tt
      → (platform.file_backend location).read
          (reset_of (record { state = ready location; store = inner }, w)).1
        ≡ ok []
  unfolding reset
  ready_reset location inner w h = elim (removal-cases (platform.remove_file location w).0) [
    | inl gone ↦ laws.1.0 location w gone
    | inr (why, e) ↦ cc (rw (reset, e) at h)
  ]

  level_of-reset_at :
      (dir app : String) (w : W)
      → (reset_of (open_at_with_format config platform dir app w)).0 ≡ ok tt
      → level_of (
          open_at_with_format config platform dir app
            (reset_of (open_at_with_format config platform dir app w)).1)
        ≡ none
  unfolding open_at_with_format reset
  level_of-reset_at dir app w h =
      elim (Result-cases (platform.create_dir_all (platform.join_paths dir app) w).0) [
        | inr (why, e) ↦ cc (rw (open_at_with_format, e, reset) at h)
        | inl (tt, e) ↦
            let opened = opened_ok dir app w e in
            let done = subst (λ o. (reset_of o).0 ≡ ok tt) opened h in
            subst
              (λ o. level_of (open_at_with_format config platform dir app (reset_of o).1) ≡ none)
              (sym opened)
              (level_of_empty dir app _ (
                ready_reset (location_of dir app)
                  (some (
                    new_store config (platform.file_backend (location_of dir app)) platform.format
                      telemetry_schema_version))
                  _ done))
      ]

  abbrev no_directory : W → TelemetryStore W × W
  no_directory w = (
    record {
      state = unavailable "this platform has no resolvable configuration directory";
      store = none;
    },
    w,
  )

  abbrev at_found : String → Option String → W → TelemetryStore W × W
  at_found app found w = elim found [
    | some dir ↦ open_at_with_format config platform dir app w
    | none ↦ no_directory w
  ]

  open_with_format-found :
      (app : String) (w : W)
      → open_with_format config platform app w ≡ at_found app platform.config_dir w
  unfolding open_with_format
  open_with_format-found app w = refl

  open_with_format-some :
      (app dir : String) (w : W)
      → platform.config_dir ≡ some dir
      → open_with_format config platform app w ≡ open_at_with_format config platform dir app w
  open_with_format-some app dir w n = open_with_format-found app w ∙ ap (λ o. at_found app o w) n

  open_with_format-none :
      (app : String) (w : W)
      → platform.config_dir ≡ none
      → open_with_format config platform app w ≡ no_directory w
  open_with_format-none app w n = open_with_format-found app w ∙ ap (λ o. at_found app o w) n

  -- Opening at a location is opening at one directory, or fails in every world.
  open_location-cases :
      (location : TelemetryStoreLocation) (app : String)
      → ((dir : String) × ((w : W)
            → open_location config platform location app w
              ≡ open_at_with_format config platform dir app w))
        ⊎ ((w : W)
            → (reset_of (open_location config platform location app w)).0
              ≡ err (
                  Versioned.read_only
                    (describe (open_location config platform location app w).0.state)))
  unfolding open_location reset
  open_location-cases location app = elim (Option-cases location.dir) [
    | inr (dir, e) ↦ inl (dir, λ w. rw (open_location, e) refl)
    | inl e ↦ elim (Option-cases platform.config_dir) [
      | inr (dir, n) ↦ inl (
        dir,
        λ w.
            let there : open_location config platform location app w
                ≡ open_with_format config platform app w =
              rw (open_location, e) refl in
            there ∙ open_with_format-some app dir w n,
      )
      | inl n ↦ inr (λ w.
          let there : open_location config platform location app w
              ≡ open_with_format config platform app w =
            rw (open_location, e) refl in
          subst (λ o. (reset_of o).0 ≡ err (Versioned.read_only (describe o.0.state)))
            (sym (there ∙ open_with_format-none app w n)) refl)
    ]
  ]

  pub level_of-reset :
      (location : TelemetryStoreLocation) (app : String) (w : W)
      → (reset_of (open_location config platform location app w)).0 ≡ ok tt
      → level_of (
          open_location config platform location app
            (reset_of (open_location config platform location app w)).1)
        ≡ none
  level_of-reset location app w h = elim (open_location-cases location app) [
    | inr fails ↦ cc (sym h ∙ fails w)
    | inl (dir, same) ↦
        let after : W = (reset_of (open_location config platform location app w)).1 in
        let done = subst (λ o. (reset_of o).0 ≡ ok tt) (same w) h in
        ap level_of (same after)
        ∙ ap (λ o. level_of (open_at_with_format config platform dir app (reset_of o).1)) (same w)
        ∙ level_of-reset_at dir app w done
  ]
