-- ===== src/Plugins/Registry/Confined.antt =====
-- What is loaded (src/plugin/registry.rs): manifests of registered and enabled plugins, from below the
-- registry's own directory.
pub mod Inside
use cli_framework.Prelude.{
  pos, ◌≡◌, refl, sym, subst, String, Bool, true, List, [], ◌∷◌, ◌++◌, some, Map, ok, arith,
  Bool-cases, Option-cases, Result-cases, inl, inr, ◌==◌, eq_iff, some-inj, ok-inj,
}
use cli_framework.Prelude.Maps.{lookup, insert, remove, lookup-insert, lookup-remove}
use cli_framework.Plugins.Registry.{
  PluginEntry, Files, PluginRegistryManager, is_below, validate_manifest_path, load_manifest,
  load_plugins, load, load_one, read_config, register_plugin, unregister_plugin, set_plugin_enabled,
  load_enabled, set_enabled, add_plugin, get_enabled_plugins, new_manager, get_manifest,
}
use cli_framework.Plugins.Registry.Confined.Inside.{
  IsInside, load_manifest-IsInside, IsConfined, IsConfined-insert, IsConfined-remove,
}

module _ {Manifest : Type 0} (files : Files Manifest) where
  load_plugins-IsConfined :
      (m : PluginRegistryManager Manifest) (plugin_root : String) (plugins : Map PluginEntry)
      (loaded : Map Manifest)
      → files.parent m.config_path ≡ some plugin_root
      → IsConfined files (record m { loaded_manifests = loaded })
      → IsConfined files
          (record m { loaded_manifests = load_plugins files plugin_root plugins loaded })
  unfolding load_plugins
  load_plugins-IsConfined m plugin_root [] loaded parent c = c
  load_plugins-IsConfined m plugin_root ((id, entry) ∷ plugins) loaded parent c =
      elim (Result-cases (load_manifest files entry.manifest_path plugin_root)) [
        | inr (e, k) ↦
            let passed : load_plugins files plugin_root ((id, entry) ∷ plugins) loaded
                ≡ load_plugins files plugin_root plugins loaded =
              rw (load_plugins, k) in
            subst (λ l. IsConfined files (record m { loaded_manifests = l })) (sym passed)
              (load_plugins-IsConfined m plugin_root plugins loaded parent c)
        | inl (manifest, k) ↦
            let taken : load_plugins files plugin_root ((id, entry) ∷ plugins) loaded
                ≡ load_plugins files plugin_root plugins (insert id manifest loaded) =
              rw (load_plugins, k) in
            let here =
              IsConfined-insert files (record m { loaded_manifests = loaded }) id manifest c
                (load_manifest-IsInside files m.config_path plugin_root entry.manifest_path manifest
                  parent k) in
            subst (λ l. IsConfined files (record m { loaded_manifests = l })) (sym taken)
              (load_plugins-IsConfined m plugin_root plugins (insert id manifest loaded) parent
                here)
      ]

  load_one-IsConfined :
      (id manifest_path : String) (m : PluginRegistryManager Manifest)
      → IsConfined files m
      → IsConfined files (load_one files id manifest_path m).1
  unfolding load_one
  load_one-IsConfined id manifest_path m c = elim (Option-cases (files.parent m.config_path)) [
    | inl e ↦
        let same : (load_one files id manifest_path m).1 ≡ m = rw (load_one, e) in
        subst (IsConfined files) (sym same) c
    | inr (plugin_root, e) ↦ elim (Result-cases (load_manifest files manifest_path plugin_root)) [
      | inr (x, k) ↦
          let same : (load_one files id manifest_path m).1 ≡ m = rw (load_one, e, k) in
          subst (IsConfined files) (sym same) c
      | inl (manifest, k) ↦
          let taken : (load_one files id manifest_path m).1
              ≡ record m { loaded_manifests = insert id manifest m.loaded_manifests } =
            rw (load_one, e, k) in
          subst (IsConfined files) (sym taken) (
            IsConfined-insert files m id manifest c
              (load_manifest-IsInside files m.config_path plugin_root manifest_path manifest e k))
    ]
  ]

  load_enabled-IsConfined :
      (id : String) (m : PluginRegistryManager Manifest)
      → IsConfined files m
      → IsConfined files (load_enabled files id m).1
  unfolding load_enabled
  load_enabled-IsConfined id m c = elim (Option-cases (lookup id m.config.plugins)) [
    | inl e ↦
        let same : (load_enabled files id m).1 ≡ m = rw (load_enabled, e) in
        subst (IsConfined files) (sym same) c
    | inr (entry, e) ↦
        let one : (load_enabled files id m).1 ≡ (load_one files id entry.manifest_path m).1 =
          rw (load_enabled, e) in
        subst (IsConfined files) (sym one) (load_one-IsConfined id entry.manifest_path m c)
  ]

  read_config-IsConfined :
      (m read : PluginRegistryManager Manifest)
      → read_config files m ≡ ok read
      → IsConfined files m
      → IsConfined files read
  unfolding read_config
  read_config-IsConfined m read h c = elim (Bool-cases (files.exists m.config_path)) [
    | inr e ↦
        let same : m ≡ read = ok-inj (rw (read_config, e) at h) in subst (IsConfined files) same c
    | inl e ↦ elim (Result-cases (files.registry_from_file m.config_path)) [
      | inr (x, k) ↦ cc (rw (read_config, e, k) at h)
      | inl (config, k) ↦
          let same : record m { config = config } ≡ read = ok-inj (rw (read_config, e, k) at h) in
          subst (IsConfined files) same c
    ]
  ]

  load-IsConfined :
      (m : PluginRegistryManager Manifest) → IsConfined files m → IsConfined files (load files m).1
  unfolding load
  load-IsConfined m c = elim (Result-cases (read_config files m)) [
    | inr (e, k) ↦
        let same : (load files m).1 ≡ m = rw (load, k) in subst (IsConfined files) (sym same) c
    | inl (read, k) ↦
        let confined : IsConfined files read = read_config-IsConfined m read k c in
        elim (Option-cases (files.parent read.config_path)) [
          | inl e ↦
              let same : (load files m).1 ≡ read = rw (load, k, e) in
              subst (IsConfined files) (sym same) confined
          | inr (plugin_root, e) ↦
              let taken : (load files m).1 ≡ record read {
                loaded_manifests =
                    load_plugins files plugin_root (get_enabled_plugins read.config)
                      read.loaded_manifests;
              } =
                rw (load, k, e) in
              subst (IsConfined files) (sym taken) (
                load_plugins-IsConfined read plugin_root (get_enabled_plugins read.config)
                  read.loaded_manifests e confined)
        ]
  ]

  set_plugin_enabled-IsConfined :
      (m : PluginRegistryManager Manifest) (id : String) (enabled : Bool)
      → IsConfined files m
      → IsConfined files (set_plugin_enabled files m id enabled).1
  unfolding set_plugin_enabled
  set_plugin_enabled-IsConfined m id enabled c =
      let changed : PluginRegistryManager Manifest = record m {
        config = (set_enabled m.config id enabled).1;
      } in
      elim (Bool-cases (set_enabled m.config id enabled).0) [
        | inr e ↦
            let same : (set_plugin_enabled files m id enabled).1 ≡ m = rw (set_plugin_enabled, e) in
            subst (IsConfined files) (sym same) c
        | inl e ↦ elim (Bool-cases enabled) [
          | inl on ↦
              let loading : (set_plugin_enabled files m id enabled).1
                  ≡ (load_enabled files id changed).1 =
                rw (set_plugin_enabled, e, on) in
              subst (IsConfined files) (sym loading) (load_enabled-IsConfined id changed c)
          | inr off ↦
              let removed : (set_plugin_enabled files m id enabled).1
                  ≡ record changed { loaded_manifests = remove id m.loaded_manifests } =
                rw (set_plugin_enabled, e, off) in
              subst (IsConfined files) (sym removed) (IsConfined-remove files changed id c)
        ]
      ]

  -- The managers that the operations make, from a new one.
  pub data IsManaged : PluginRegistryManager Manifest → Type 0 where
    fresh : (config_path : String) → IsManaged (new_manager files config_path)
    loaded : (m : PluginRegistryManager Manifest) → IsManaged m → IsManaged (load files m).1
    registered :
        (m : PluginRegistryManager Manifest) (id name version manifest_path : String)
        → IsManaged m
        → IsManaged (register_plugin files m id name version manifest_path).1
    unregistered :
        (m : PluginRegistryManager Manifest) (id : String)
        → IsManaged m
        → IsManaged (unregister_plugin files m id).1
    switched :
        (m : PluginRegistryManager Manifest) (id : String) (enabled : Bool)
        → IsManaged m
        → IsManaged (set_plugin_enabled files m id enabled).1

  IsManaged-IsConfined : (m : PluginRegistryManager Manifest) → IsManaged m → IsConfined files m
  unfolding register_plugin unregister_plugin lookup
  IsManaged-IsConfined _ (fresh config_path) = λ id manifest h. cc
  IsManaged-IsConfined _ (loaded m r) = load-IsConfined m (IsManaged-IsConfined m r)
  IsManaged-IsConfined _ (registered m id name version manifest_path r) =
      load_one-IsConfined id manifest_path
        (record m {
          config = add_plugin m.config id (record {
            name = name;
            version = version;
            manifest_path = manifest_path;
            enabled = true;
            priority = pos 0;
          });
        })
        (IsManaged-IsConfined m r)
  IsManaged-IsConfined _ (unregistered m id r) =
      IsConfined-remove files m id (IsManaged-IsConfined m r)
  IsManaged-IsConfined _ (switched m id enabled r) =
      set_plugin_enabled-IsConfined m id enabled (IsManaged-IsConfined m r)

  -- A manifest that a manager has, whatever was loaded, registered, unregistered, enabled and disabled
  -- before, with errors or without, is that of a file below the canonical directory of the registry's
  -- own file.
  pub get_manifest-IsInside :
      (m : PluginRegistryManager Manifest) (id : String) (manifest : Manifest)
      → IsManaged m
      → get_manifest files m id ≡ some manifest
      → IsInside files m.config_path manifest
  get_manifest-IsInside m id manifest r h = IsManaged-IsConfined m r id manifest h
