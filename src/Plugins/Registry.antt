-- ===== src/Plugins/Registry.antt =====
-- src/plugin/registry.rs: the registry's configuration and its manager. The file system, the reading of
-- a registry and of a manifest are parameters; a canonical path is the list of its components, and the
-- files do not change. What is logged is not modelled. The order of a hash map's iteration is that of
-- its keys.
pub mod Enabled
pub mod Confined
use Prim.Native.String
use cli_framework.Prelude.{
  String, Bool, true, false, not, ◌&&◌, List, [], ◌∷◌, Option, none, some, Map, Result, ok, err, ℤ,
  pos, keep, is_some, ltb_ℤ, if◌then◌else◌, ◌==◌,
}
use cli_framework.Prelude.Maps.{lookup, insert, remove}
use cli_framework.Prelude.Sorting.{sort_by}

pub record RegistryMetadata : Type 0 where
  pub name : String
  pub version : String
  pub description : Option String

pub record PluginEntry : Type 0 where
  pub name : String
  pub version : String
  pub manifest_path : String
  pub enabled : Bool
  pub priority : ℤ

pub record PluginRegistryConfig : Type 0 where
  pub metadata : RegistryMetadata
  pub plugins : Map PluginEntry

-- `PluginRegistryConfig::default()`
abbrev pub default_config : PluginRegistryConfig
default_config = record {
  metadata = record {
    name = "CLI Framework Plugins";
    version = "1.0.0";
    description = some "Plugin registry for CLI Framework applications";
  };
  plugins = [];
}

abbrev pub is_enabled : String × PluginEntry → Bool
is_enabled (id, entry) = entry.enabled

-- `b.1.priority.cmp(&a.1.priority)`: `a` need not stand after `b`.
abbrev pub no_later : String × PluginEntry → String × PluginEntry → Bool
no_later (_, a) (_, b) = not (ltb_ℤ a.priority b.priority)

unfoldable pub get_enabled_plugins : PluginRegistryConfig → Map PluginEntry
get_enabled_plugins config = sort_by no_later (keep is_enabled config.plugins)

unfoldable pub add_plugin : PluginRegistryConfig → String → PluginEntry → PluginRegistryConfig
add_plugin config id entry = record config { plugins = insert id entry config.plugins }

unfoldable pub remove_plugin : PluginRegistryConfig → String → Bool × PluginRegistryConfig
remove_plugin config id =
    (is_some (lookup id config.plugins), record config { plugins = remove id config.plugins })

-- `PluginRegistryConfig::set_plugin_enabled`
unfoldable pub set_enabled : PluginRegistryConfig → String → Bool → Bool × PluginRegistryConfig
set_enabled config id enabled = elim (lookup id config.plugins) [
  | some entry ↦ (
    true,
    record config { plugins = insert id (record entry { enabled = enabled }) config.plugins },
  )
  | none ↦ (false, config)
]

-- The errors, each with what its message is made of.
pub data PluginError : Type 0 where
  file_error : String → PluginError
  manifest_unresolved root_unresolved : (at reason : String) → PluginError
  path_escape : (manifest root : List String) → PluginError
  no_plugin_root : PluginError
  not_found : (id : String) → PluginError

-- What the manager asks of the platform. `Manifest` is the type of a plugin's manifest.
pub record Files (Manifest : Type 0) : Type 0 where
  pub exists : String → Bool
  pub parent : String → Option String
  pub registry_from_file : String → Result PluginError PluginRegistryConfig
  pub canonicalize : String → Result String (List String)
  pub manifest_from_file : List String → Result PluginError Manifest

pub record PluginRegistryManager (Manifest : Type 0) : Type 0 where
  pub config_path : String
  pub config : PluginRegistryConfig
  pub loaded_manifests : Map Manifest

-- `canonical_manifest.starts_with(&canonical_root)`, by components.
unfoldable pub is_below : List String → List String → Bool
is_below [] path_components = true
is_below (r ∷ root) [] = false
is_below (r ∷ root) (p ∷ path_components) = r == p && is_below root path_components

module _ {Manifest : Type 0} (files : Files Manifest) where
  -- `PluginRegistryManager::new`
  abbrev pub new_manager : String → PluginRegistryManager Manifest
  new_manager config_path = record {
    config_path = config_path;
    config = default_config;
    loaded_manifests = [];
  }

  unfoldable pub validate_manifest_path : String → String → Result PluginError (List String)
  validate_manifest_path manifest_path plugin_root = elim (files.canonicalize manifest_path) [
    | err e ↦ err (manifest_unresolved manifest_path e)
    | ok canonical_manifest ↦ elim (files.canonicalize plugin_root) [
      | err e ↦ err (root_unresolved plugin_root e)
      | ok canonical_root ↦
          if not (is_below canonical_root canonical_manifest)
          then err (path_escape canonical_manifest canonical_root)
          else ok canonical_manifest
    ]
  ]

  -- The validated path's manifest.
  unfoldable pub load_manifest : String → String → Result PluginError Manifest
  load_manifest manifest_path plugin_root =
      elim (validate_manifest_path manifest_path plugin_root) [
        | err e ↦ err e
        | ok validated_path ↦ files.manifest_from_file validated_path
      ]

  -- The loop of `load`: a plugin whose manifest does not load is passed over.
  unfoldable pub load_plugins : String → Map PluginEntry → Map Manifest → Map Manifest
  load_plugins plugin_root [] loaded = loaded
  load_plugins plugin_root ((id, entry) ∷ plugins) loaded =
      load_plugins plugin_root plugins (elim (load_manifest entry.manifest_path plugin_root) [
        | ok manifest ↦ insert id manifest loaded
        | err _ ↦ loaded
      ])

  abbrev pub Done : Type 0
  Done = Result PluginError (Unit {0}) × PluginRegistryManager Manifest

  -- The manager with the configuration of its file, if there is one.
  unfoldable pub read_config :
      PluginRegistryManager Manifest → Result PluginError (PluginRegistryManager Manifest)
  read_config m =
      let read = files.registry_from_file m.config_path in
      if files.exists m.config_path
      then (elim read [ err e ↦ err e | ok config ↦ ok (record m { config = config }) ])
      else ok m

  unfoldable pub load : PluginRegistryManager Manifest → Done
  load m = elim (read_config m) [
    | err e ↦ (err e, m)
    | ok read ↦ elim (files.parent read.config_path) [
      | none ↦ (err no_plugin_root, read)
      | some plugin_root ↦ (
        ok tt,
        record read {
          loaded_manifests =
              load_plugins plugin_root (get_enabled_plugins read.config) read.loaded_manifests;
        },
      )
    ]
  ]

  -- The manifest of one plugin is loaded, or its error returned.
  unfoldable pub load_one : String → String → PluginRegistryManager Manifest → Done
  load_one id manifest_path m = elim (files.parent m.config_path) [
    | none ↦ (err no_plugin_root, m)
    | some plugin_root ↦ elim (load_manifest manifest_path plugin_root) [
      | err e ↦ (err e, m)
      | ok manifest ↦ (ok tt, record m { loaded_manifests = insert id manifest m.loaded_manifests })
    ]
  ]

  unfoldable pub register_plugin :
      PluginRegistryManager Manifest → String → String → String → String → Done
  register_plugin m id name version manifest_path = load_one id manifest_path (record m {
    config = add_plugin m.config id (record {
      name = name;
      version = version;
      manifest_path = manifest_path;
      enabled = true;
      priority = pos 0;
    });
  })

  unfoldable pub unregister_plugin :
      PluginRegistryManager Manifest → String → Bool × PluginRegistryManager Manifest
  unregister_plugin m id =
      let (was_there, config) = remove_plugin m.config id in
      (was_there, record m { config = config; loaded_manifests = remove id m.loaded_manifests })

  -- Loading a plugin that was just enabled: its entry is there.
  unfoldable pub load_enabled : String → PluginRegistryManager Manifest → Done
  load_enabled id m = elim (lookup id m.config.plugins) [
    | none ↦ (ok tt, m)
    | some entry ↦ load_one id entry.manifest_path m
  ]

  unfoldable pub set_plugin_enabled : PluginRegistryManager Manifest → String → Bool → Done
  set_plugin_enabled m id enabled =
      let (found, config) = set_enabled m.config id enabled in
      let changed : PluginRegistryManager Manifest = record m { config = config } in
      let loaded = load_enabled id changed in
      if not found
      then (err (not_found id), m)
      else if enabled
      then loaded
      else (ok tt, record changed { loaded_manifests = remove id m.loaded_manifests })

  -- `get_manifest`
  abbrev pub get_manifest : PluginRegistryManager Manifest → String → Option Manifest
  get_manifest m id = lookup id m.loaded_manifests
