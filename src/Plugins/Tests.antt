-- ===== src/Plugins/Tests.antt =====
-- Runs of the models of src/plugin on small inputs.
use cli_framework.Prelude.{
  ◌==◌, if◌then◌else◌, refl, String, true, false, List, [], ◌∷◌, some, ok, err, pos,
}
use cli_framework.Prelude.Maps.{lookup, insert}
use cli_framework.Plugins.Registry.{
  PluginRegistryConfig, PluginRegistryManager, Files, file_error, default_config, add_plugin,
  is_below, register_plugin, load_one, load_manifest, validate_manifest_path, new_manager,
}
use cli_framework.Plugins.Registry.Confined.Inside.{IsInside}
use cli_framework.Plugins.Registry.Confined.{fresh, registered, get_manifest-IsInside}

-- Two files below the registry's directory; a manifest is its path.
abbrev files : Files (List String)
files = record {
  exists = λ at. false;
  parent = λ at. some "plugins";
  registry_from_file = λ at. err (file_error at);
  canonicalize = λ at.
      if at == "plugins"
      then ok ("app" ∷ "plugins" ∷ [])
      else if at == "a.json"
      then ok ("app" ∷ "plugins" ∷ "a.json" ∷ [])
      else if at == "b.json"
      then ok ("app" ∷ "b.json" ∷ [])
      else err "no such file";
  manifest_from_file = λ at. ok at;
}

abbrev managed : PluginRegistryManager (List String)
managed = (register_plugin files (new_manager files "plugins/registry.json") "a" "A" "1" "a.json").1

get_manifest-IsInside_example :
    IsInside files managed.config_path ("app" ∷ "plugins" ∷ "a.json" ∷ [])
unfolding register_plugin load_one load_manifest validate_manifest_path is_below insert lookup
    add_plugin
get_manifest-IsInside_example =
    get_manifest-IsInside files managed "a" ("app" ∷ "plugins" ∷ "a.json" ∷ [])
      (registered (new_manager files "plugins/registry.json") "a" "A" "1" "a.json"
        (fresh "plugins/registry.json"))
      refl

abbrev many : PluginRegistryConfig
many =
    add_plugin
      (add_plugin default_config "a" (record {
        name = "A";
        version = "1";
        manifest_path = "a.json";
        enabled = true;
        priority = pos 1;
      }))
      "b"
      (record {
        name = "B";
        version = "1";
        manifest_path = "b.json";
        enabled = true;
        priority = pos 2;
      })
