-- ===== src/Plugins/Manifest.antt =====
-- src/plugin/manifest.rs: what a plugin's manifest describes. Reading and writing it is serde's.
use cli_framework.Prelude.{String, List, Option, Map, find, ◌==◌}

pub data CommandExecution : Type 0 where
  subprocess : (command : String) → (args : List String) → (cwd : Option String) → CommandExecution
  http : (method url : String) → (headers : Option (Map String)) → CommandExecution
  library : (library_path function_name : String) → CommandExecution

pub record PluginCommand : Type 0 where
  pub id : String
  pub name : String
  pub description : String
  pub syntax : Option String
  pub category : Option String
  pub execution : CommandExecution

pub record PluginManifest : Type 0 where
  pub name : String
  pub version : String
  pub description : Option String
  pub author : Option String
  pub commands : List PluginCommand

-- `PluginManifest::find_command`
unfoldable pub find_command : PluginManifest → String → Option PluginCommand
find_command manifest command_id = find (λ cmd. cmd.id == command_id) manifest.commands
