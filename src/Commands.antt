-- ===== src/Commands.antt =====
-- src/command: the commands and their registry.
mod Tests
pub mod Registry
use cli_framework.Prelude.{String, Bool, List, ◌++◌, Option, Map}
use cli_framework.Json.{Value}
use cli_framework.Spec.Args.{ArgValue, CommandSpec}
use cli_framework.Spec.Validation.{Diagnostic}

-- `Execute` is the type of the asynchronous closures that run a command.
pub record Command (Execute : Type 0) : Type 0 where
  pub id : String
  pub spec : CommandSpec
  pub validator : Option (Map ArgValue → List Diagnostic)
  pub execute : Execute
  pub expose_mcp : Bool
  pub expose_chat : Bool
  pub meta : Option Value
  pub visibility : Option (List String)

-- `spec.aliases.iter().chain(spec.hidden_aliases.iter())`
abbrev pub all_aliases : {Execute : Type 0} → Command Execute → List String
all_aliases command = command.spec.aliases ++ command.spec.hidden_aliases
