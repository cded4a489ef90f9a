-- ===== src/Telemetry/Probe/Builtin.antt =====
-- src/telemetry/probe.rs: the framework's own probes, and the registry that holds them.
use cli_framework.Prelude.{ℕ, Bool, true, false, List, [], ◌∷◌, Result, ok, err, length}
use cli_framework.Telemetry.Axes.{usage, diagnostic, debug}
use cli_framework.Telemetry.Probe.{ProbeSpec, ProbeIdError, ProbeRegistry, new_registry, register}

unfoldable pub builtin_probes : List ProbeSpec
builtin_probes =
    record {
      id = "cli.process";
      min_level = usage;
      summary = "Process start and exit";
      sends = "That the app ran, its version, and the exit status class";
    }
    ∷ record {
      id = "cli.command";
      min_level = usage;
      summary = "Which command ran";
      sends = "The registered command path, the invocation surface, duration and status";
    }
    ∷ record {
      id = "cli.command.args";
      min_level = diagnostic;
      summary = "Which arguments were supplied";
      sends = "Argument names and how many there were, never their values";
    }
    ∷ record {
      id = "cli.command.arg_values";
      min_level = debug;
      summary = "Argument values";
      sends = "Values of arguments the author explicitly allowlisted, and no others";
    }
    ∷ record {
      id = "cli.usage_error";
      min_level = usage;
      summary = "Commands that were typed wrongly";
      sends =
          "The kind of mistake: unknown command, unknown flag, missing argument, invalid value or failed validation";
    }
    ∷ record {
      id = "cli.usage_error.token";
      min_level = debug;
      summary = "The text that was not understood";
      sends = "The offending token itself";
    }
    ∷ record {
      id = "cli.panic";
      min_level = usage;
      summary = "Crashes";
      sends = "That the app panicked and the source location, never the message";
    }
    ∷ record {
      id = "cli.panic.message";
      min_level = debug;
      summary = "Crash messages";
      sends = "The panic message text";
    }
    ∷ record {
      id = "cli.help";
      min_level = usage;
      summary = "Help lookups";
      sends = "Which command's help was asked for";
    }
    ∷ record {
      id = "cli.feature";
      min_level = usage;
      summary = "Named features the app marks";
      sends = "The name of a feature the author registered, and nothing else";
    }
    ∷ record {
      id = "cli.auth";
      min_level = usage;
      summary = "Sign-in activity";
      sends = "That a login, logout, refresh or failure happened, never a credential";
    }
    ∷ record {
      id = "cli.config";
      min_level = diagnostic;
      summary = "Configuration reads and writes";
      sends = "Which setting was touched and whether it succeeded, never the value";
    }
    ∷ record {
      id = "cli.secrets";
      min_level = diagnostic;
      summary = "Secret-store activity";
      sends = "Which backend was used and whether it succeeded, never a secret";
    }
    ∷ record {
      id = "cli.doctor";
      min_level = usage;
      summary = "Diagnostic runs";
      sends = "Which checks ran and how severe their findings were";
    }
    ∷ record {
      id = "cli.plugin";
      min_level = diagnostic;
      summary = "Plugin activity";
      sends = "Which plugin loaded or failed to load";
    }
    ∷ record {
      id = "cli.chat";
      min_level = usage;
      summary = "Chat sessions";
      sends = "That a chat session ran and how long it lasted, never prompt text";
    }
    ∷ record {
      id = "http.client";
      min_level = diagnostic;
      summary = "Outbound requests";
      sends = "Method, status and duration, never the URL path or query";
    }
    ∷ record {
      id = "http.client.server_address";
      min_level = diagnostic;
      summary = "Which host was called";
      sends = "The destination host name, on the span only";
    }
    ∷ record {
      id = "http.server";
      min_level = usage;
      summary = "Requests served";
      sends = "The matched route template, method, status and duration";
    }
    ∷ record {
      id = "mcp.session";
      min_level = usage;
      summary = "Agent sessions";
      sends = "That an MCP session ran, which tools it called and how long it lasted";
    }
    ∷ []

-- The loop over the catalogue; an error is the panic of `expect`.
unfoldable pub register_all : ProbeRegistry → List ProbeSpec → Result ProbeIdError ProbeRegistry
register_all registry [] = ok registry
register_all registry (spec ∷ specs) = elim (register registry spec) [
  | err e ↦ err e
  | ok after ↦ register_all after specs
]

unfoldable pub with_builtins : Result ProbeIdError ProbeRegistry
with_builtins = register_all new_registry builtin_probes

-- `ProbeRegistry::iter`, `ProbeRegistry::len` and `ProbeRegistry::is_empty`
abbrev pub iter : ProbeRegistry → List ProbeSpec
iter registry = registry.probes

abbrev pub len : ProbeRegistry → ℕ
len registry = length registry.probes

unfoldable pub is_empty : ProbeRegistry → Bool
is_empty registry = elim registry.probes [ [] ↦ true | p ∷ ps ↦ false ]
