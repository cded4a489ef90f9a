-- ===== src/Lib.antt =====
-- cli_framework: models of the logic of the framework's own components, with the theorems that make
-- them correct. The framework builds command line programs: a program declares commands with typed
-- arguments and a manifest of configuration fields; a server stores policies for these fields and
-- serves each caller the policy of its profile; a client resolves the fields from that policy and its
-- own layers.
--
-- The parts and their files (paths from the repository's root):
--
-- - Prelude: what the others share. Tests (Boolean tests on native numbers), Lists, Results, Int
--   (i64 over native numbers), Maps (BTreeMap and HashMap as entries in the order of their keys, with
--   lookup, insert, remove), Text (contains, split, join, case and affixes of str), TextOrder (the order
--   of str), Splitting (split and join of a text at a character), Searching (a text within another),
--   Sorting (the stable sort of a list by an order), KeyOrder (the order of a BTreeMap's keys).
-- - Json: serde_json::Value; an f64 is its bit pattern, with < and == as IEEE 754 defines them.
-- - Config.Manifest: src/config/manifest/types.rs. The declared fields and their leaves by dotted path
--   (iter_leaves, leaf_by_path).
-- - Config.Resolution: src/config/resolution/resolver.rs and provenance.rs. resolve folds six layers
--   for each leaf (default, recommended, config file, environment, flags, builder overrides) and then
--   the enforced tree; Precedence, ServerTrees, Quiet and Entries hold its theorems.
-- - Config.Service: src/config/service. Types (types.rs, error.rs), Inherit (inherit.rs: the chain of a
--   profile's parents and the merge of their trees), Assignment (assignment.rs: which rule decides a
--   caller's profile), Validate (validate.rs: at startup and before a write), MergePatch (merge_patch.rs), State (state.rs:
--   lookup_policy with its cache, resolve_diagnostic). The service's validation and the client's
--   resolver share the reasons to drop an entry.
-- - Config.Store: src/config/store.rs. The versioned store: load with its migrations, save, and the
--   cached value with its subscribers. Migrations, Saved and Versions hold its theorems.
-- - Config.Managed: src/config/managed. Cache (cache.rs), Client (policy_client.rs: fetch and what it
--   falls back to), Fold (mod.rs: the policy laid over the local configuration, with merge_json_objects
--   and refresh_managed_config; Placed and Applied are about the document it builds), Flatten
--   (src/config/resolution/flatten.rs), Roaming (roaming_client.rs). Client's world holds the cache's
--   file; Fold uses Config.Resolution and Config.Store.
-- - Spec: src/spec. Args (arg_spec.rs, value.rs), Paths (CommandPath of command_tree.rs), Validation
--   (validate_typed_args of command_tree.rs with the diagnostics of src/parser/diagnostic.rs).
-- - Commands: src/command/mod.rs; Commands.Registry: src/command/registry.rs. The operations that
--   register commands and groups take a registry to a registry or an error, and an error leaves the
--   registry as it was; Below holds what a search that finds nothing rules out, Accepted what an
--   accepted registration has found, Invariant the invariant and its preservation.
-- - Retry: src/retry. Policy (policy.rs, with delays), Executor (executor.rs and executor_async.rs as
--   loops over the attempts that pass the state of the world through).
-- - Security.Risk: src/security/command_risk.rs and risk_enforcer.rs.
-- - Secrets.Key: src/secrets/key.rs.
-- - Telemetry: src/telemetry. Axes (axes.rs: deployment, level, attribution), Probe (probe.rs: the
--   ids and the sorted registry, Builtin the catalogue), Policy (policy.rs: resolve_policy and the
--   kill switches), Redact (redact.rs: which attributes are kept), Notice (notice.rs), Env
--   (env.rs: the variables, Help their rows in the help), Store (store.rs: the settings file, over
--   Config.Store) and Startup (startup.rs: State its data, Fold the settings and the variables
--   laid over the inputs, and the steps of run_startup, each a function of the state of the
--   world).
-- - Plugins.Manifest: src/plugin/manifest.rs. Plugins.Registry: src/plugin/registry.rs. The
--   registry's configuration and its manager; Enabled is about the plugins to load, Confined about
--   the manifests that were loaded.
--
-- State and operations. A handler that changes its receiver returns the new state; one that fails
-- returns the error of the code's own enumeration. A lock is not modelled where the code takes it for
-- one operation at a time. A panic is an outcome of its own where the code can reach it: entries of a
-- resolution, the delays of a retry, the registration that expects success.
--
-- Fuel and loops. The walk along a profile's parents runs on fuel, one more than the bound that the
-- code itself puts on the chain, since each round adds a policy to it. Every other loop is over a
-- list, or over the number of attempts that a policy allows, and ends with it.
--
-- Machine arithmetic. The milliseconds of a delay are cut to 64 bits and their product overflows as it
-- does with and without overflow checks; a sum or product of durations past the largest one panics.
--
-- Parameters of the models, for code outside of the repository and for its input and output: as_f64 of
-- serde_json, the hasher of the standard library (in the version of a chain), serde, the format and
-- the backend of a versioned store, the HTTP client of the managed configuration with the errors that
-- it returns, the clock, the platform's directories and files, the source of install ids, the parser of floats,
-- the construction of the telemetry providers, its subscriber and the panic hook, the file system
-- below a plugin registry, the regex crate (whether a text is a pattern, and what it matches), tokio's
-- timeout, the error that anyhow makes of a text, the environment and the terminal.
--
-- Not modelled: serialisation, database, file and network access, the web framework's handlers, the
-- text of most messages, logging, and the components that are glue over third-party code
-- (the application's builder, clap, the MCP server, authentication, self installation, the exporters
-- and the instrumentation of telemetry).
pub mod Prelude
pub mod Json
pub mod Config
pub mod Spec
pub mod Commands
pub mod Retry
pub mod Security
pub mod Secrets
pub mod Telemetry
pub mod Plugins
