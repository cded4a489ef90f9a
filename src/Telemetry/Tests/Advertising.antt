-- ===== src/Telemetry/Tests/Advertising.antt =====
-- The theorem on the variables that the help advertises at a small manifest.
use cli_framework.Prelude.{
  ◌≡◌, ◌⊎◌, inl, inr, refl, sym, ap, String, true, false, [], ◌∷◌, List, Option, none, some, In,
  here, there, In-cons, not-In-nil,
}
use cli_framework.Prelude.Maps.{lookup}
use cli_framework.Prelude.Text.{has_char, strip_prefix, to_ascii_uppercase, to_underscore}
use cli_framework.Json.{Float}
use cli_framework.Config.Manifest.{
  ConfigManifest, FieldAttributes, FieldManifests, FieldKind, LeafField, machine, field, kind,
  iter_leaves,
}
use cli_framework.Telemetry.Policy.{env_var_prefix}
use cli_framework.Telemetry.Env.{env_var_name, scan_environment, typed}
use cli_framework.Telemetry.Env.Help.{
  general_entries, probe_entry, help_row, help_rows, help_entries,
}
use cli_framework.Telemetry.Env.Honoured.{help_entries-honoured}

abbrev plain : FieldAttributes
plain = record {
  default = none;
  label = some "The level";
  description = none;
  group = none;
  scope = machine;
  platforms = [];
  secret = false;
  local_only = false;
  protected = false;
  manageable = true;
  enforceable = true;
  restart_required = false;
  constraints = none;
}

-- `telemetry.level` and `telemetry.install_id`, which is the framework's own.
abbrev manifest : ConfigManifest
manifest = record {
  manifest_schema_version = 1;
  app = "demo";
  fields =
      FieldManifests.cons
        (field "telemetry"
          (FieldKind.section (
            FieldManifests.cons (field "level" FieldKind.str plain) (
              FieldManifests.cons
                (field "install_id" FieldKind.str (record plain { local_only = true }))
                FieldManifests.nil)))
          plain)
        FieldManifests.nil;
}

abbrev no_floats : String → Option Float
no_floats raw = none

abbrev variables : List (String × String)
variables = ("DEMO_TELEMETRY_LEVEL", "debug") ∷ []

advertised : In ("DEMO_TELEMETRY_LEVEL", "The level") (help_entries "demo" manifest)
unfolding general_entries help_row help_rows help_entries iter_leaves strip_prefix has_char
    env_var_prefix env_var_name to_ascii_uppercase to_underscore
advertised = there (there (there (there (there (there (there (there (here refl))))))))

given : In ("DEMO_TELEMETRY_LEVEL", "debug") variables
given = here refl

given_once : (other : String) → In ("DEMO_TELEMETRY_LEVEL", other) variables → other ≡ "debug"
given_once other m = elim (In-cons m) [
  | inl same ↦ sym (ap (λ (var : String × String). var.1) same)
  | inr n ↦ absurd (not-In-nil n)
]

help_entries-honoured_example :
    In ("DEMO_TELEMETRY_LEVEL", "The level") (general_entries "demo")
    ⊎ ((probe_entry "demo" ≡ ("DEMO_TELEMETRY_LEVEL", "The level"))
        ⊎ ((leaf : LeafField) × (In leaf (iter_leaves manifest)
              × ((env_var_name "demo" leaf.path ≡ "DEMO_TELEMETRY_LEVEL")
                  × ((lookup leaf.path (scan_environment no_floats "demo" manifest variables).values
                        ≡ some (typed no_floats (kind leaf.field) "debug"))
                      × ¬ (
                          In "DEMO_TELEMETRY_LEVEL"
                            (scan_environment no_floats "demo" manifest variables).unmatched))))))
help_entries-honoured_example =
    help_entries-honoured no_floats "demo" manifest variables "DEMO_TELEMETRY_LEVEL" "The level"
      "debug" advertised given given_once
