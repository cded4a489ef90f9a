-- ===== src/Telemetry/Env/Help.antt =====
-- src/telemetry/env.rs: the rows on the framework's own variables for the root help.
use Prim.Native.String
use cli_framework.Prelude.{
  String, Bool, true, false, List, [], ◌∷◌, ◌++◌, none, some, if◌then◌else◌, or_else, unwrap_or,
}
use cli_framework.Prelude.Text.{has_char, strip_prefix}
use cli_framework.Config.Manifest.{ConfigManifest, LeafField, iter_leaves, attributes}
use cli_framework.Telemetry.Policy.{env_var_prefix}
use cli_framework.Telemetry.Env.{env_var_name}

-- The rows that every application has.
unfoldable pub general_entries : String → List (String × String)
general_entries app =
    (
      String.◌++◌ (env_var_prefix app) "_TELEMETRY_DISABLED",
      "Set to 1 to turn telemetry off entirely.",
    )
    ∷ ("DO_NOT_TRACK", "Set to 1 to turn telemetry off entirely.")
    ∷ ("OTEL_SDK_DISABLED", "Set to true to turn telemetry off entirely.")
    ∷ (
      "OTEL_EXPORTER_OTLP_ENDPOINT",
      "OTLP collector URL; overrides the telemetry endpoint setting.",
    )
    ∷ (
      "OTEL_EXPORTER_OTLP_HEADERS",
      "Headers sent with every export, as comma-separated key=value pairs.",
    )
    ∷ ("OTEL_TRACES_SAMPLER_ARG", "Fraction of traces exported, 0.0 to 1.0.")
    ∷ (
      "OTEL_SERVICE_NAME",
      "Service name reported to the collector; defaults to the application name.",
    )
    ∷ ("OTEL_RESOURCE_ATTRIBUTES", "Extra resource attributes, as comma-separated key=value pairs.")
    ∷ []

-- The row on the switches of the probes.
unfoldable pub probe_entry : String → String × String
probe_entry app = (
  String.◌++◌ (env_var_prefix app) "_TELEMETRY_<PROBE>_ENABLED",
  "Set to 0 to disable one telemetry probe; <PROBE> is its id upper-cased with dots as underscores.",
)

abbrev pub described : LeafField → String
described leaf =
    unwrap_or (or_else (attributes leaf.field).description (attributes leaf.field).label) leaf.path

-- The two variables of the loop over the leaves.
pub record HelpRows : Type 0 where
  pub out : List (String × String)
  pub has_probe_switch : Bool

-- One round of the loop: 46 is the dot.
unfoldable pub help_row : String → HelpRows → LeafField → HelpRows
help_row app rows leaf = elim (strip_prefix leaf.path "telemetry.") [
  | none ↦ rows
  | some rest ↦
      if (attributes leaf.field).local_only
      then rows
      else if has_char 46 rest
      then record rows { has_probe_switch = true }
      else record rows { out = rows.out ++ (env_var_name app leaf.path, described leaf) ∷ [] }
]

unfoldable pub help_rows : String → HelpRows → List LeafField → HelpRows
help_rows app rows [] = rows
help_rows app rows (leaf ∷ leaves) = help_rows app (help_row app rows leaf) leaves

unfoldable pub help_entries : String → ConfigManifest → List (String × String)
help_entries app manifest =
    let rows =
      help_rows app (record { out = general_entries app; has_probe_switch = false })
        (iter_leaves manifest) in
    if rows.has_probe_switch then rows.out ++ probe_entry app ∷ [] else rows.out
