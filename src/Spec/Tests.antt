-- ===== src/Spec/Tests.antt =====
-- The theorems on paths and arguments at concrete inputs.
use cli_framework.Prelude.{String, pos, ◌≡◌, refl, ◌≢◌, false, List, [], ◌∷◌, none, some, Map, err}
use cli_framework.Prelude.Maps.{lookup}
use cli_framework.Spec.Args
use cli_framework.Spec.Args.{
  ArgValue, ArgSpec, CommandSpec, value_matches_type, cons, nil, list, count, int, float, int_type,
}
use cli_framework.Spec.Paths.{CommandPath}
use cli_framework.Spec.Validation.{
  Regex, validate_typed_args, required_errors, type_errors, bound_errors, constraint_errors,
  conflict_errors, requires_errors,
}

cons≢nil : {x : String} {xs : List String} → x ∷ xs ≢ []
cons≢nil h = cc

abbrev cluster_get : CommandPath
cluster_get = record { segments = "cluster" ∷ "get" ∷ [] }

-- A port between 1 and 65535, which is required, conflicts with `socket` and requires `host`.
abbrev port : ArgSpec
port = record {
  name = "port";
  kind = Args.option;
  short = none;
  long = none;
  value_type = int_type;
  cardinality = Args.required;
  default = none;
  conflicts_with = "socket" ∷ [];
  requires = "host" ∷ [];
  help = "";
  min = some (pos 1);
  max = some (pos 65535);
  min_f = none;
  max_f = none;
  pattern = none;
  min_occurs = none;
}

abbrev pub spec_of : List ArgSpec → List String → CommandSpec
spec_of arguments names = record {
  summary = "";
  long_about = none;
  examples = [];
  aliases = names;
  hidden_aliases = [];
  hidden = false;
  deprecated = none;
  env_vars = [];
  exit_codes = [];
  args = arguments;
  notes = none;
  category = none;
  help_order = none;
  syntax = none;
}

-- No text is a pattern.
abbrev no_regex : Regex
no_regex pattern = err "unsupported"

abbrev given : Map ArgValue
given = ("host", Args.str "localhost") ∷ ("port", int (pos 8080)) ∷ []

accepted : validate_typed_args no_regex (spec_of (port ∷ []) []) given ≡ []
unfolding validate_typed_args required_errors type_errors constraint_errors bound_errors
    conflict_errors requires_errors lookup value_matches_type
accepted = refl
