-- ===== src/Config/Tests.antt =====
-- A small schema, and the theorems on the configuration applied to it.
use common_rust.Prelude.{
  list_beq, list_eq, nat_eq, ◌==◌, ◌↔◌, if◌then◌else◌, Bool, true, false, Option, none, some, List,
  [], ◌∷◌, map, ◌≡◌, refl, arith, All,
}
use common_rust.Prelude.Dict.{empty, collect, or_else}
use common_rust.Prelude.Result.{ok}
use common_rust.Prelude.Text.{Text, codes}
use common_rust.Config.Path
use common_rust.Config.Path.{FieldPath, path_eq}
use common_rust.Config.Schema.{
  Field, Presence, Class, neutral, prod_required, dev_only, Kind, Origin, Entry, FileStatus,
}
use common_rust.Config.Args.{Parsed, nothing_parsed, flag_table, parse}
use common_rust.Config.Args.RoundTrip.{IsSettable, setting_token, setting_value, parse-settings}
use common_rust.Config.File
use common_rust.Config.File.{Files, Table, Value}
use common_rust.Config.Values.{Values}
use common_rust.Config.Layers.{
  Entries, merge, file_choice, with_args, with_env, with_file, with_defaults,
}
use common_rust.Config.Layers.Precedence.{
  default_entry, env_entry, arg_entry, chosen_entry, merge_precedence,
}
use common_rust.Config.Class.{prod, enforce}
use common_rust.Config.Class.Gate.{IsPermitted, enforce_iff}
use common_rust.Config.Help.{print_config}
use common_rust.Config.Help.Masking.{AgreeUpToSecret, print_config_masks}
use common_rust.Config.Load.{Root, Outcome, load_from}
use common_rust.Config.Load.Safety.{IsLoaded, load_from-IsLoaded}

abbrev path_of : Text → Text → FieldPath
path_of a b = record { segments = a ∷ b ∷ [] }

abbrev plain_field : FieldPath → Presence → Class → Bool → Kind → Field
plain_field path presence class secret kind = record {
  path = path;
  help = [];
  presence = presence;
  class = class;
  secret = secret;
  kind = kind;
  env = none;
}

abbrev port_field : Field
port_field =
    plain_field (path_of (codes "web") (codes "bind_port")) (Presence.default (codes "8080"))
      neutral false Kind.text

abbrev secret_field : Field
secret_field =
    plain_field (path_of (codes "oidc") (codes "client_secret")) Presence.optional prod_required
      true Kind.text

abbrev stub_field : Field
stub_field =
    plain_field (path_of (codes "dev") (codes "stub")) Presence.optional dev_only false Kind.bool

abbrev sample_schema : List Field
sample_schema = port_field ∷ secret_field ∷ stub_field ∷ []

-- One file, with a port, for the default's place.
abbrev sample_files : Files
sample_files = record {
  read_to_string = λ _. ok (codes "[web]");
  from_str = λ _. ok (
      Table.entry (codes "web")
        (Value.table (Table.entry (codes "bind_port") (Value.integer (codes "8443")) Table.nil))
        Table.nil);
}

abbrev sample_args : List Text
sample_args =
    codes "--web--bind-port=9000"
    ∷ codes "--oidc--client-secret"
    ∷ codes "s3"
    ∷ codes "--config=app.toml"
    ∷ []

abbrev sample_settings : List (FieldPath × Text × Text)
sample_settings =
    (port_field.path, codes "9000", codes "--web--bind-port")
    ∷ (secret_field.path, codes "s3", codes "--oidc--client-secret")
    ∷ []

abbrev sample_parsed : Parsed
sample_parsed = record {
  help = false;
  print_config = false;
  config = some (codes "app.toml");
  values = sample_settings;
}

sample_parse : parse sample_schema sample_args ≡ ok sample_parsed
unfolding parse list_beq collect Path.flag
sample_parse = refl

-- The port, with a value that itself holds `=`.
abbrev port_setting : Field × Text
port_setting = (port_field, codes "a=b")

port-IsSettable : IsSettable (flag_table sample_schema) port_field
unfolding list_beq collect Path.flag
port-IsSettable = record {
  found = refl;
  no_equals = ground arith;
  not_help = λ e. absurd (cc e);
  not_help_short = λ e. absurd (cc e);
  not_print_config = λ e. absurd (cc e);
  not_config = λ e. absurd (cc e);
}

parse-settings_example :
    parse sample_schema (map setting_token (port_setting ∷ []))
    ≡ ok (record nothing_parsed { values = map setting_value (port_setting ∷ []) })
parse-settings_example = parse-settings sample_schema (port_setting ∷ []) (port-IsSettable, tt)

-- The environment sets the port and the secret; the arguments set the port again.
abbrev sample_env : List (Text × Text)
sample_env =
    (codes "APP_WEB__BIND_PORT", codes "9100")
    ∷ (codes "APP_OIDC__CLIENT_SECRET", codes "from env")
    ∷ []

abbrev port_only : Parsed
port_only = record sample_parsed {
  values = (port_field.path, codes "9000", codes "--web--bind-port") ∷ [];
}

abbrev entry_of : Text → Origin → Option Entry
entry_of text origin = some (record { text = text; origin = origin })

-- The table that the sources give, as far as it is read.
abbrev merged_entries : Entries
merged_entries = with_args port_only.values (
    with_env (codes "app") (collect sample_env) sample_schema (
      with_file (codes "app.toml") ((port_field.path, codes "8443") ∷ [])
        (with_defaults sample_schema empty)))

abbrev sample_values : Values
sample_values = record {
  app = codes "app";
  fields = sample_schema;
  entries = merged_entries;
  file = FileStatus.read (codes "app.toml");
}

sample_merge :
    merge sample_files (codes "app") sample_schema port_only sample_env ≡ ok sample_values
unfolding merge File.read list_beq collect Path.dotted
sample_merge = refl

merge_precedence_example :
    sample_values.entries port_field.path
    ≡ or_else (arg_entry port_field.path port_only.values) (
        or_else (env_entry (codes "app") sample_env port_field.path sample_schema) (
          or_else
            (chosen_entry sample_files
              (codes "app")
              sample_schema
              (file_choice (codes "app") port_only.config (collect sample_env))
              port_field.path)
            (default_entry port_field.path sample_schema)))
merge_precedence_example =
    merge_precedence sample_files (codes "app") sample_schema port_only sample_env sample_values
      port_field.path sample_merge

-- The arguments win for the port, the environment for the secret, and the stub is unset.
port_of_arguments :
    sample_values.entries port_field.path
    ≡ entry_of (codes "9000") (Origin.arg (codes "--web--bind-port"))
unfolding with_args list_beq
port_of_arguments = refl

secret_of_environment :
    sample_values.entries secret_field.path
    ≡ entry_of (codes "from env") (Origin.env (codes "APP_OIDC__CLIENT_SECRET"))
unfolding with_args with_env with_file with_defaults collect list_beq Path.env
secret_of_environment = refl

enforce_iff_example :
    (enforce sample_values prod ≡ ok tt)
    ↔ All (λ (f : Field). IsPermitted f.class f.kind (sample_values.entries f.path)) sample_schema
enforce_iff_example = enforce_iff sample_values

-- The same table with another secret.
abbrev masked_values : Values
masked_values = record sample_values {
  entries = λ p.
      if p == secret_field.path
      then entry_of (codes "another") (Origin.env (codes "APP_OIDC__CLIENT_SECRET"))
      else sample_values.entries p;
}

sample_agrees :
    All
      (λ (f : Field).
        AgreeUpToSecret f.secret (sample_values.entries f.path) (masked_values.entries f.path))
      sample_schema
unfolding with_args with_env with_file with_defaults collect list_beq Path.env
sample_agrees = ((refl, refl), ((refl, tt), (tt, tt)))

print_config_masks_example : print_config sample_values ≡ print_config masked_values
print_config_masks_example =
    print_config_masks sample_values masked_values refl refl refl sample_agrees

-- A program that takes its port as it is, in production.
abbrev sample_root : Root (Option Entry)
sample_root = record {
  app = codes "app";
  bin = codes "app";
  schema = sample_schema;
  from_values = λ v. ok (v.entries port_field.path);
  deployment = λ _. prod;
}

sample_load :
    load_from sample_files sample_root sample_args sample_env
    ≡ ok (Outcome.config (entry_of (codes "9000") (Origin.arg (codes "--web--bind-port"))))
unfolding load_from list_beq collect Path.flag Path.dotted Path.env
sample_load = refl

load_from-IsLoaded_example :
    IsLoaded sample_files sample_root sample_args sample_env
      (entry_of (codes "9000") (Origin.arg (codes "--web--bind-port")))
load_from-IsLoaded_example =
    load_from-IsLoaded sample_files sample_root sample_args sample_env
      (entry_of (codes "9000") (Origin.arg (codes "--web--bind-port"))) sample_load
