-- ===== src/Logging/Config.antt =====
-- crates/logging/src/config.rs: what the logging environment says. Reading tracing directives is the
-- tracing library's, and a parameter.
pub mod Resolved
use common_rust.Prelude.{Option, none, some, [], ◌∷◌, ◌++◌, ◌==◌, list_eq, nat_eq, if◌then◌else◌}
use common_rust.Prelude.Result.{Result, ok, err, ◌>>=◌, ◌>>◌}
use common_rust.Prelude.Text.{Text, codes}
use common_rust.Config.Refusal.{Refusal, new, with_detail}
use common_rust.Config.Class.{Deployment, prod, dev, parse_deployment}
use common_rust.Logging.Filter.{LevelFilter, Designators, permissive}
use common_rust.Logging.Filter

abbrev pub default_filter : Text
default_filter = codes "info"

abbrev pub rust_log_variable : Text
rust_log_variable = codes "RUST_LOG"

abbrev pub log_format_variable : Text
log_format_variable = codes "LOG_FORMAT"

abbrev pub log_format_accepted : Text
log_format_accepted = codes "one of [\"human\", \"json\"] (unset means json)"

abbrev rust_log_accepted : Text
rust_log_accepted =
    codes "comma-separated tracing directives such as "
    ++ (codes "\"info\", \"my_crate=debug\" or \"my_crate::module=trace,sqlx=warn\" "
        ++ codes "(unset means \"info\" under DEPLOYMENT_TYPE=prod, \"debug\" under dev)")

pub data Format : Type 0 where
  human json : Format

-- `Format::parse`
unfoldable pub parse_format : Option Text → Result Refusal Format
parse_format none = ok json
parse_format (some text) =
    if text == codes "human"
    then ok human
    else if text == codes "json"
    then ok json
    else err (new log_format_variable text log_format_accepted)

pub record Log : Type 0 where
  pub format : Format
  pub designators : Option Text

-- `Log::parse`
unfoldable pub parse_log : Option Text → Option Text → Result Refusal Log
unfolding parse_format
parse_log format designators = do
  f ← parse_format format
  ok (record { format = f; designators = designators })

pub record LogConfig : Type 0 where
  pub format : Format
  pub deployment : Deployment
  pub filter : Text
  pub designators : Designators

abbrev pub default : LogConfig
default = record {
  format = json;
  deployment = dev;
  filter = default_filter;
  designators = permissive;
}

abbrev filter_under : Deployment → Text
filter_under prod = codes "info"
filter_under dev = codes "debug"

abbrev pub filter_of : Option Text → Deployment → Text
filter_of none deployment = filter_under deployment
filter_of (some []) deployment = filter_under deployment
filter_of (some (c ∷ s)) deployment = c ∷ s

module _ {F : Type 0} (level_of : Text → Option LevelFilter) (try_new : Text → Result Text F) where
  abbrev env_filter_as : Text → Result Text F → Result Refusal F
  env_filter_as filter (ok f) = ok f
  env_filter_as filter (err e) =
      err (with_detail (new rust_log_variable filter rust_log_accepted) e)

  unfoldable pub env_filter : LogConfig → Result Refusal F
  env_filter c = env_filter_as c.filter (try_new c.filter)

  unfoldable pub assemble :
      Format → Deployment → Option Text → Option Text → Result Refusal LogConfig
  unfolding env_filter
  assemble format deployment rust_log log_designators = do
    designators ← Filter.parse level_of log_designators
    let resolved : LogConfig = record {
      format = format;
      deployment = deployment;
      filter = filter_of rust_log deployment;
      designators = designators;
    }
    env_filter resolved
    ok resolved

  unfoldable pub resolve :
      Option Text → Option Text → Option Text → Option Text → Result Refusal LogConfig
  unfolding parse_format parse_deployment assemble
  resolve log_format deployment_type rust_log log_designators = do
    format ← parse_format log_format
    deployment ← parse_deployment deployment_type
    assemble format deployment rust_log log_designators

  abbrev pub from_log : Log → Deployment → Option Text → Result Refusal LogConfig
  from_log log deployment rust_log = assemble log.format deployment rust_log log.designators
