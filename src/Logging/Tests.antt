-- ===== src/Logging/Tests.antt =====
-- Filters read from texts, and the theorems on them applied.
use common_rust.Prelude.{
  true, false, Option, none, some, ◌==◌, list_eq, list_beq, nat_eq, if◌then◌else◌, ◌≡◌, ◌↔◌, refl,
}
use common_rust.Prelude.Dict.{insert, empty}
use common_rust.Prelude.Result.{ok}
use common_rust.Prelude.Text.{Text, codes, starts_with}
use common_rust.Logging.Designator.{custom, from_str, display, is_well_formed}
use common_rust.Logging.Designator.RoundTrip.{from_str-display}
use common_rust.Logging.Filter.{LevelFilter, off, warn, info, Designators, parse, admits}
use common_rust.Logging.Filter.Rules.{IsAllowed, parse-admits}
use common_rust.Prelude.Result.{Result}
use common_rust.Config.Class.{Deployment}
use common_rust.Logging.Config.{Format, LogConfig, resolve}
use common_rust.Logging.Config.Resolved.{IsResolved, resolve-IsResolved}

from_str-display_example :
    from_str (display (custom (codes "c-scheduler"))) ≡ custom (codes "c-scheduler")
unfolding is_well_formed starts_with
from_str-display_example = from_str-display (custom (codes "c-scheduler")) refl

abbrev level_of : Text → Option LevelFilter
level_of text =
    if text == codes "warn"
    then some warn
    else if text == codes "info"
    then some info
    else if text == codes "off"
    then some off
    else none

abbrev sample_value : Option Text
sample_value = some (codes " auth=warn, info,,c-scheduler = off ")

abbrev sample_filter : Designators
sample_filter = record {
  rules = insert (codes "c-scheduler") off (insert (codes "auth") warn empty);
  default = some info;
  unset = false;
}

sample_parse : parse level_of sample_value ≡ ok sample_filter
unfolding parse list_beq
sample_parse = refl

parse-admits_example :
    (admits sample_filter (some (codes "http")) info ≡ true)
    ↔ IsAllowed level_of sample_value (codes "http") info
parse-admits_example =
    parse-admits level_of sample_value sample_filter (codes "http") info sample_parse

sample_rule : sample_filter.rules (codes "c-scheduler") ≡ some off
unfolding list_beq
sample_rule = refl

-- The tracing library takes every text for directives.
abbrev any_directives : Text → Result Text Text
any_directives t = ok t

abbrev sample_config : LogConfig
sample_config = record {
  format = Format.json;
  deployment = Deployment.dev;
  filter = codes "debug";
  designators = sample_filter;
}

resolve-IsResolved_example :
    (resolve level_of any_directives none (some (codes "dev")) (some (codes "")) sample_value
      ≡ ok sample_config)
    ↔ IsResolved level_of any_directives none
        (some (codes "dev"))
        (some (codes ""))
        sample_value
        sample_config
resolve-IsResolved_example =
    resolve-IsResolved level_of any_directives none (some (codes "dev")) (some (codes ""))
      sample_value sample_config
