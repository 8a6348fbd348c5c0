-- ===== src/Logging/Boot/Tests.antt =====
-- A production program whose log is brought up from its environment.
use common_rust.Prelude.{Option, none, some, ◌==◌, list_eq, nat_eq, if◌then◌else◌, ◌≡◌}
use common_rust.Prelude.Result.{Result, ok, ◌>>=◌}
use common_rust.Prelude.Text.{Text, codes}
use common_rust.Config.Class.{Deployment, prod}
use common_rust.Logging.Filter.{LevelFilter}
use common_rust.Logging.Boot.{init, boot_sealed, under, boot_sealed-init}

abbrev no_levels : Text → Option LevelFilter
no_levels t = none

abbrev any_directives : Text → Result Text Text
any_directives t = ok t

abbrev var : Text → Option Text
var name = if name == codes "LOG_FORMAT" then some (codes "human") else none

boot_sealed-init_example :
    boot_sealed no_levels any_directives (λ (d : Deployment). d) (ok prod) var
    ≡ (init no_levels any_directives (under prod var) >>= λ i. ok (prod, i))
boot_sealed-init_example =
    boot_sealed-init no_levels any_directives (λ (d : Deployment). d) prod var
