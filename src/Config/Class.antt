-- ===== src/Config/Class.antt =====
-- crates/config/src/class.rs and deployment.rs: which options a production deployment requires or
-- forbids.
pub mod Gate
use common_rust.Prelude.{
  Bool, true, false, not, ◌&&◌, Option, none, some, List, [], ◌∷◌, ◌++◌, ◌==◌, list_eq, list_beq,
  nat_eq, if◌then◌else◌,
}
use common_rust.Prelude.Result.{Result, ok, err, ◌>>=◌, ◌>>◌}
use common_rust.Prelude.Text.{Text, codes, is_some}
use common_rust.Config.Path
use common_rust.Config.Refusal.{Refusal, new, with_detail}
use common_rust.Config.Schema.{
  Field, field_flag, field_env, field_toml, Kind, Class, neutral, prod_required, dev_only, Entry,
}
use common_rust.Config.Values
use common_rust.Config.Values.{Values, Fault, mask}

pub data Deployment : Type 0 where
  prod dev : Deployment

abbrev pub deployment_accepted : Text
deployment_accepted = codes "one of [\"prod\", \"dev\"]"

abbrev pub deployment_variable : Text
deployment_variable = codes "DEPLOYMENT_TYPE"

-- The spelling that `Display` and `FromStr` share.
abbrev pub deployment_text : Deployment → Text
deployment_text prod = codes "prod"
deployment_text dev = codes "dev"

-- `Deployment::parse`
unfoldable pub parse_deployment : Option Text → Result Refusal Deployment
parse_deployment none = err (
    with_detail (new deployment_variable (codes "unset") deployment_accepted)
      (codes "required and unset"))
parse_deployment (some text) =
    if text == deployment_text prod
    then ok prod
    else if text == deployment_text dev
    then ok dev
    else err (new deployment_variable text deployment_accepted)

unfoldable pub spellings : Field → Text → Text
spellings f app = field_env app f ++ (codes ", " ++ (field_flag f ++ (codes ", " ++ field_toml f)))

abbrev accepted_under : Class → Text → Text
accepted_under prod_required s = codes "a value under DEPLOYMENT_TYPE=prod (" ++ (s ++ codes ")")
accepted_under neutral s = codes "unset under DEPLOYMENT_TYPE=prod (" ++ (s ++ codes ")")
accepted_under dev_only s = codes "unset under DEPLOYMENT_TYPE=prod (" ++ (s ++ codes ")")

unfoldable pub refusal : Field → Text → Text → Refusal
unfolding spellings
refusal f app value =
    new (field_env app f) (if f.secret && not (value == codes "unset") then mask else value)
      (accepted_under f.class (spellings f app))

abbrev bool_or_false : Option Bool → Bool
bool_or_false none = false
bool_or_false (some b) = b

unfoldable pub enabled_as : Kind → Values → Field → Result Fault Bool
unfolding Values.bool_opt
enabled_as Kind.bool v f = Values.bool_opt v f.path >>= λ b. ok (bool_or_false b)
enabled_as Kind.text v f = ok (is_some (v.entries f.path))

unfoldable pub enabled : Values → Field → Result Fault Bool
unfolding enabled_as
enabled v f = enabled_as f.kind v f

abbrev pub text_of : Option Entry → Text
text_of none = []
text_of (some e) = e.text

-- The body of the loop, for the field's class.
unfoldable pub check_class : Class → Values → Field → Result Fault (Unit {0})
unfolding enabled refusal
check_class neutral v f = ok tt
check_class prod_required v f =
    if is_some (v.entries f.path)
    then ok tt
    else err (
        Fault.refused (
          with_detail (refusal f v.app (codes "unset"))
            (codes "prod-required and unset under DEPLOYMENT_TYPE=prod")))
check_class dev_only v f = do
  on ← enabled v f
  if on
      then err (
          Fault.refused (
            with_detail (refusal f v.app (text_of (v.entries f.path)))
              (codes "dev-only and set under DEPLOYMENT_TYPE=prod")))
      else ok tt

unfoldable pub check_all : Values → List Field → Result Fault (Unit {0})
unfolding check_class
check_all v [] = ok tt
check_all v (f ∷ fs) = check_class f.class v f >> check_all v fs

unfoldable pub enforce : Values → Deployment → Result Fault (Unit {0})
unfolding check_all
enforce v dev = ok tt
enforce v prod = check_all v v.fields
