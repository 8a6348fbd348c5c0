-- ===== src/Config/Schema.antt =====
-- crates/config/src/schema.rs: what the derive registers per leaf, and the provenance of a value.
use common_rust.Prelude.{Bool, Option, none, some, ◌++◌}
use common_rust.Prelude.Text.{Text, codes}
use common_rust.Config.Path
use common_rust.Config.Path.{FieldPath}

pub data Presence : Type 0 where
  required : Presence
  default : Text → Presence
  optional : Presence

pub data Class : Type 0 where
  neutral prod_required dev_only : Class

pub data Kind : Type 0 where
  bool text : Kind

pub record Field : Type 0 where
  pub path : FieldPath
  pub help : Text
  pub presence : Presence
  pub class : Class
  pub secret : Bool
  pub kind : Kind
  pub env : Option Text

abbrev pub field_flag : Field → Text
field_flag f = Path.flag f.path

abbrev env_or : Option Text → Text → Text
env_or none generated = generated
env_or (some name) generated = name

abbrev pub field_env : Text → Field → Text
field_env app f = env_or f.env (Path.env app f.path)

abbrev pub field_toml : Field → Text
field_toml f = Path.dotted f.path

-- A file is named by the text that `display` shows of its path.
pub data Origin : Type 0 where
  default : Origin
  file : Text → Origin
  env : Text → Origin
  arg : Text → Origin

unfoldable pub origin_text : Origin → Text
origin_text Origin.default = codes "default"
origin_text (Origin.file path) = codes "file " ++ path
origin_text (Origin.env name) = codes "env " ++ name
origin_text (Origin.arg flag) = codes "arg " ++ flag

pub record Entry : Type 0 where
  pub text : Text
  pub origin : Origin

pub data FileStatus : Type 0 where
  not_configured : FileStatus
  read : Text → FileStatus
