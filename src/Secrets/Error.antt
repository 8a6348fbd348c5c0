-- ===== src/Secrets/Error.antt =====
-- crates/secrets/src/error.rs and secret.rs: how a call fails, and the values that no formatter
-- shows.
use common_rust.Prelude.Text.{Text, codes}

pub data Stage : Type 0 where
  authentik_token vault_login vault_read : Stage

abbrev pub stage_text : Stage → Text
stage_text Stage.authentik_token = codes "authentik token request"
stage_text Stage.vault_login = codes "OpenBao jwt login"
stage_text Stage.vault_read = codes "OpenBao kv read"

-- `panicked` is no error of the source: a sum of a moment and a duration that the clock cannot hold
-- panics.
pub data Error : Type 0 where
  config : Text → Error
  network : Stage → Text → Error
  auth_rejected : Stage → Error
  not_found panicked : Error
  upstream : Stage → Text → Error

pub record Secret : Type 0 where
  pub expose : Text

-- `Display` and `Debug` of a secret
abbrev pub secret_text : Secret → Text
secret_text s = codes "<redacted>"
