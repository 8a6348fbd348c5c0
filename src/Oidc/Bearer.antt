-- ===== src/Oidc/Bearer.antt =====
-- crates/oidc/src/bearer.rs: a bearer token checked by one userinfo request. Sending it, and the
-- words for a status, are a record of functions; a reply has its status and its body as JSON.
use common_rust.Prelude.{ℕ, ◌&&◌, ◌||◌, Option, List, ◌++◌, leb, is_eq, if◌then◌else◌}
use common_rust.Prelude.Result.{Result, ok, err}
use common_rust.Prelude.Text.{Text, codes}
use common_rust.Oidc.Principal.{Principal, from_userinfo}

pub data ValidationError : Type 0 where
  rejected : ValidationError
  upstream : Text → ValidationError

pub record UserInfoResponse : Type 0 where
  pub sub : Text
  pub preferred_username : Option Text
  pub effective_groups : List Text

pub record Reply : Type 0 where
  pub status : ℕ
  pub json : Result Text UserInfoResponse

pub record BearerValidator (W : Type 0) : Type 0 where
  pub send : Text → W → Result Text Reply × W
  pub status_text : ℕ → Text

abbrev upstream_error : Result Text Principal → Result ValidationError Principal
upstream_error (ok p) = ok p
upstream_error (err e) = err (upstream e)

unfoldable pub read_body : Result Text UserInfoResponse → Result ValidationError Principal
unfolding from_userinfo
read_body (err e) = err (upstream (codes "userinfo returned invalid payload: " ++ e))
read_body (ok body) =
    upstream_error (from_userinfo body.sub body.preferred_username body.effective_groups)

unfoldable pub judge : (ℕ → Text) → Result Text Reply → Result ValidationError Principal
unfolding read_body
judge status_text (err e) = err (upstream (codes "userinfo unreachable: " ++ e))
judge status_text (ok r) =
    if leb 200 r.status && leb r.status 299
    then read_body r.json
    else if is_eq r.status 401 || is_eq r.status 403
    then err rejected
    else err (upstream (codes "userinfo returned " ++ status_text r.status))

unfoldable pub validate :
    {W : Type 0} → BearerValidator W → Text → W → Result ValidationError Principal × W
unfolding judge
validate b token w = let (reply, w') = b.send token w in (judge b.status_text reply, w')
