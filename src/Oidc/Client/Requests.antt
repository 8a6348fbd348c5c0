-- ===== src/Oidc/Client/Requests.antt =====
-- crates/oidc/src/client.rs: the requests that a discovered client sends.
use common_rust.Prelude.{
  ℕ, Bool, not, ◌||◌, Option, some, List, ◌++◌, ◌==◌, list_eq, nat_eq, if◌then◌else◌, keep,
}
use common_rust.Prelude.Dict.{or_else}
use common_rust.Prelude.Result.{Result, ok, err}
use common_rust.Prelude.Text.{Text, codes}
use common_rust.Oidc.Principal.{Principal, from_userinfo, Upstream, rejected, unreachable}
use common_rust.Oidc.Idp.{TokenBundle, AuthorizeRequest}
use common_rust.Oidc.Client.{OidcClient, Core, OidcError, exchange}

-- What the library says of a failed request for tokens and of userinfo; an answer with a status
-- shows the status and the reason, and its own whole text.
pub data RequestTokenError : Type 0 where
  server_response other : Text → RequestTokenError

pub data UserInfoError : Type 0 where
  response : ℕ → Text → Text → Text → UserInfoError
  otherwise : Text → UserInfoError

pub record Claims : Type 0 where
  pub subject : Text
  pub preferred_username : Option Text
  pub effective_groups : List Text

pub record Pkce : Type 0 where
  pub challenge : Text
  pub verifier : Text

pub record Protocol (W U : Type 0) : Type 0 where
  pub new_random_sha256 : W → Pkce × W
  pub authorize : Core U → Text → List Text → Bool → W → (Text × Text) × W
  pub exchange_code : Core U → Text → Text → W → Result RequestTokenError TokenBundle × W
  pub exchange_refresh_token : Core U → Text → W → Result RequestTokenError TokenBundle × W
  pub user_info : Core U → Text → W → Result UserInfoError Claims × W
  pub token_error_text : RequestTokenError → Text

unfoldable pub classify_userinfo : UserInfoError → Upstream
classify_userinfo (response status shown why whole) =
    if (status == 401) || (status == 403)
    then rejected (codes "userinfo returned " ++ (shown ++ (codes ": " ++ why)))
    else unreachable whole
classify_userinfo (otherwise whole) = unreachable whole

abbrev classify_refresh : (RequestTokenError → Text) → RequestTokenError → Upstream
classify_refresh text (server_response r) = rejected r
classify_refresh text (other e) = unreachable (text (other e))

abbrev exchanged_as :
    (RequestTokenError → Text) → Result RequestTokenError TokenBundle → Result OidcError TokenBundle
exchanged_as text (ok tokens) = ok tokens
exchanged_as text (err e) = err (exchange (text e))

abbrev refreshed_as :
    (RequestTokenError → Text)
    → Text
    → Result RequestTokenError TokenBundle
    → Result Upstream TokenBundle
refreshed_as text old (err e) = err (classify_refresh text e)
refreshed_as text old (ok tokens) =
    ok (record tokens { refresh_token = or_else tokens.refresh_token (some old) })

abbrev principal_or_rejected : Result Text Principal → Result Upstream Principal
principal_or_rejected (ok p) = ok p
principal_or_rejected (err why) = err (rejected why)

abbrev principal_as : Result UserInfoError Claims → Result Upstream Principal
principal_as (err e) = err (classify_userinfo e)
principal_as (ok claims) =
    principal_or_rejected
      (from_userinfo claims.subject claims.preferred_username claims.effective_groups)

module _ {W U : Type 0} (protocol : Protocol W U) (client : OidcClient U) where
  -- The scopes that are added; the library adds `openid` itself.
  abbrev pub added_scopes : List Text
  added_scopes = keep (λ s. not (s == codes "openid")) client.config.scopes

  unfoldable pub authorize_url : Bool → W → AuthorizeRequest × W
  unfolding keep
  authorize_url silent w =
      let (pkce, w') = protocol.new_random_sha256 w in
      let (made, w'') = protocol.authorize client.core pkce.challenge added_scopes silent w' in
      (record { url = made.0; csrf_state = made.1; pkce_verifier = pkce.verifier }, w'')

  unfoldable pub exchange_code : Text → Text → W → Result OidcError TokenBundle × W
  exchange_code code verifier w =
      let (r, w') = protocol.exchange_code client.core code verifier w in
      (exchanged_as protocol.token_error_text r, w')

  unfoldable pub refresh : Text → W → Result Upstream TokenBundle × W
  refresh refresh_token w =
      let (r, w') = protocol.exchange_refresh_token client.core refresh_token w in
      (refreshed_as protocol.token_error_text refresh_token r, w')

  unfoldable pub principal_from_access_token : Text → W → Result Upstream Principal × W
  unfolding classify_userinfo from_userinfo
  principal_from_access_token access_token w =
      let (r, w') = protocol.user_info client.core access_token w in (principal_as r, w')
