-- ===== src/Oidc/Client.antt =====
-- crates/oidc/src/client.rs, config.rs and section.rs: discovery of an IdP, and the requests to it.
-- The URL library, HTTP and the OpenID Connect library are records of functions over the world; an
-- `expect` that fails is a fault of its own.
pub mod Origins
pub mod Requests
mod Tests
use common_rust.Prelude.{
  ℕ, Bool, true, false, not, ◌&&◌, ◌||◌, Option, none, some, List, [], ◌∷◌, ◌++◌, ◌==◌, list_eq,
  nat_eq, if◌then◌else◌, any, keep,
}
use common_rust.Prelude.Dict.{or_else}
use common_rust.Prelude.Result.{Result, ok, err, ◌>>=◌}
use common_rust.Prelude.Text.{Text, codes, ends_with_char}
use common_rust.Config.Class.{Deployment, prod, dev}
use common_rust.Oidc.Principal.{Principal, from_userinfo, Upstream, rejected, unreachable}
use common_rust.Oidc.Idp.{TokenBundle, AuthorizeRequest}

pub data OidcError : Type 0 where
  discovery exchange refresh_failed userinfo config_invalid : Text → OidcError

pub data Fault : Type 0 where
  failed : OidcError → Fault
  panicked : Fault

pub record Urls (U : Type 0) : Type 0 where
  pub parse : Text → Result Text U
  pub text : U → Text
  pub scheme : U → Text
  pub host : U → Option Text
  pub port : U → Option ℕ
  pub set_scheme : U → Text → Option U
  pub set_host : U → Option Text → Option U
  pub set_port : U → Option ℕ → Option U

abbrev pub login_path_default : Text
login_path_default = codes "/oidc/login"

pub record OidcConfig (U : Type 0) : Type 0 where
  pub issuer : U
  pub backchannel : Option U
  pub client_id : Text
  pub client_secret : Option Text
  pub redirect_url : U
  pub scopes : List Text
  pub login_path : Text
  pub logout_path : Text
  pub cookie_name : Text
  pub cookie_secure : Bool
  pub danger_accept_invalid_certs : Bool
  pub deployment : Deployment

-- `OidcConfig::new`
abbrev pub new_config : {U : Type 0} → U → Text → U → Text → OidcConfig U
new_config issuer client_id redirect_url cookie_name = record {
  issuer = issuer;
  backchannel = none;
  client_id = client_id;
  client_secret = none;
  redirect_url = redirect_url;
  scopes = codes "openid" ∷ codes "profile" ∷ codes "effective_groups" ∷ [];
  login_path = login_path_default;
  logout_path = codes "/common-oidc/logout";
  cookie_name = cookie_name;
  cookie_secure = true;
  danger_accept_invalid_certs = false;
  deployment = dev;
}

abbrev pub with_client_secret : {U : Type 0} → OidcConfig U → Text → OidcConfig U
with_client_secret c secret = record c { client_secret = some secret }

unfoldable pub request_refresh_tokens : {U : Type 0} → OidcConfig U → OidcConfig U
unfolding any
request_refresh_tokens c =
    if any (λ s. s == codes "offline_access") c.scopes
    then c
    else record c { scopes = c.scopes ++ codes "offline_access" ∷ [] }

pub record OidcSection (U : Type 0) : Type 0 where
  pub issuer : U
  pub backchannel : Option U
  pub client_id : Text
  pub client_secret : Option Text
  pub redirect_url : U
  pub cookie_name : Text
  pub cookie_secure : Bool
  pub danger_accept_invalid_certs : Bool
  pub refresh_tokens : Bool

unfoldable pub to_config : {U : Type 0} → OidcSection U → Deployment → OidcConfig U
unfolding request_refresh_tokens
to_config s deployment =
    let c = record (new_config s.issuer s.client_id s.redirect_url s.cookie_name) {
      backchannel = s.backchannel;
      client_secret = s.client_secret;
      cookie_secure = s.cookie_secure;
      danger_accept_invalid_certs = s.danger_accept_invalid_certs;
      deployment = deployment;
    } in
    if s.refresh_tokens then request_refresh_tokens c else c

abbrev expect_valid {ℓ} : {A : Type ℓ} → Option A → Result Fault A
expect_valid none = err panicked
expect_valid (some a) = ok a

-- The client of the OpenID Connect library, by what it is given.
pub record Core (U : Type 0) : Type 0 where
  pub client_id : Text
  pub issuer : U
  pub auth_uri : U
  pub token_uri : U
  pub user_info_url : U
  pub redirect_uri : U
  pub client_secret : Option Text

pub record OidcClient (U : Type 0) : Type 0 where
  pub core : Core U
  pub config : OidcConfig U
  pub end_session_url : Option U

pub data Reply : Type 0 where
  not_sent bad_status not_json : Text → Reply
  document : (Text → Option Text) → Reply

pub record Http (W : Type 0) : Type 0 where
  pub builds : Bool → Result Text (Unit {0})
  pub get : Text → W → Reply × W

abbrev with_slash : Text → Text
with_slash s = if ends_with_char b'/' s then s else s ++ b'/' ∷ []

abbrev get_failed : Text → Text → Fault
get_failed url e = failed (discovery (codes "GET " ++ (url ++ (codes ": " ++ e))))

abbrev pub document_of : Text → Reply → Result Fault (Text → Option Text)
document_of url (not_sent e) = err (get_failed url e)
document_of url (bad_status e) = err (get_failed url e)
document_of url (not_json e) =
    err (failed (discovery (codes "parse " ++ (url ++ (codes ": " ++ e)))))
document_of url (document d) = ok d

abbrev http_built : Result Text (Unit {0}) → Result Fault (Unit {0})
http_built (ok _) = ok tt
http_built (err e) = err (failed (config_invalid (codes "http client: " ++ e)))

module _ {U : Type 0} (urls : Urls U) where
  unfoldable pub swap_origin : U → U → Result Fault U
  swap_origin url base = do
    out ← expect_valid (urls.set_scheme url (urls.scheme base))
    hosted ← expect_valid (urls.set_host out (urls.host base))
    expect_valid (urls.set_port hosted (urls.port base))

  abbrev pub back_of : OidcConfig U → U
  back_of c = elim c.backchannel [ none ↦ c.issuer | some u ↦ u ]

  abbrev parsed : Text → Result Text U → Result Fault U
  parsed key (err e) = err (failed (discovery (key ++ (codes ": " ++ e))))
  parsed key (ok u) = ok u

  abbrev raw_of : Text → Option Text → Result Fault Text
  raw_of key none = err (failed (discovery (codes "discovery document lacks " ++ key)))
  raw_of key (some raw) = ok raw

  unfoldable pub endpoint : (Text → Option Text) → Text → U → Result Fault U
  unfolding swap_origin
  endpoint doc key base = do
    raw ← raw_of key (doc key)
    u ← parsed key (urls.parse raw)
    swap_origin u base

  abbrev end_session_as : U → Result Text U → Result Fault (Option U)
  end_session_as issuer (err e) = ok none
  end_session_as issuer (ok u) = swap_origin u issuer >>= λ v. ok (some v)

  abbrev pub end_session : U → Option Text → Result Fault (Option U)
  end_session issuer none = ok none
  end_session issuer (some raw) = end_session_as issuer (urls.parse raw)

  -- What `discover` makes of the document.
  unfoldable pub from_document : OidcConfig U → (Text → Option Text) → Result Fault (OidcClient U)
  unfolding endpoint
  from_document c doc = do
    auth_url ← endpoint doc (codes "authorization_endpoint") c.issuer
    token_url ← endpoint doc (codes "token_endpoint") (back_of c)
    userinfo_url ← endpoint doc (codes "userinfo_endpoint") (back_of c)
    end_session_url ← end_session c.issuer (doc (codes "end_session_endpoint"))
    ok (record {
      core = record {
        client_id = c.client_id;
        issuer = c.issuer;
        auth_uri = auth_url;
        token_uri = token_url;
        user_info_url = userinfo_url;
        redirect_uri = c.redirect_url;
        client_secret = c.client_secret;
      };
      config = c;
      end_session_url = end_session_url;
    })

  module _ {W : Type 0} (http : Http W) where
    abbrev pub fetched : OidcConfig U → Text → Reply × W → Result Fault (OidcClient U) × W
    fetched c url (reply, w) = (document_of url reply >>= from_document c, w)

    abbrev pub discovered_at : OidcConfig U → Result Fault U → W → Result Fault (OidcClient U) × W
    discovered_at c (err e) w = (err e, w)
    discovered_at c (ok base) w =
        let url = with_slash (urls.text base) ++ codes ".well-known/openid-configuration" in
        fetched c url (http.get url w)

    abbrev built_as : OidcConfig U → Result Fault (Unit {0}) → W → Result Fault (OidcClient U) × W
    built_as c (err e) w = (err e, w)
    built_as c (ok _) w = discovered_at c (swap_origin c.issuer (back_of c)) w

    -- `OidcClient::discover`
    unfoldable pub discover : OidcConfig U → W → Result Fault (OidcClient U) × W
    unfolding from_document swap_origin ends_with_char
    discover c w = built_as c (http_built (http.builds c.danger_accept_invalid_certs)) w

    abbrev is_refused : Deployment → Bool → Bool
    is_refused prod danger = danger
    is_refused dev danger = false

    -- `OidcState::discover`, which creates the stores besides
    unfoldable pub discover_state : OidcConfig U → W → Result Fault (OidcClient U) × W
    unfolding discover
    discover_state c w =
        if is_refused c.deployment c.danger_accept_invalid_certs
        then (
          err (
              failed (
                config_invalid (
                  codes
                    "danger_accept_invalid_certs is dev-only and refused under DEPLOYMENT_TYPE=prod"))),
          w,
        )
        else discover c w
