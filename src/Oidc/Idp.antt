-- ===== src/Oidc/Idp.antt =====
-- crates/oidc/src/web.rs and client.rs, what the browser flow stands on. The IdP, the clock, fresh
-- identifiers and the URL library are a record of functions over the world; the server's state is
-- its two stores, which are the in-memory ones, and the world.
use common_rust.Prelude.{ℕ, Bool, false, Option, none, some, List, [], list_eq, nat_eq}
use common_rust.Prelude.Result.{Result}
use common_rust.Prelude.Text.{Text, codes}
use common_rust.Oidc.Principal.{Principal}
use common_rust.Oidc.Store.{Session, FlowState, Expiring}
use common_rust.Oidc.Retry.{Attempt, Permission}

abbrev pub flow_cookie : Text
flow_cookie = codes "oidc_flow"

pub record TokenBundle : Type 0 where
  pub access_token : Text
  pub refresh_token : Option Text

pub record AuthorizeRequest : Type 0 where
  pub url : Text
  pub csrf_state : Text
  pub pkce_verifier : Text

-- What the URL library makes of a target joined to the base `https://next.invalid/`.
pub record Resolved : Type 0 where
  pub same_origin : Bool
  pub path : Text
  pub query : Option Text
  pub fragment : Option Text

pub record OidcConfig : Type 0 where
  pub cookie_name : Text
  pub cookie_secure : Bool
  pub login_path : Text
  pub app_origin : Text
  pub end_session_url : Option Text

pub record Idp (W : Type 0) : Type 0 where
  pub clock : W → ℕ
  pub fresh_id : W → Text × W
  pub authorise : W → Permission × W
  pub userinfo : Text → W → Attempt Principal × W
  pub refresh : Text → W → Attempt TokenBundle × W
  pub authorize_url : Bool → W → AuthorizeRequest × W
  pub exchange_code : Text → Text → W → Result Text TokenBundle × W
  pub join : Text → Option Resolved

pub record Server (W : Type 0) : Type 0 where
  pub sessions : Expiring Session
  pub flows : Expiring FlowState
  pub world : W

pub record Cookie : Type 0 where
  pub name : Text
  pub value : Text
  pub path : Text
  pub http_only : Bool
  pub lax : Bool
  pub secure : Bool
  pub max_age : Option ℕ

pub data CookieChange : Type 0 where
  add : Cookie → CookieChange
  remove : Cookie → CookieChange

pub record Response : Type 0 where
  pub status : ℕ
  pub location : Option Text
  pub reauth : Option Text
  pub cookies : List CookieChange
  pub body : Text

-- The headers that the handlers read, as far as they are text, and the request's target.
pub record Request : Type 0 where
  pub is_get : Bool
  pub accept : Option Text
  pub sec_fetch_site : Option Text
  pub origin : Option Text
  pub target : Option Text

abbrev pub plain : ℕ → Text → List CookieChange → Response
plain status body cookies = record {
  status = status;
  location = none;
  reauth = none;
  cookies = cookies;
  body = body;
}

abbrev pub redirect : ℕ → Text → List CookieChange → Response
redirect status url cookies = record {
  status = status;
  location = some url;
  reauth = none;
  cookies = cookies;
  body = [];
}

-- `Cookie::new(name, "")` with the path, and the form parsed from `name=; Path=/; Max-Age=0`.
abbrev pub removal_cookie : Text → Cookie
removal_cookie name = record {
  name = name;
  value = [];
  path = codes "/";
  http_only = false;
  lax = false;
  secure = false;
  max_age = none;
}

abbrev pub expiring_removal : Text → Cookie
expiring_removal name = record (removal_cookie name) { max_age = some 0 }
