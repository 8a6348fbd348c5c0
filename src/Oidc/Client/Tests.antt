-- ===== src/Oidc/Client/Tests.antt =====
-- URLs as their parts, a document that names a foreign host, and the theorem on discovery applied to
-- them.
use mathlib.Core.Option
use common_rust.Prelude.{
  [], ◌∷◌, ◌&&◌, leb, ◌+◌, map, ap, if◌then◌else◌, arith, ℕ, false, Option, none, some, ◌≡◌, ◌⊎◌,
  refl,
}
use common_rust.Prelude.Result.{ok}
use common_rust.Prelude.Text.{Text, codes}
use common_rust.Config.Class.{Deployment, prod, dev}
use common_rust.Oidc.Client.{
  Urls, OidcConfig, OidcClient, Http, document, new_config, discover_state,
}
use common_rust.Oidc.Client.Origins.{IsUrls, IsDiscovered, discover_state-IsDiscovered}

record Url : Type 0 where
  scheme : Text
  host : Option Text
  port : Option ℕ
  path : Text

lower : ℕ → ℕ
lower c = if leb b'A' c && leb c b'Z' then c + 32 else c

abbrev lowered : Text → Text
unfolding lower
lowered = map lower

lower_idem : (c : ℕ) → lower (lower c) ≡ lower c
unfolding lower
lower_idem c = ground arith

lowered_idem : (t : Text) → lowered (lowered t) ≡ lowered t
unfolding lowered
lowered_idem [] = refl
lowered_idem (c ∷ t) = rw (lower_idem c, lowered_idem t) refl

lowered_host : (h : Option Text) → Option.map lowered (Option.map lowered h) ≡ Option.map lowered h
lowered_host none = refl
lowered_host (some t) = ap some (lowered_idem t)

-- A scheme and a host are read in small letters, whatever they were set to.
abbrev sample_urls : Urls Url
sample_urls = record {
  parse =
      λ t. ok (record { scheme = codes "HTTPS"; host = some (codes "IdP"); port = none; path = t });
  text = λ u. u.path;
  scheme = λ u. lowered u.scheme;
  host = λ u. Option.map lowered u.host;
  port = λ u. u.port;
  set_scheme = λ u s. some (record u { scheme = s });
  set_host = λ u h. some (record u { host = h });
  set_port = λ u p. some (record u { port = p });
}

sample_IsUrls : IsUrls sample_urls
sample_IsUrls = record {
  scheme_set = λ u v base h.
      (let is : record u { scheme = lowered base.scheme } ≡ v = cc in
        rw (← is) (lowered_idem base.scheme));
  host_set = λ u v base same h.
      (let is : record u { host = Option.map lowered base.host } ≡ v = cc in
        rw (← is) (lowered_host base.host, refl));
  port_set = λ u v base same h.
      (let is : record u { port = base.port } ≡ v = cc in rw (← is) (refl, refl, refl));
}

abbrev issuer_url : Url
issuer_url = record {
  scheme = codes "https";
  host = some (codes "auth");
  port = none;
  path = codes "/o/x/";
}

abbrev back_url : Url
back_url = record {
  scheme = codes "http";
  host = some (codes "server");
  port = some 9000;
  path = codes "/";
}

abbrev sample_config : OidcConfig Url
sample_config = record (new_config issuer_url (codes "x") issuer_url (codes "session")) {
  backchannel = some back_url;
  deployment = prod;
}

abbrev at : Url → Url
at u = record u { path = codes "/p" }

abbrev sample_client : OidcClient Url
sample_client = record {
  core = record {
    client_id = codes "x";
    issuer = issuer_url;
    auth_uri = at issuer_url;
    token_uri = at back_url;
    user_info_url = at back_url;
    redirect_uri = issuer_url;
    client_secret = none;
  };
  config = sample_config;
  end_session_url = some (at issuer_url);
}

-- Every endpoint is `/p` at a host of its own.
abbrev sample_http : Http ℕ
sample_http = record {
  builds = λ danger. ok tt;
  get = λ url w. (document (λ key. some (codes "/p")), w);
}

client_discovered : discover_state sample_urls sample_http sample_config 0 ≡ (ok sample_client, 0)
unfolding discover_state lowered
client_discovered = refl

discover_state-IsDiscovered_example :
    ((◌≡◌ {A = Deployment} prod dev) ⊎ (sample_config.danger_accept_invalid_certs ≡ false))
    × IsDiscovered sample_urls sample_config sample_client
discover_state-IsDiscovered_example =
    discover_state-IsDiscovered sample_urls sample_http sample_config 0 0 sample_client
      sample_IsUrls client_discovered
