-- ===== src/Oidc/Session.antt =====
-- crates/oidc/src/web.rs, `resolve_session`: the identity behind a session cookie.
pub mod Outcome
use common_rust.Prelude.{
  ℕ, Bool, true, false, not, ◌&&◌, ◌||◌, Option, none, some, List, [], ◌∷◌, ◌++◌, ◌==◌, list_eq,
  list_beq, nat_eq, if◌then◌else◌,
}
use common_rust.Prelude.Dict.{Dict}
use common_rust.Prelude.Result.{Result, ok, err}
use common_rust.Prelude.Text.{Text, codes, starts_with, contains, is_some}
use common_rust.Oidc.Principal.{Principal, Upstream, rejected, unreachable}
use common_rust.Oidc.Store
use common_rust.Oidc.Store.{Session, FlowState, Expiring}
use common_rust.Oidc.Retry.{Attempt, Permission, within}
use common_rust.Oidc.Idp.{
  flow_cookie, TokenBundle, AuthorizeRequest, Resolved, OidcConfig, Idp, Server, Cookie,
  CookieChange, add, remove, Response, Request, plain, redirect, removal_cookie, expiring_removal,
}

module _ {W : Type 0} (idp : Idp W) (config : OidcConfig) where
  -- `resolve_session`, a function for each point where it may return.
  abbrev pub end_session : Text → Server W → Option (Principal × Session) × Server W
  end_session sid v = (none, record v { sessions = Store.remove v.sessions sid })

  abbrev pub adopted :
      Result Upstream Principal
      → Text
      → Session
      → Server W
      → Option (Principal × Session) × Server W
  adopted (ok p) sid session v = (some (p, session), v)
  adopted (err _) sid session v = end_session sid v

  abbrev pub refreshed :
      Result Upstream TokenBundle
      → Text
      → Session
      → Server W
      → Option (Principal × Session) × Server W
  refreshed (err _) sid session v = end_session sid v
  refreshed (ok tokens) sid session v =
      let fresh : Session = record {
        access_token = tokens.access_token;
        refresh_token = tokens.refresh_token;
        created = session.created;
      } in
      let stored = Store.put v.sessions sid fresh (idp.clock v.world) in
      let (r, w) = within idp.authorise (idp.userinfo fresh.access_token) v.world in
      adopted r sid fresh (record v { sessions = stored; world = w })

  abbrev pub refresh_or_end :
      Option Text → Text → Session → Server W → Option (Principal × Session) × Server W
  refresh_or_end none sid session v = end_session sid v
  refresh_or_end (some rt) sid session v =
      let (r, w) = within idp.authorise (idp.refresh rt) v.world in
      refreshed r sid session (record v { world = w })

  abbrev pub identified :
      Result Upstream Principal
      → Text
      → Session
      → Server W
      → Option (Principal × Session) × Server W
  identified (ok p) sid session v = (some (p, session), v)
  identified (err (unreachable _)) sid session v = end_session sid v
  identified (err (rejected _)) sid session v = refresh_or_end session.refresh_token sid session v

  abbrev pub with_session :
      Option Session → Text → Server W → Option (Principal × Session) × Server W
  with_session none sid v = (none, v)
  with_session (some session) sid v =
      let (r, w) = within idp.authorise (idp.userinfo session.access_token) v.world in
      identified r sid session (record v { world = w })

  abbrev pub with_sid : Option Text → Server W → Option (Principal × Session) × Server W
  with_sid none v = (none, v)
  with_sid (some sid) v = with_session (Store.get v.sessions sid (idp.clock v.world)) sid v

  unfoldable pub resolve_session :
      Dict Text Text → Server W → Option (Principal × Session) × Server W
  resolve_session jar v = with_sid (jar config.cookie_name) v
