-- ===== src/Oidc/Session/Outcome.antt =====
-- What an identity that a session gives rests on.
use common_rust.Prelude.{Option, none, some, list_eq, nat_eq, ◌≡◌, refl, eq_refl}
use common_rust.Prelude.Dict.{Dict}
use common_rust.Prelude.Result.{Result, ok, err}
use common_rust.Prelude.Text.{Text}
use common_rust.Oidc.Principal.{Principal, Upstream, rejected, unreachable}
use common_rust.Oidc.Store
use common_rust.Oidc.Store.{Session, Expiring}
use common_rust.Oidc.Retry.{answered, within}
use common_rust.Oidc.Retry.Budget.{IsHonest, within-IsHonest}
use common_rust.Oidc.Idp.{OidcConfig, Idp, Server, TokenBundle}
use common_rust.Oidc.Session.{
  end_session, adopted, refreshed, refresh_or_end, identified, resolve_session,
}

module _ {W : Type 0} (idp : Idp W) (config : OidcConfig) where
  -- The IdP said in some attempt that the token is the principal's.
  abbrev pub Vouches : Principal → Text → Type 0
  Vouches p token = (w : W) × ((idp.userinfo token w).0 ≡ answered (ok p))

  -- An identity comes from a token that the IdP vouched for, in a session as old as `session`; and
  -- without an identity the server has forgotten `sid`.
  abbrev pub Outcome : Text → Session → Option (Principal × Session) × Server W → Type 0
  Outcome sid session (some (p, s), v) = Vouches p s.access_token × (s.created ≡ session.created)
  Outcome sid session (none, v) = v.sessions.entries sid ≡ none

  end_session-Outcome :
      (sid : Text) (session : Session) (v : Server W)
      → Outcome sid session (end_session idp config sid v)
  end_session-Outcome sid session v = unfold Store.remove in rw (eq_refl sid)

  honest :
      (token : Text) (w : W) (r : Result Upstream Principal)
      → (within idp.authorise (idp.userinfo token) w).0 ≡ r
      → IsHonest idp.authorise (idp.userinfo token) r
  honest token w r e = rw (← e) (within-IsHonest idp.authorise (idp.userinfo token) w)

  adopted-Outcome :
      (r : Result Upstream Principal) (sid : Text) (session s : Session) (v : Server W)
      → IsHonest idp.authorise (idp.userinfo s.access_token) r
      → s.created ≡ session.created
      → Outcome sid session (adopted idp config r sid s v)
  adopted-Outcome (ok p) sid session s v h c = (h, c)
  adopted-Outcome (err _) sid session s v h c = end_session-Outcome sid session v

  refreshed-Outcome :
      (r : Result Upstream TokenBundle) (sid : Text) (session : Session) (v : Server W)
      → Outcome sid session (refreshed idp config r sid session v)
  refreshed-Outcome (err _) sid session v = end_session-Outcome sid session v
  refreshed-Outcome (ok tokens) sid session v =
      adopted-Outcome _ sid session _ _ (honest tokens.access_token v.world _ refl) refl

  refresh_or_end-Outcome :
      (rt : Option Text) (sid : Text) (session : Session) (v : Server W)
      → Outcome sid session (refresh_or_end idp config rt sid session v)
  refresh_or_end-Outcome none sid session v = end_session-Outcome sid session v
  refresh_or_end-Outcome (some rt) sid session v = refreshed-Outcome _ sid session _

  identified-Outcome :
      (r : Result Upstream Principal) (sid : Text) (session : Session) (v : Server W)
      → IsHonest idp.authorise (idp.userinfo session.access_token) r
      → Outcome sid session (identified idp config r sid session v)
  identified-Outcome (ok p) sid session v h = (h, refl)
  identified-Outcome (err (unreachable _)) sid session v h = end_session-Outcome sid session v
  identified-Outcome (err (rejected _)) sid session v h =
      refresh_or_end-Outcome session.refresh_token sid session v

  -- For a cookie whose session is live: either the IdP vouched for the identity that is returned,
  -- by the token of the session that is returned with it, which is no younger than the stored one;
  -- or nothing is returned and the server has forgotten the session.
  pub resolve_session-Outcome :
      (jar : Dict Text Text) (v : Server W) (sid : Text) (session : Session)
      → jar config.cookie_name ≡ some sid
      → Store.get v.sessions sid (idp.clock v.world) ≡ some session
      → Outcome sid session (resolve_session idp config jar v)
  unfolding resolve_session
  resolve_session-Outcome jar v sid session has live =
      rw has
        (rw live (identified-Outcome _ sid session _ (honest session.access_token v.world _ refl)))
