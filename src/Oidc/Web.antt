-- ===== src/Oidc/Web.antt =====
-- crates/oidc/src/web.rs: the handlers of the browser flow.
pub mod Logout
pub mod Flow
pub mod SafeNext
use common_rust.Prelude.{
  ℕ, Bool, true, false, not, ◌&&◌, ◌||◌, Option, none, some, List, [], ◌∷◌, ◌++◌, ◌==◌, list_eq,
  list_beq, nat_eq, if◌then◌else◌,
}
use common_rust.Prelude.Dict.{Dict}
use common_rust.Prelude.Result.{Result, ok, err}
use common_rust.Prelude.Text.{Text, codes, starts_with, contains, is_some}
use common_rust.Oidc.Principal.{Principal, Upstream, rejected, unreachable}
use common_rust.Oidc.Store
use common_rust.Oidc.Store.{Session, FlowState, Expiring}
use common_rust.Oidc.Retry.{Attempt, Permission, within}
use common_rust.Oidc.Idp.{
  flow_cookie, TokenBundle, AuthorizeRequest, Resolved, OidcConfig, Idp, Server, Cookie,
  CookieChange, add, remove, Response, Request, plain, redirect, removal_cookie, expiring_removal,
}

-- What `resolve` puts together, and its last test.
abbrev marked : Text → Option Text → Text
marked mark none = []
marked mark (some t) = mark ++ t

unfoldable pub rooted : Text → Option Text
unfolding starts_with
rooted out =
    if starts_with (codes "/") out && not (starts_with (codes "//") out) then some out else none

abbrev pub assembled : Resolved → Text
assembled u = u.path ++ (marked (codes "?") u.query ++ marked (codes "#") u.fragment)

unfoldable pub resolved_target : Option Resolved → Option Text
unfolding rooted
resolved_target none = none
resolved_target (some u) = if u.same_origin then rooted (assembled u) else none

abbrev pub or_root : Option Text → Text
or_root none = codes "/"
or_root (some t) = t

abbrev opt_eq : Option Text → Text → Bool
opt_eq none t = false
opt_eq (some s) t = s == t

unfoldable pub needs_interaction : Text → Bool
needs_interaction error =
    (error == codes "login_required")
    || (error == codes "interaction_required")
    || (error == codes "consent_required")

abbrev has_html : Option Text → Bool
has_html none = false
has_html (some a) = contains (codes "text/html") a

unfoldable pub wants_html : Request → Bool
unfolding contains
wants_html r = r.is_get && has_html r.accept

module _ {W : Type 0} (idp : Idp W) (config : OidcConfig) where
  unfoldable pub resolve_target : Text → Option Text
  unfolding resolved_target starts_with
  resolve_target raw = if starts_with (codes "/") raw then resolved_target (idp.join raw) else none

  unfoldable pub safe_next : Option Text → Text
  unfolding resolve_target
  safe_next none = codes "/"
  safe_next (some raw) = or_root (resolve_target raw)

  abbrev pub base_cookie : Text → Text → Cookie
  base_cookie name value = record {
    name = name;
    value = value;
    path = codes "/";
    http_only = true;
    lax = true;
    secure = config.cookie_secure;
    max_age = none;
  }

  abbrev pub unauthorized_with : Response
  unauthorized_with = record {
    status = 401;
    location = none;
    reauth = some config.login_path;
    cookies = add (expiring_removal config.cookie_name) ∷ [];
    body = codes "authentication required";
  }

  unfoldable pub start_login :
      Text → Bool → Bool → List CookieChange → Server W → Response × Server W
  start_login next silent interactive_tried cookies v =
      let (auth, w) = idp.authorize_url silent v.world in
      let (a, w') = idp.fresh_id w in
      let (b, w'') = idp.fresh_id w' in
      let id = a ++ b in
      let flow : FlowState = record {
        state = auth.csrf_state;
        verifier = auth.pkce_verifier;
        next = next;
        interactive_tried = interactive_tried;
        created = idp.clock w'';
      } in
      (
        redirect 307 auth.url (cookies ++ add (base_cookie flow_cookie id) ∷ []),
        record v { flows = Store.put v.flows id flow (idp.clock w''); world = w'' },
      )

  unfoldable pub from_this_site : Request → Bool
  from_this_site r = elim r.sec_fetch_site [
    | some site ↦ site == codes "same-origin"
    | none ↦ opt_eq r.origin config.app_origin
  ]

  abbrev forget_sid : Option Text → Server W → Server W
  forget_sid none v = v
  forget_sid (some sid) v = record v { sessions = Store.remove v.sessions sid }

  abbrev after_logout : Option Text → Text
  after_logout none = codes "/"
  after_logout (some url) = url

  unfoldable pub logout : Dict Text Text → Request → Server W → Response × Server W
  unfolding from_this_site
  logout jar r v =
      if from_this_site r
      then (
        redirect 303 (after_logout config.end_session_url)
            (remove (expiring_removal config.cookie_name) ∷ []),
        forget_sid (jar config.cookie_name) v,
      )
      else (plain 403 [] [], v)

  unfoldable pub login : Dict Text Text → Server W → Response × Server W
  unfolding safe_next start_login
  login params v =
      let silent = not (opt_eq (params (codes "prompt")) (codes "login")) in
      start_login (safe_next (params (codes "next"))) silent (not silent) [] v

  -- The branch on the parameter `error`.
  unfoldable pub failed_login : Text → Text → FlowState → Server W → Response × Server W
  unfolding needs_interaction safe_next start_login
  failed_login error flow_id flow v =
      let v' = record v { flows = Store.remove v.flows flow_id } in
      let gone = remove (removal_cookie flow_cookie) ∷ [] in
      if needs_interaction error && not flow.interactive_tried
      then start_login (safe_next (some flow.next)) false true gone v'
      else (plain 401 (codes "authentication failed: " ++ error) gone, v')

  -- The answer to the exchange of the code.
  unfoldable pub exchanged :
      Result Text TokenBundle → Text → FlowState → Server W → Response × Server W
  unfolding safe_next
  exchanged (ok tokens) flow_id flow v =
      let (a, w) = idp.fresh_id v.world in
      let (b, w') = idp.fresh_id w in
      let sid = a ++ b in
      let session : Session = record {
        access_token = tokens.access_token;
        refresh_token = tokens.refresh_token;
        created = idp.clock w';
      } in
      (
        redirect 307 (safe_next (some flow.next))
            (remove (removal_cookie flow_cookie) ∷ add (base_cookie config.cookie_name sid) ∷ []),
        record {
          sessions = Store.put v.sessions sid session (idp.clock w');
          flows = Store.remove v.flows flow_id;
          world = w';
        },
      )
  exchanged (err e) flow_id flow v = (
    plain 401 (codes "authentication failed: " ++ e) (remove (removal_cookie flow_cookie) ∷ []),
    v,
  )

  abbrev pub exchange : Text → Text → FlowState → Server W → Response × Server W
  exchange code flow_id flow v =
      let (r, w) = idp.exchange_code code flow.verifier v.world in
      exchanged r flow_id flow (record v { world = w })

  abbrev pub with_code :
      Option Text → Option Text → Text → FlowState → Server W → Response × Server W
  with_code (some code) (some state) flow_id flow v =
      if state == flow.state
      then exchange code flow_id flow v
      else (plain 400 (codes "state mismatch") [], v)
  with_code (some code) none flow_id flow v = (plain 400 (codes "missing code/state") [], v)
  with_code none state flow_id flow v = (plain 400 (codes "missing code/state") [], v)

  abbrev pub with_error :
      Option Text → Dict Text Text → Text → FlowState → Server W → Response × Server W
  with_error (some error) params flow_id flow v = failed_login error flow_id flow v
  with_error none params flow_id flow v =
      with_code (params (codes "code")) (params (codes "state")) flow_id flow v

  abbrev pub with_flow : Option FlowState → Dict Text Text → Text → Server W → Response × Server W
  with_flow none params flow_id v = start_login (codes "/") true false [] v
  with_flow (some flow) params flow_id v = with_error (params (codes "error")) params flow_id flow v

  abbrev pub with_flow_id : Option Text → Dict Text Text → Server W → Response × Server W
  with_flow_id none params v = start_login (codes "/") true false [] v
  with_flow_id (some id) params v = with_flow (Store.get v.flows id (idp.clock v.world)) params id v

  unfoldable pub callback : Dict Text Text → Dict Text Text → Server W → Response × Server W
  callback jar params v = with_flow_id (jar flow_cookie) params v

  unfoldable pub unauthenticated : Request → Server W → Response × Server W
  unfolding wants_html safe_next start_login
  unauthenticated r v =
      if wants_html r
      then start_login (safe_next r.target) true false
          (remove (removal_cookie config.cookie_name) ∷ []) v
      else (unauthorized_with, v)
