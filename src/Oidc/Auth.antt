-- ===== src/Oidc/Auth.antt =====
-- crates/oidc/src/auth.rs: the middleware that resolves identity once per request, and the
-- extractors. The request carries its headers as far as they are text, its cookies, and what the
-- middleware has put into its extensions.
pub mod Gated
use common_rust.Prelude.{Bool, true, false, not, ◌&&◌, Option, none, some, ◌++◌, if◌then◌else◌, []}
use common_rust.Prelude.Dict.{Dict}
use common_rust.Prelude.Result.{Result, ok, err}
use common_rust.Prelude.Text.{Text, codes, strip_prefix, trim, is_empty, is_some, contains}
use common_rust.Oidc.Principal.{Principal}
use common_rust.Oidc.Bearer.{BearerValidator, ValidationError, validate}
use common_rust.Oidc.Store.{Session}
use common_rust.Oidc.Predicate.{Denial, Verdict, Rule, check}
use common_rust.Oidc.Idp.{Idp, OidcConfig, Server, Request, Response}
use common_rust.Oidc.Session.{resolve_session}
use common_rust.Oidc.Web.{wants_html, unauthenticated}

pub data AuthVia : Type 0 where
  session bearer stub : AuthVia

pub data AuthContext : Type 0 where
  disabled : AuthContext
  authenticated : Principal → AuthVia → AuthContext
  anonymous : Text → AuthContext

pub record AuthProviders (W : Type 0) : Type 0 where
  pub oidc : Option (Idp W × OidcConfig)
  pub bearer : Option (BearerValidator W)
  pub dev_stub : Option Principal
  pub unauthorized : Option (Request → Response)
  pub denied : Option (Request → Denial → Response)

pub record Incoming : Type 0 where
  pub request : Request
  pub authorization : Option Text
  pub cookies : Dict Text Text

abbrev or_lower : Option Text → Text → Option Text
or_lower (some t) raw = some t
or_lower none raw = strip_prefix (codes "bearer ") raw

abbrev trimmed : Option Text → Option Text
trimmed none = none
trimmed (some t) = if is_empty (trim t) then none else some (trim t)

unfoldable pub bearer_token : Option Text → Option Text
unfolding strip_prefix trim
bearer_token none = none
bearer_token (some raw) = trimmed (or_lower (strip_prefix (codes "Bearer ") raw) raw)

-- `reason` of a rejected token, by the texts of the two errors.
abbrev error_text : ValidationError → Text
error_text ValidationError.rejected = codes "access token rejected by authentik"
error_text (ValidationError.upstream e) = e

abbrev pub via_bearer : Result ValidationError Principal → AuthContext
via_bearer (ok p) = authenticated p AuthVia.bearer
via_bearer (err e) = anonymous (codes "bearer rejected: " ++ error_text e)

abbrev pub anonymous_reason : Bool → Text
anonymous_reason true = codes "no valid session"
anonymous_reason false = codes "no credential matched an authenticator"

module _ {W : Type 0} (providers : AuthProviders W) where
  -- A bearer token is presented.
  unfoldable pub by_token : Option (BearerValidator W) → Text → Server W → AuthContext × Server W
  unfolding validate
  by_token none token v = (anonymous (codes "bearer presented but no validator is configured"), v)
  by_token (some b) token v =
      let (r, w) = validate b token v.world in (via_bearer r, record v { world = w })

  -- Neither token nor session.
  unfoldable pub without_credential : Option Principal → AuthContext
  without_credential (some _) = disabled
  without_credential none = anonymous (anonymous_reason (is_some providers.oidc))

  abbrev pub by_session : Option (Principal × Session) × Server W → AuthContext × Server W
  by_session (some (p, _), v) = (authenticated p AuthVia.session, v)
  by_session (none, v) = (without_credential providers.dev_stub, v)

  unfoldable pub by_cookie :
      Option (Idp W × OidcConfig) → Incoming → Server W → AuthContext × Server W
  unfolding without_credential resolve_session
  by_cookie none r v = (without_credential providers.dev_stub, v)
  by_cookie (some (idp, config)) r v = by_session (resolve_session idp config r.cookies v)

  abbrev pub with_token : Option Text → Incoming → Server W → AuthContext × Server W
  with_token (some token) r v = by_token providers.bearer token v
  with_token none r v = by_cookie providers.oidc r v

  unfoldable pub resolve_context : Incoming → Server W → AuthContext × Server W
  unfolding by_token by_cookie bearer_token
  resolve_context r v = with_token (bearer_token r.authorization) r v

  -- What `set_auth_context` puts into the extensions beside the providers.
  unfoldable pub set_auth_context : Incoming → Server W → AuthContext × Server W
  unfolding resolve_context
  set_auth_context r v =
      if not (is_some providers.oidc) && not (is_some providers.bearer)
      then (disabled, v)
      else resolve_context r v

  abbrev stub_name : Option Principal → Text
  stub_name none = codes "-"
  stub_name (some p) = p.username

  -- The actor that the span is given.
  unfoldable pub actor : AuthContext → Text
  actor disabled = stub_name providers.dev_stub
  actor (authenticated p via) = p.username
  actor (anonymous reason) = codes "-"

-- The extensions as an extractor finds them.
pub record Extensions (W : Type 0) : Type 0 where
  pub context : Option AuthContext
  pub providers : Option (AuthProviders W)

abbrev reply : (status : Text) → Response
reply body = record { status = 0; location = none; reauth = none; cookies = []; body = body }

abbrev pub internal : Response
internal = record (reply (codes "{\"error\":\"internal\"}")) { status = 500 }

abbrev nobody : Principal
nobody = record { username = codes "-"; effective_groups = [] }

abbrev stub_or_nobody : Option Principal → Principal
stub_or_nobody none = nobody
stub_or_nobody (some p) = p

abbrev call_unauthorized : Option (Request → Response) → Request → Response
call_unauthorized none r = record (reply (codes "{\"error\":\"unauthenticated\"}")) { status = 401 }
call_unauthorized (some f) r = f r

-- `gate` is shown as the JSON text that the library makes of it.
abbrev call_denied :
    (Text → Text) → Option (Request → Denial → Response) → Request → Denial → Response
call_denied json none r d =
    record (reply (codes "{\"error\":\"denied\",\"gate\":" ++ (json d.gate ++ codes "}"))) {
      status = 403;
    }
call_denied json (some f) r d = f r d

module _ {W : Type 0} where
  unfoldable pub disabled_principal : Option (AuthProviders W) → Principal
  disabled_principal none = nobody
  disabled_principal (some p) = stub_or_nobody p.dev_stub

  unfoldable pub unauthorized_wire : Option (AuthProviders W) → Request → Response
  unauthorized_wire none r = call_unauthorized none r
  unauthorized_wire (some p) r = call_unauthorized p.unauthorized r

  unfoldable pub denied_response :
      (Text → Text) → Option (AuthProviders W) → Request → Denial → Response
  denied_response json none r d = call_denied json none r d
  denied_response json (some p) r d = call_denied json p.denied r d

  abbrev redirect_or :
      Option (Idp W × OidcConfig)
      → Option (AuthProviders W)
      → Request
      → Server W
      → Response × Server W
  redirect_or none p r v = (unauthorized_wire p r, v)
  redirect_or (some (idp, config)) p r v = unauthenticated idp config r v

  abbrev oidc_of : Option (AuthProviders W) → Option (Idp W × OidcConfig)
  oidc_of none = none
  oidc_of (some p) = p.oidc

  unfoldable pub anonymous_response :
      Option (AuthProviders W) → Request → Server W → Response × Server W
  unfolding wants_html unauthenticated unauthorized_wire
  anonymous_response p r v =
      if wants_html r then redirect_or (oidc_of p) p r v else (unauthorized_wire p r, v)

  -- The extractors, each a result and the state that it leaves.
  unfoldable pub extract_authenticated :
      Extensions W → Request → Server W → Result Response Principal × Server W
  unfolding disabled_principal anonymous_response
  extract_authenticated e r v = elim e.context [
    | none ↦ (err internal, v)
    | some disabled ↦ (ok (disabled_principal e.providers), v)
    | some (authenticated p via) ↦ (ok p, v)
    | some (anonymous reason) ↦
        let (response, v') = anonymous_response e.providers r v in (err response, v')
  ]

  unfoldable pub extract_service_account : Extensions W → Request → Result Response Principal
  unfolding unauthorized_wire
  extract_service_account e r = elim e.context [
    | none ↦ err internal
    | some (authenticated p AuthVia.bearer) ↦ ok p
    | some _ ↦ err (unauthorized_wire e.providers r)
  ]

  unfoldable pub extract_maybe : Extensions W → Option Principal
  unfolding disabled_principal
  extract_maybe e = elim e.context [
    | some disabled ↦ some (disabled_principal e.providers)
    | some (authenticated p via) ↦ some p
    | _ ↦ none
  ]

  abbrev pub gate :
      (Text → Text)
      → Option (AuthProviders W)
      → Request
      → Principal
      → Verdict
      → Result Response Principal
  gate json providers r p (ok _) = ok p
  gate json providers r p (err d) = err (denied_response json providers r d)

  abbrev pub extract_gated_in :
      {S : Type 0}
      → (Text → Text)
      → Rule S
      → S
      → Option AuthContext
      → Option (AuthProviders W)
      → Request
      → Server W
      → Result Response Principal × Server W
  extract_gated_in json rule s none providers r v = (err internal, v)
  extract_gated_in json rule s (some disabled) providers r v =
      (ok (disabled_principal providers), v)
  extract_gated_in json rule s (some (authenticated p via)) providers r v =
      (gate json providers r p (check rule p s), v)
  extract_gated_in json rule s (some (anonymous reason)) providers r v =
      let (response, v') = anonymous_response providers r v in (err response, v')

  unfoldable pub extract_gated :
      {S : Type 0}
      → (Text → Text)
      → Rule S
      → S
      → Extensions W
      → Request
      → Server W
      → Result Response Principal × Server W
  unfolding disabled_principal anonymous_response denied_response check
  extract_gated json rule s e r v = extract_gated_in json rule s e.context e.providers r v
