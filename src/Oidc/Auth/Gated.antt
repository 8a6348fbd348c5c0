-- ===== src/Oidc/Auth/Gated.antt =====
-- Who may pass a gate: the middleware and the extractor behind it, taken together.
use common_rust.Prelude.{Option, none, some, ◌≡◌, refl, ◌⊎◌, inl, inr, subst, ap}
use common_rust.Prelude.Result.{Result, ok, err}
use common_rust.Prelude.Text.{Text}
use common_rust.Oidc.Principal.{Principal}
use common_rust.Oidc.Bearer.{BearerValidator, validate}
use common_rust.Oidc.Store.{Session}
use common_rust.Oidc.Predicate.{Rule, Verdict, check}
use common_rust.Oidc.Predicate.Meaning.{Satisfies, check_iff}
use common_rust.Oidc.Idp.{Idp, OidcConfig, Server, Request}
use common_rust.Oidc.Session.{resolve_session}
use common_rust.Oidc.Auth.{
  AuthVia, AuthContext, disabled, authenticated, anonymous, AuthProviders, Incoming, bearer_token,
  via_bearer, by_token, without_credential, by_session, by_cookie, with_token, resolve_context,
  set_auth_context, extract_gated, extract_gated_in, gate,
}

module _ {W : Type 0} (providers : AuthProviders W) (r : Incoming) (v : Server W) where
  -- How a request came by its identity.
  pub data Vouched (p : Principal) : AuthVia → Type 0 where
    by_bearer :
        {b : BearerValidator W} {token : Text}
        → providers.bearer ≡ some b
        → bearer_token r.authorization ≡ some token
        → (validate b token v.world).0 ≡ ok p
        → Vouched p AuthVia.bearer
    by_login :
        {idp : Idp W} {config : OidcConfig} {s : Session}
        → providers.oidc ≡ some (idp, config)
        → bearer_token r.authorization ≡ none
        → (resolve_session idp config r.cookies v).0 ≡ some (p, s)
        → Vouched p AuthVia.session

  -- What a context rests on. Without a check there is neither an IdP nor a validator, or there is
  -- a stub and no bearer token.
  abbrev pub Grounded : AuthContext → Type 0
  Grounded disabled =
      ((providers.oidc ≡ none) × (providers.bearer ≡ none))
      ⊎ ((bearer_token r.authorization ≡ none) × ((p : Principal) × (providers.dev_stub ≡ some p)))
  Grounded (authenticated p via) = Vouched p via
  Grounded (anonymous _) = Unit

  without_credential-Grounded :
      (stub : Option Principal)
      → providers.dev_stub ≡ stub
      → bearer_token r.authorization ≡ none
      → Grounded (without_credential providers stub)
  unfolding without_credential
  without_credential-Grounded none e t = tt
  without_credential-Grounded (some p) e t = inr (t, (p, e))

  by_session-Grounded :
      {idp : Idp W} {config : OidcConfig} (found : Option (Principal × Session)) (v' : Server W)
      → providers.oidc ≡ some (idp, config)
      → bearer_token r.authorization ≡ none
      → (resolve_session idp config r.cookies v).0 ≡ found
      → Grounded (by_session providers (found, v')).0
  by_session-Grounded (some (p, s)) v' o t e = by_login o t e
  by_session-Grounded none v' o t e = without_credential-Grounded providers.dev_stub refl t

  by_cookie-Grounded :
      (oidc : Option (Idp W × OidcConfig))
      → providers.oidc ≡ oidc
      → bearer_token r.authorization ≡ none
      → Grounded (by_cookie providers oidc r v).0
  unfolding by_cookie
  by_cookie-Grounded none o t = without_credential-Grounded providers.dev_stub refl t
  by_cookie-Grounded (some (idp, config)) o t = by_session-Grounded _ _ o t refl

  via_bearer-Grounded :
      {b : BearerValidator W} {token : Text} (x : Result _ Principal)
      → providers.bearer ≡ some b
      → bearer_token r.authorization ≡ some token
      → (validate b token v.world).0 ≡ x
      → Grounded (via_bearer x)
  via_bearer-Grounded (ok p) b t e = by_bearer b t e
  via_bearer-Grounded (err _) b t e = tt

  by_token-Grounded :
      (b : Option (BearerValidator W)) (token : Text)
      → providers.bearer ≡ b
      → bearer_token r.authorization ≡ some token
      → Grounded (by_token providers b token v).0
  unfolding by_token
  by_token-Grounded none token b t = tt
  by_token-Grounded (some _) token b t = via_bearer-Grounded _ b t refl

  with_token-Grounded :
      (token : Option Text)
      → bearer_token r.authorization ≡ token
      → Grounded (with_token providers token r v).0
  with_token-Grounded none t = by_cookie-Grounded providers.oidc refl t
  with_token-Grounded (some token) t = by_token-Grounded providers.bearer token refl t

  set_auth_context-Grounded :
      (oidc : Option (Idp W × OidcConfig)) (bearer : Option (BearerValidator W))
      → providers.oidc ≡ oidc
      → providers.bearer ≡ bearer
      → Grounded (set_auth_context providers r v).0
  unfolding set_auth_context resolve_context
  set_auth_context-Grounded none none o b = simp (o, b) (inl (refl, refl))
  set_auth_context-Grounded none (some _) o b = simp (o, b) (with_token-Grounded _ refl)
  set_auth_context-Grounded (some _) none o b = simp (o, b) (with_token-Grounded _ refl)
  set_auth_context-Grounded (some _) (some _) o b = simp (o, b) (with_token-Grounded _ refl)

  -- What the middleware puts into a request rests on a validated bearer token, on a resolved
  -- session of a request without such a token, or, where no check is made, on there being neither
  -- an IdP nor a validator, or a stub and no token.
  pub middleware-Grounded : Grounded (set_auth_context providers r v).0
  middleware-Grounded = set_auth_context-Grounded providers.oidc providers.bearer refl refl

  module _ {S : Type 0} (json : Text → Text) (rule : Rule S) (s : S) where
    abbrev Passes : AuthContext → Principal → Type 0
    Passes c p = (c ≡ disabled) ⊎ ((via : AuthVia) × (c ≡ authenticated p via) × Satisfies rule p s)

    gate_step :
        (x : Verdict) (p' : Principal) (via : AuthVia) (e : Option (AuthProviders W)) (q : Request)
        (p : Principal)
        → check rule p' s ≡ x
        → gate json e q p' x ≡ ok p
        → Passes (authenticated p' via) p
    gate_step (ok _) p' via e q p c h =
        let same : p' ≡ p = cc h in
        inr (
          via,
          ap (λ x. authenticated x via) same,
          subst (λ x. Satisfies rule x s) same ((check_iff rule p' s).0 c),
        )
    gate_step (err _) p' via e q p c h = cc

    gate-Passes :
        (c : AuthContext) (e : Option (AuthProviders W)) (q : Request) (v' : Server W)
        (p : Principal)
        → (extract_gated_in json rule s (some c) e q v').0 ≡ ok p
        → Passes c p
    gate-Passes disabled e q v' p h = inl refl
    gate-Passes (anonymous _) e q v' p h = cc
    gate-Passes (authenticated p' via) e q v' p h = gate_step (check rule p' s) p' via e q p refl h

    -- Behind the middleware a gate lets a principal through only where no check is made, or with
    -- an identity that a validated token or a resolved session vouches for and that satisfies the
    -- gate's rule.
    pub gated_safety :
        (p : Principal)
        → (extract_gated json rule s
            (record {
              context = some (set_auth_context providers r v).0;
              providers = some providers;
            })
            r.request
            (set_auth_context providers r v).1).0
          ≡ ok p
        → ((set_auth_context providers r v).0 ≡ disabled) × Grounded disabled
          ⊎ ((via : AuthVia) × Vouched p via × Satisfies rule p s)
    unfolding extract_gated
    gated_safety p h =
        elim (gate-Passes (set_auth_context providers r v).0 (some providers) r.request
          (set_auth_context providers r v).1 p h) [
            | inl off ↦ inl (off, subst Grounded off middleware-Grounded)
            | inr (via, same, fits) ↦ inr (via, subst Grounded same middleware-Grounded, fits)
          ]
