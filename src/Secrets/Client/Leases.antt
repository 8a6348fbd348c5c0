-- ===== src/Secrets/Client/Leases.antt =====
-- Which tokens the client uses, and until when.
use common_rust.Prelude.{
  ℕ, Bool, true, false, ◌+◌, ◌-◌, ◌≤◌, ◌<◌, Option, none, some, ltb, ltb-eq-true_iff, ◌≡◌, refl,
  arith, ◌⊎◌, inl, inr, Bool-cases,
}
use common_rust.Prelude.Result.{Result, ok, err}
use common_rust.Prelude.Text.{Text}
use common_rust.Secrets.Error.{Stage, Error, auth_rejected, network, not_found, panicked, upstream}
use common_rust.Secrets.Api.{Http, Config, VaultAuth}
use common_rust.Secrets.Client.{
  lease_skew, Cached, SecretClient, vault_login, cached_at, cached_until, login_with, login,
  store_login, use_cached, cached_token, reauthenticate, run_op, retry_once, attempt, with_reauth,
}

module _ {W : Type 0} (http : Http W) (config : Config) where
  -- The vault issued the token in a login, for a lease that it named.
  abbrev pub IsIssued : Cached → Type 0
  IsIssued cached =
      (jwt : Text) × (w : W) × (auth : VaultAuth) × ((vault_login http config jwt w).0 ≡ ok auth)
      × (cached.value ≡ auth.client_token)
      × (cached.expires_at
          ≡ http.clock (vault_login http config jwt w).1 + (auth.lease_duration - lease_skew))

  -- What the cache holds was issued.
  abbrev pub HoldsIssued : Option Cached → Type 0
  HoldsIssued none = Unit
  HoldsIssued (some cached) = IsIssued cached

  -- A token of a login.
  abbrev pub IsToken : Text → Type 0
  IsToken token = (cached : Cached) × IsIssued cached × (cached.value ≡ token)

  abbrev Logged : Result Error Cached × W → Type 0
  Logged (ok cached, w) = IsIssued cached
  Logged (err e, w) = Unit

  cached_at-Logged :
      (jwt : Text) (w : W) (auth : VaultAuth)
      → (vault_login http config jwt w).0 ≡ ok auth
      → (held : Bool)
      → Logged (
          cached_at http config auth.client_token
            (http.clock (vault_login http config jwt w).1 + (auth.lease_duration - lease_skew))
            (vault_login http config jwt w).1
            held)
  cached_at-Logged jwt w auth e true = (jwt, w, auth, e, refl, refl)
  cached_at-Logged jwt w auth e false = tt

  cached_until-Logged :
      (jwt : Text) (w : W) (r : Result Error VaultAuth)
      → (vault_login http config jwt w).0 ≡ r
      → Logged (cached_until http config (r, (vault_login http config jwt w).1))
  cached_until-Logged jwt w (ok auth) e = cached_at-Logged jwt w auth e _
  cached_until-Logged jwt w (err _) e = tt

  login_with-Logged : (r : Result Error Text) (w : W) → Logged (login_with http config (r, w))
  login_with-Logged (ok jwt) w = cached_until-Logged jwt w _ refl
  login_with-Logged (err _) w = tt

  login-Logged : (w : W) → Logged (login http config w)
  unfolding login
  login-Logged w = login_with-Logged _ _

  -- A token that is handed out was issued, and the cache stays as it should be.
  abbrev Handed : Result Error Text × SecretClient W → Type 0
  Handed (ok token, c) = HoldsIssued c.cache × IsToken token
  Handed (err e, c) = HoldsIssued c.cache

  store_login-Handed :
      (before : Option Cached) (r : Result Error Cached × W)
      → HoldsIssued before
      → Logged r
      → Handed (store_login http config before r)
  store_login-Handed before (ok cached, w) h l = (l, (cached, l, refl))
  store_login-Handed before (err _, w) h l = h

  use_cached-Handed :
      (cache : Option Cached) (w : W) → HoldsIssued cache → Handed (use_cached http config cache w)
  use_cached-Handed none w h = store_login-Handed none (login http config w) tt (login-Logged w)
  use_cached-Handed (some cached) w h =
      let renewed = store_login-Handed (some cached) (login http config w) h (login-Logged w) in
      elim (Bool-cases (ltb (http.clock w) cached.expires_at)) [
        | inl live ↦ rw live (h, (cached, h, refl))
        | inr spent ↦ rw spent renewed
      ]

  cached_token-Handed :
      (c : SecretClient W) → HoldsIssued c.cache → Handed (cached_token http config c)
  unfolding cached_token
  cached_token-Handed c h = use_cached-Handed c.cache c.world h

  reauthenticate-Handed : (c : SecretClient W) → Handed (reauthenticate http config c)
  unfolding reauthenticate
  reauthenticate-Handed c =
      store_login-Handed none (login http config c.world) tt (login-Logged c.world)

  -- A client whose token has a lease that began at `issued`, in the past, either logs in again, or
  -- it hands the token out, leaves all as it is, and the lease lasts for more than the skew.
  pub cached_token_before_lease :
      (cached : Cached) (w : W) (issued lease : ℕ)
      → cached.expires_at ≡ issued + (lease - lease_skew)
      → issued ≤ http.clock w
      → (cached_token http config (record { cache = some cached; world = w })
          ≡ store_login http config (some cached) (login http config w))
        ⊎ ((cached_token http config (record { cache = some cached; world = w })
              ≡ (ok cached.value, record { cache = some cached; world = w }))
            × (http.clock w + lease_skew < issued + lease))
  unfolding cached_token
  cached_token_before_lease cached w issued lease until past =
      elim (Bool-cases (ltb (http.clock w) cached.expires_at)) [
        | inl live ↦
            inr (rw live, omega (arith, (ltb-eq-true_iff (http.clock w) cached.expires_at).0 live))
        | inr spent ↦ inl (rw spent)
      ]

  module _ {T : Type 0} (op : Text → W → Result Error T × W) where
    -- What a call leaves: a cache as it should be, and a result of the operation with an issued
    -- token.
    abbrev Done : Result Error T × SecretClient W → Type 0
    Done (ok x, c) =
        HoldsIssued c.cache × ((token : Text) × (w : W) × IsToken token × ((op token w).0 ≡ ok x))
    Done (err e, c) = HoldsIssued c.cache

    op_step :
        (r : Result Error T) (token : Text) (c : SecretClient W)
        → (op token c.world).0 ≡ r
        → Handed (ok token, c)
        → Done (r, record c { world = (op token c.world).1 })
    op_step (ok x) token c e (h, t) = (h, (token, c.world, t, e))
    op_step (err _) token c e (h, t) = h

    run_op-Done :
        (r : Result Error Text) (c : SecretClient W)
        → Handed (r, c)
        → Done (run_op http config op (r, c))
    run_op-Done (ok token) c h = op_step _ token c refl h
    run_op-Done (err e) c h = h

    retry_once-Done :
        (r : Result Error T) (c : SecretClient W)
        → Done (r, c)
        → Done (retry_once http config op (r, c))
    retry_once-Done (ok x) c h = h
    retry_once-Done (err (auth_rejected Stage.vault_read)) c h =
        run_op-Done (reauthenticate http config c).0 (reauthenticate http config c).1
          (reauthenticate-Handed c)
    retry_once-Done (err (auth_rejected Stage.vault_login)) c h = h
    retry_once-Done (err (auth_rejected Stage.authentik_token)) c h = h
    retry_once-Done (err (Error.config _)) c h = h
    retry_once-Done (err (network _ _)) c h = h
    retry_once-Done (err not_found) c h = h
    retry_once-Done (err panicked) c h = h
    retry_once-Done (err (upstream _ _)) c h = h

    attempt-Done :
        (r : Result Error Text) (c : SecretClient W)
        → Handed (r, c)
        → Done (attempt http config op (r, c))
    attempt-Done (ok token) c h =
        let done = run_op http config op (ok token, c) in
        retry_once-Done done.0 done.1 (run_op-Done (ok token) c h)
    attempt-Done (err e) c h = h

    with_reauth-Done :
        (c : SecretClient W) → HoldsIssued c.cache → Done (with_reauth http config op c)
    unfolding with_reauth
    with_reauth-Done c h =
        attempt-Done (cached_token http config c).0 (cached_token http config c).1
          (cached_token-Handed c h)

    Done-HoldsIssued : (r : Result Error T × SecretClient W) → Done r → HoldsIssued r.1.cache
    Done-HoldsIssued (ok x, c) h = h.0
    Done-HoldsIssued (err e, c) h = h

    Done-IsToken :
        (r : Result Error T × SecretClient W) (x : T)
        → Done r
        → r.0 ≡ ok x
        → (token : Text) × (w : W) × IsToken token × ((op token w).0 ≡ ok x)
    Done-IsToken (ok y, c) x (h, (token, w, t, e)) same = (token, w, t, cc)
    Done-IsToken (err e, c) x h same = absurd (cc same)

    -- If the cache holds nothing but a token that the vault issued, with the end of its lease less
    -- the skew, then so does it after any operation, whatever its result.
    pub with_reauth-HoldsIssued :
        (c : SecretClient W)
        → HoldsIssued c.cache
        → HoldsIssued (with_reauth http config op c).1.cache
    with_reauth-HoldsIssued c h = Done-HoldsIssued _ (with_reauth-Done c h)

    -- From such a cache, a result is one that the operation gave for a token that the vault issued.
    pub with_reauth-IsToken :
        (c : SecretClient W) (x : T)
        → HoldsIssued c.cache
        → (with_reauth http config op c).0 ≡ ok x
        → (token : Text) × (w : W) × IsToken token × ((op token w).0 ≡ ok x)
    with_reauth-IsToken c x h e = Done-IsToken _ x (with_reauth-Done c h) e
