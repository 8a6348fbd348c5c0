-- ===== src/Secrets/Client/Retries.antt =====
-- When a rejected operation is reported.
use common_rust.Prelude.{
  ℕ, ◌+◌, ◌-◌, Bool, true, false, Option, none, some, ltb, if◌then◌else◌, ◌≡◌, ◌≢◌, refl, arith,
  Bool-cases, inl, inr,
}
use common_rust.Prelude.Result.{Result, ok, err}
use common_rust.Prelude.Text.{Text, codes}
use common_rust.Secrets.Error.{Stage, Error, auth_rejected, network, not_found, panicked, upstream}
use common_rust.Secrets.Api.{
  Http, Config, VaultAuth, Reply, decoded, accepted, refused, is_success, token_form, login_url,
}
use common_rust.Secrets.Client.{
  Cached, SecretClient, authentik_token, vault_login, lease_skew, cached_at, cached_until,
  login_with, login, store_login, use_cached, cached_token, reauthenticate, run_op, retry_once,
  attempt, with_reauth,
}

abbrev pub rejected_read : Error
rejected_read = auth_rejected Stage.vault_read

-- The stage of an error.
abbrev AtLogin : Error → Type 0
AtLogin e = e ≢ rejected_read

refused-AtLogin :
    {B : Type 0} (stage : Stage) (what : Text) (status_text : ℕ → Text) (s : ℕ) (e : Error)
    → stage ≢ Stage.vault_read
    → refused {B = B} stage what status_text s ≡ err e
    → AtLogin e
unfolding refused
refused-AtLogin stage what status_text s e h r same = ground arith

decoded-AtLogin :
    {B : Type 0} (stage : Stage) (payload : Text) (r : Result Text B) (e : Error)
    → decoded stage payload r ≡ err e
    → AtLogin e
decoded-AtLogin stage payload (ok b) e a same = cc
decoded-AtLogin stage payload (err x) e a same = cc

reply-AtLogin :
    {B : Type 0} (b : Bool) (stage : Stage) (what payload : Text) (status_text : ℕ → Text)
    (r : Reply B) (e : Error)
    → stage ≢ Stage.vault_read
    → (if b then decoded stage payload r.json else refused stage what status_text r.status) ≡ err e
    → AtLogin e
reply-AtLogin true stage what payload status_text r e h = decoded-AtLogin stage payload r.json e
reply-AtLogin false stage what payload status_text r e h =
    refused-AtLogin stage what status_text r.status e h

accepted-AtLogin :
    {B : Type 0} (stage : Stage) (what payload : Text) (status_text : ℕ → Text)
    (r : Result Text (Reply B)) (e : Error)
    → stage ≢ Stage.vault_read
    → accepted stage what payload status_text r ≡ err e
    → AtLogin e
unfolding accepted refused
accepted-AtLogin stage what payload status_text (err x) e h a same = ground arith
accepted-AtLogin stage what payload status_text (ok r) e h a same =
    reply-AtLogin (is_success r.status) stage what payload status_text r e h a same

module _ {W : Type 0} (http : Http W) (config : Config) where
  authentik_token-AtLogin :
      (w : W) (e : Error) → (authentik_token http config w).0 ≡ err e → AtLogin e
  unfolding authentik_token
  authentik_token-AtLogin w e a =
      let form =
        token_form config.client_id config.service_account config.app_password config.scope in
      accepted-AtLogin Stage.authentik_token (codes "token endpoint") (codes "token")
        http.status_text (http.post_form config.authentik_token_url form w).0 e (λ i. cc i) a

  vault_login-AtLogin :
      (jwt : Text) (w : W) (e : Error) → (vault_login http config jwt w).0 ≡ err e → AtLogin e
  unfolding vault_login
  vault_login-AtLogin jwt w e a =
      accepted-AtLogin Stage.vault_login (codes "jwt login") (codes "login") http.status_text
        (http.post_login (login_url config.bao_addr) config.jwt_role jwt w).0 e (λ i. cc i) a

  cached_at-AtLogin :
      (token : Text) (at : ℕ) (w : W) (held : Bool) (e : Error)
      → (cached_at http config token at w held).0 ≡ err e
      → AtLogin e
  cached_at-AtLogin token at w true e a same = cc
  cached_at-AtLogin token at w false e a same = cc

  cached_until-AtLogin :
      (r : Result Error VaultAuth) (w : W) (e : Error)
      → ((x : Error) → r ≡ err x → AtLogin x)
      → (cached_until http config (r, w)).0 ≡ err e
      → AtLogin e
  cached_until-AtLogin (ok auth) w e h a =
      let at = http.clock w + (auth.lease_duration - lease_skew) in
      cached_at-AtLogin auth.client_token at w (http.is_instant at) e a
  cached_until-AtLogin (err x) w e h a = h e cc

  login_with-AtLogin :
      (r : Result Error Text) (w : W) (e : Error)
      → ((x : Error) → r ≡ err x → AtLogin x)
      → (login_with http config (r, w)).0 ≡ err e
      → AtLogin e
  login_with-AtLogin (ok jwt) w e h a =
      cached_until-AtLogin (vault_login http config jwt w).0 (vault_login http config jwt w).1 e
        (vault_login-AtLogin jwt w) a
  login_with-AtLogin (err x) w e h a = h e cc

  -- No login fails the way a rejected read does.
  login-AtLogin : (w : W) (e : Error) → (login http config w).0 ≡ err e → AtLogin e
  unfolding login
  login-AtLogin w e a =
      login_with-AtLogin (authentik_token http config w).0 (authentik_token http config w).1 e
        (authentik_token-AtLogin w) a

  store_login-AtLogin :
      (before : Option Cached) (w : W) (e : Error)
      → (store_login http config before (login http config w)).0 ≡ err e
      → AtLogin e
  store_login-AtLogin before w e a =
      of_result (login http config w).0 (login http config w).1 refl a
    where
      of_result :
          (r : Result Error Cached) (u : W)
          → (login http config w).0 ≡ r
          → (store_login http config before (r, u)).0 ≡ err e
          → AtLogin e
      of_result (ok cached) u h b = cc
      of_result (err x) u h b = login-AtLogin w e cc

  use_cached-AtLogin :
      (cache : Option Cached) (w : W) (e : Error)
      → (use_cached http config cache w).0 ≡ err e
      → AtLogin e
  use_cached-AtLogin none w e a = store_login-AtLogin none w e a
  use_cached-AtLogin (some cached) w e a =
      elim (Bool-cases (ltb (http.clock w) cached.expires_at)) [
        | inl live ↦ absurd (ground (arith, live))
        | inr spent ↦ store_login-AtLogin (some cached) w e (ground (arith, spent))
      ]

  module _ {T : Type 0} (op : Text → W → Result Error T × W) where
    -- Some login gave a token that the operation was refused with.
    abbrev pub IsRefused : Type 0
    IsRefused =
        (w : W) × (cached : Cached) × ((login http config w).0 ≡ ok cached)
        × ((op cached.value (login http config w).1).0 ≡ err rejected_read)

    renewed_step :
        (c : SecretClient W) (r : Result Error Cached) (u : W)
        → login http config c.world ≡ (r, u)
        → (run_op http config op (store_login http config none (r, u))).0 ≡ err rejected_read
        → IsRefused
    renewed_step c (ok cached) u h a = (c.world, cached, rw h, rw h a)
    renewed_step c (err x) u h a = absurd (login-AtLogin c.world x (rw h) cc)

    retry_step :
        (r : Result Error T) (c : SecretClient W)
        → (retry_once http config op (r, c)).0 ≡ err rejected_read
        → IsRefused
    unfolding reauthenticate
    retry_step (ok x) c a = cc
    retry_step (err (auth_rejected Stage.vault_read)) c a =
        renewed_step c (login http config c.world).0 (login http config c.world).1 refl a
    retry_step (err (auth_rejected Stage.vault_login)) c a = cc
    retry_step (err (auth_rejected Stage.authentik_token)) c a = cc
    retry_step (err (Error.config _)) c a = cc
    retry_step (err (network _ _)) c a = cc
    retry_step (err not_found) c a = cc
    retry_step (err panicked) c a = cc
    retry_step (err (upstream _ _)) c a = cc

    attempt_step :
        (r : Result Error Text) (c : SecretClient W)
        → ((e : Error) → r ≡ err e → AtLogin e)
        → (attempt http config op (r, c)).0 ≡ err rejected_read
        → IsRefused
    attempt_step (ok token) c h a =
        retry_step (op token c.world).0 (record c { world = (op token c.world).1 }) a
    attempt_step (err e) c h a = let same : e ≡ rejected_read = cc a in absurd (h e refl same)

    -- A rejected read is reported only if the operation was rejected with the token of a new login.
    pub reported_rejection :
        (c : SecretClient W) → (with_reauth http config op c).0 ≡ err rejected_read → IsRefused
    unfolding with_reauth cached_token
    reported_rejection c a =
        attempt_step (cached_token http config c).0 (cached_token http config c).1
          (λ e b. use_cached-AtLogin c.cache c.world e b) a
