-- ===== src/Secrets/Client.antt =====
-- crates/secrets/src/client.rs: the chain of logins, the cached token, and the operations. The lock
-- on the cache is held through a login, so that the calls are a sequence of changes of the cache.
pub mod Leases
pub mod Retries
pub mod Tries
pub mod Reads
use common_rust.Prelude.{
  ℕ, Bool, true, false, ◌+◌, ◌-◌, Option, none, some, ◌++◌, ltb, if◌then◌else◌,
}
use common_rust.Prelude.Dict.{Dict}
use common_rust.Prelude.Result.{Result, ok, err, ◌>>=◌}
use common_rust.Prelude.Text.{Text, codes}
use common_rust.Secrets.Error.{Stage, Error, auth_rejected, panicked, Secret}
use common_rust.Secrets.Api.{
  Http, Config, VaultAuth, Fields, Reply, token_form, login_url, data_url, metadata_url, accepted,
  read_reply, write_reply, delete_reply, extract, collect,
}

abbrev pub lease_skew : ℕ
lease_skew = 10

pub record Cached : Type 0 where
  pub value : Text
  pub expires_at : ℕ

pub record SecretClient (W : Type 0) : Type 0 where
  pub cache : Option Cached
  pub world : W

abbrev pub secret_path : Text → Text → Text
secret_path service key = codes "services/" ++ (service ++ (codes "/" ++ key))

module _ {W : Type 0} (http : Http W) (config : Config) where
  unfoldable pub authentik_token : W → Result Error Text × W
  unfolding token_form accepted
  authentik_token w =
      let form =
        token_form config.client_id config.service_account config.app_password config.scope in
      let (reply, w') = http.post_form config.authentik_token_url form w in
      (
        accepted Stage.authentik_token (codes "token endpoint") (codes "token") http.status_text
            reply,
        w',
      )

  unfoldable pub vault_login : Text → W → Result Error VaultAuth × W
  unfolding login_url accepted
  vault_login jwt w =
      let (reply, w') = http.post_login (login_url config.bao_addr) config.jwt_role jwt w in
      (accepted Stage.vault_login (codes "jwt login") (codes "login") http.status_text reply, w')

  -- The moment, if the clock can hold it; the sum panics if not.
  abbrev pub cached_at : Text → ℕ → W → Bool → Result Error Cached × W
  cached_at token at w true = (ok (record { value = token; expires_at = at }), w)
  cached_at token at w false = (err panicked, w)

  -- The lease, less the skew, from the moment of the reply.
  abbrev pub cached_until : Result Error VaultAuth × W → Result Error Cached × W
  cached_until (err e, w) = (err e, w)
  cached_until (ok auth, w) =
      let at = http.clock w + (auth.lease_duration - lease_skew) in
      cached_at auth.client_token at w (http.is_instant at)

  abbrev pub login_with : Result Error Text × W → Result Error Cached × W
  login_with (err e, w) = (err e, w)
  login_with (ok jwt, w) = cached_until (vault_login jwt w)

  unfoldable pub login : W → Result Error Cached × W
  unfolding authentik_token vault_login
  login w = login_with (authentik_token w)

  -- What follows a login, for a cache that a failed one leaves as it is.
  abbrev pub store_login :
      Option Cached → Result Error Cached × W → Result Error Text × SecretClient W
  store_login before (err e, w) = (err e, record { cache = before; world = w })
  store_login before (ok fresh, w) = (ok fresh.value, record { cache = some fresh; world = w })

  abbrev pub use_cached : Option Cached → W → Result Error Text × SecretClient W
  use_cached none w = store_login none (login w)
  use_cached (some cached) w =
      let fresh = store_login (some cached) (login w) in
      if ltb (http.clock w) cached.expires_at
      then (ok cached.value, record { cache = some cached; world = w })
      else fresh

  unfoldable pub cached_token : SecretClient W → Result Error Text × SecretClient W
  unfolding login
  cached_token c = use_cached c.cache c.world

  unfoldable pub reauthenticate : SecretClient W → Result Error Text × SecretClient W
  unfolding login
  reauthenticate c = store_login none (login c.world)

  module _ {T : Type 0} (op : Text → W → Result Error T × W) where
    -- An operation with a token, if there is one; the operation does not touch the cache.
    abbrev pub run_op : Result Error Text × SecretClient W → Result Error T × SecretClient W
    run_op (err e, c) = (err e, c)
    run_op (ok token, c) = let (r, w) = op token c.world in (r, record c { world = w })

    abbrev pub retry_once : Result Error T × SecretClient W → Result Error T × SecretClient W
    retry_once (err (auth_rejected Stage.vault_read), c) = run_op (reauthenticate c)
    retry_once (r, c) = (r, c)

    abbrev pub attempt : Result Error Text × SecretClient W → Result Error T × SecretClient W
    attempt (err e, c) = (err e, c)
    attempt (ok token, c) = retry_once (run_op (ok token, c))

    unfoldable pub with_reauth : SecretClient W → Result Error T × SecretClient W
    unfolding cached_token reauthenticate
    with_reauth c = attempt (cached_token c)

  unfoldable pub get : Text → Text → W → Result Error Fields × W
  unfolding data_url read_reply
  get path token w =
      let (reply, w') = http.get (data_url config.bao_addr path) token w in
      (read_reply http.status_text reply, w')

  unfoldable pub put : Text → Dict Text Text → Text → W → Result Error (Unit {0}) × W
  unfolding data_url write_reply
  put path document token w =
      let (reply, w') = http.post (data_url config.bao_addr path) token document w in
      (write_reply http.status_text reply, w')

  unfoldable pub remove : Text → Text → W → Result Error (Unit {0}) × W
  unfolding metadata_url delete_reply
  remove path token w =
      let (reply, w') = http.delete (metadata_url config.bao_addr path) token w in
      (delete_reply http.status_text reply, w')

  unfoldable pub fetch : Text → Text → SecretClient W → Result Error Secret × SecretClient W
  unfolding with_reauth get extract
  fetch service key = with_reauth (λ token w.
      let (fields, w') = get (secret_path service key) token w in
      (fields >>= λ f. extract f key, w'))

  unfoldable pub read_doc : Text → SecretClient W → Result Error (Dict Text Secret) × SecretClient W
  unfolding with_reauth get collect
  read_doc path =
      with_reauth (λ token w. let (fields, w') = get path token w in (fields >>= collect, w'))

  unfoldable pub write_doc :
      Text → Dict Text Text → SecretClient W → Result Error (Unit {0}) × SecretClient W
  unfolding with_reauth put
  write_doc path document = with_reauth (put path document)

  unfoldable pub delete_doc : Text → SecretClient W → Result Error (Unit {0}) × SecretClient W
  unfolding with_reauth remove
  delete_doc path = with_reauth (remove path)
