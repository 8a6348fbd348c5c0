-- ===== src/Secrets/Client/Tries.antt =====
-- How often an operation is tried.
use common_rust.Prelude.{
  ℕ, ◌+◌, ◌≤◌, Option, none, some, ltb, ◌≡◌, refl, arith, Bool-cases, inl, inr,
}
use common_rust.Prelude.Result.{Result, ok, err}
use common_rust.Prelude.Text.{Text}
use common_rust.Secrets.Error.{Stage, Error, auth_rejected, network, not_found, panicked, upstream}
use common_rust.Secrets.Api.{Http, Config}
use common_rust.Secrets.Client.{
  Cached, SecretClient, login, store_login, use_cached, cached_token, reauthenticate, run_op,
  retry_once, attempt, with_reauth,
}

module _ {W T : Type 0} (http : Http W) (config : Config) (op : Text → W → Result Error T × W) where
  module _ (count : W → ℕ) (tries : (token : Text) (w : W) → count (op token w).1 ≡ count w + 1)
      (logins : (w : W) → count (login http config w).1 ≡ count w) where
    store_login_count :
        (before : Option Cached) (w : W)
        → count (store_login http config before (login http config w)).1.world ≡ count w
    store_login_count before w =
        of_result (login http config w).0 (login http config w).1 (logins w)
      where
        of_result :
            (r : Result Error Cached) (u : W)
            → count u ≡ count w
            → count (store_login http config before (r, u)).1.world ≡ count w
        of_result (ok cached) u h = h
        of_result (err x) u h = h

    use_cached_count :
        (cache : Option Cached) (w : W) → count (use_cached http config cache w).1.world ≡ count w
    use_cached_count none w = store_login_count none w
    use_cached_count (some cached) w = elim (Bool-cases (ltb (http.clock w) cached.expires_at)) [
      | inl live ↦ rw live refl
      | inr spent ↦ rw spent (store_login_count (some cached) w)
    ]

    run_op_count :
        (r : Result Error Text) (c : SecretClient W)
        → count (run_op http config op (r, c)).1.world ≤ count c.world + 1
    run_op_count (ok token) c = omega (arith, tries token c.world)
    run_op_count (err e) c = omega arith

    retry_count :
        (r : Result Error T) (c : SecretClient W)
        → count (retry_once http config op (r, c)).1.world ≤ count c.world + 1
    unfolding reauthenticate
    retry_count (ok x) c = omega arith
    retry_count (err (auth_rejected Stage.vault_read)) c =
        let renewed = store_login http config none (login http config c.world) in
        omega (arith, run_op_count renewed.0 renewed.1, store_login_count none c.world)
    retry_count (err (auth_rejected Stage.vault_login)) c = omega arith
    retry_count (err (auth_rejected Stage.authentik_token)) c = omega arith
    retry_count (err (Error.config _)) c = omega arith
    retry_count (err (network _ _)) c = omega arith
    retry_count (err not_found) c = omega arith
    retry_count (err panicked) c = omega arith
    retry_count (err (upstream _ _)) c = omega arith

    attempt_count :
        (r : Result Error Text) (c : SecretClient W)
        → count (attempt http config op (r, c)).1.world ≤ count c.world + 2
    attempt_count (ok token) c =
        let next = record c { world = (op token c.world).1 } in
        omega (arith, retry_count (op token c.world).0 next, tries token c.world)
    attempt_count (err e) c = omega arith

    -- For a counter that each try of the operation raises by one and that logins leave alone, a
    -- call makes at most two tries.
    pub with_reauth_at_most_two :
        (c : SecretClient W) → count (with_reauth http config op c).1.world ≤ count c.world + 2
    unfolding with_reauth cached_token
    with_reauth_at_most_two c =
        let t = cached_token http config c in
        omega (arith, attempt_count t.0 t.1, use_cached_count c.cache c.world)
