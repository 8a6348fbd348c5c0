-- ===== src/Oidc/Retry/Recovery.antt =====
-- When a call under a deadline returns a value.
use common_rust.Prelude.{ℕ, zero, suc, ◌≡◌, ◌↔◌, ◌⊎◌, inl, inr, refl}
use common_rust.Prelude.Result.{Result, ok, err}
use common_rust.Prelude.Text.{Text}
use common_rust.Oidc.Principal.{Upstream, rejected, unreachable}
use common_rust.Oidc.Retry.{
  max_times, Attempt, answered, hung, cut, Permission, again, stop, expired, no_response, settle,
  permit, attempts, within,
}

-- The attempt failed in a way that may be tried again.
pub data Failed {T : Type 0} : Attempt T → Upstream → Type 0 where
  refused : (why : Text) → Failed (answered (err (unreachable why))) (unreachable why)
  timed_out : Failed hung no_response

module _ {T W : Type 0} (authorise : W → Permission × W) (call : W → Attempt T × W) where
  -- From a world, after a number of failed attempts, each with leave for another, an attempt
  -- answers with a value.
  pub data Recovers : ℕ → W → T → W → Type 0 where
    now : {n : ℕ} {w w' : W} {t : T} → call w ≡ (answered (ok t), w') → Recovers n w t w'
    later :
        {n : ℕ} {w w₁ w₂ w' : W} {t : T} (a : Attempt T) (e : Upstream)
        → call w ≡ (a, w₁)
        → Failed a e
        → authorise w₁ ≡ (again, w₂)
        → Recovers n w₂ t w'
        → Recovers (suc n) w t w'

  settle-Failed :
      (a : Attempt T) (e : Upstream) (w : W) (failed : Upstream → W → Result Upstream T × W)
      → Failed a e
      → settle a w failed ≡ failed e w
  settle-Failed _ _ w failed (refused why) = refl
  settle-Failed _ _ w failed timed_out = refl

  Recovers-value :
      (n : ℕ) {w w' : W} {t : T} → Recovers n w t w' → attempts authorise call n w ≡ (ok t, w')
  unfolding attempts
  Recovers-value zero (now e) = rw e refl
  Recovers-value (suc n) (now e) = rw e refl
  Recovers-value (suc n) (later {w₁ = w₁} a e asked f allowed r) =
      rw (asked, settle-Failed a e w₁ _ f, allowed) (Recovers-value n r)

  -- What a value that is settled on came from.
  settled :
      (a : Attempt T) (w w' : W) (t : T) (failed : Upstream → W → Result Upstream T × W)
      → settle a w failed ≡ (ok t, w')
      → ((a ≡ answered (ok t)) × (w ≡ w'))
        ⊎ ((e : Upstream) × Failed a e × (failed e w ≡ (ok t, w')))
  settled (answered (ok u)) w w' t failed h = inl (cc, cc)
  settled (answered (err (rejected why))) w w' t failed h = absurd (cc)
  settled (answered (err (unreachable why))) w w' t failed h = inr (unreachable why, refused why, h)
  settled hung w w' t failed h = inr (no_response, timed_out, h)
  settled cut w w' t failed h = absurd (cc)

  permitted :
      (p : Permission) (e : Upstream) (w w' : W) (t : T) (next : W → Result Upstream T × W)
      → permit p e w next ≡ (ok t, w')
      → (p ≡ again) × (next w ≡ (ok t, w'))
  permitted again e w w' t next h = (refl, h)
  permitted stop e w w' t next h = absurd (cc)
  permitted expired e w w' t next h = absurd (cc)

  value-Recovers :
      (n : ℕ) (w w' : W) (t : T) → attempts authorise call n w ≡ (ok t, w') → Recovers n w t w'
  unfolding attempts
  value-Recovers zero w w' t h = elim (settled (call w).0 (call w).1 w' t (λ e u. (err e, u)) h) [
    | inl (is, same) ↦ now (λ i. (is i, same i))
    | inr (e, f, bad) ↦ absurd (cc)
  ]
  value-Recovers (suc n) w w' t h = elim (settled (call w).0 (call w).1 w' t _ h) [
    | inl (is, same) ↦ now (λ i. (is i, same i))
    | inr (e, f, more) ↦
        let (allowed, rest) =
          permitted (authorise (call w).1).0 e (authorise (call w).1).1 w' t _ more in
        later (call w).0 e refl f (λ i. (allowed i, (authorise (call w).1).1))
          (value-Recovers n (authorise (call w).1).1 w' t rest)
  ]

  -- A call under the deadline returns a value exactly when, after at most five attempts that failed
  -- or hung and were each allowed another, an attempt answers with it, and it leaves the world as
  -- that attempt did.
  pub within-Recovers :
      (w w' : W) (t : T) → (within authorise call w ≡ (ok t, w')) ↔ Recovers max_times w t w'
  unfolding within
  within-Recovers w w' t = (value-Recovers max_times w w' t, Recovers-value max_times)
