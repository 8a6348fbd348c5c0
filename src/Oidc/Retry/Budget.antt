-- ===== src/Oidc/Retry/Budget.antt =====
-- What a call under a deadline may return, and how often it may have asked.
use common_rust.Prelude.{ℕ, zero, suc, ◌+◌, ◌≤◌, ◌≡◌, refl, arith}
use common_rust.Prelude.Result.{Result, ok, err}
use common_rust.Prelude.Text.{Text}
use common_rust.Oidc.Principal.{Upstream, rejected, unreachable}
use common_rust.Oidc.Retry.{
  max_times, Attempt, answered, hung, cut, Permission, again, stop, expired, settle, permit,
  attempts, within,
}

module _ {T W : Type 0} (authorise : W → Permission × W) (call : W → Attempt T × W) where
  -- Some attempt gave the answer `r`.
  abbrev pub Gave : Result Upstream T → Type 0
  Gave r = (w : W) × ((call w).0 ≡ answered r)

  -- What may be returned: an answer that some attempt gave, or a failure of this side.
  abbrev pub IsHonest : Result Upstream T → Type 0
  IsHonest (ok t) = Gave (ok t)
  IsHonest (err (rejected why)) = Gave (err (rejected why))
  IsHonest (err (unreachable why)) = Unit

  settle-IsHonest :
      (w : W) (a : Attempt T) (w' : W) (failed : Upstream → W → Result Upstream T × W)
      → (call w).0 ≡ a
      → ((why : Text) (u : W) → IsHonest (failed (unreachable why) u).0)
      → IsHonest (settle a w' failed).0
  settle-IsHonest w (answered (ok t)) w' failed e h = (w, e)
  settle-IsHonest w (answered (err (rejected why))) w' failed e h = (w, e)
  settle-IsHonest w (answered (err (unreachable why))) w' failed e h = h why w'
  settle-IsHonest w hung w' failed e h = h _ w'
  settle-IsHonest w cut w' failed e h = tt

  permit-IsHonest :
      (p : Permission) (why : Text) (w : W) (next : W → Result Upstream T × W)
      → IsHonest (next w).0
      → IsHonest (permit p (unreachable why) w next).0
  permit-IsHonest again why w next h = h
  permit-IsHonest stop why w next h = tt
  permit-IsHonest expired why w next h = tt

  attempts-IsHonest : (fuel : ℕ) (w : W) → IsHonest (attempts authorise call fuel w).0
  unfolding attempts
  attempts-IsHonest zero w = settle-IsHonest w (call w).0 (call w).1 _ refl (λ why u. tt)
  attempts-IsHonest (suc fuel) w = settle-IsHonest w (call w).0 (call w).1 _ refl (λ why u.
      permit-IsHonest (authorise u).0 why (authorise u).1 _
        (attempts-IsHonest fuel (authorise u).1))

  -- A value or a rejection that `within` returns was given by some attempt; all else that it
  -- returns is `unreachable`.
  pub within-IsHonest : (w : W) → IsHonest (within authorise call w).0
  unfolding within
  within-IsHonest w = attempts-IsHonest max_times w

  -- A rejection by the first attempt is the result, and the world is as that attempt left it.
  pub rejection_not_retried :
      (w : W) (why : Text)
      → (call w).0 ≡ answered (err (rejected why))
      → within authorise call w ≡ (err (rejected why), (call w).1)
  unfolding within attempts
  rejection_not_retried w why e = rw e

  module _ (count : W → ℕ) (calls : (w : W) → count (call w).1 ≡ count w + 1)
      (waits : (w : W) → count (authorise w).1 ≡ count w) where
    settle_count :
        (a : Attempt T) (w : W) (failed : Upstream → W → Result Upstream T × W) (n : ℕ)
        → ((e : Upstream) → count (failed e w).1 ≤ count w + n)
        → count (settle a w failed).1 ≤ count w + n
    settle_count (answered (ok t)) w failed n h = omega arith
    settle_count (answered (err (rejected why))) w failed n h = omega arith
    settle_count (answered (err (unreachable why))) w failed n h = h _
    settle_count hung w failed n h = h _
    settle_count cut w failed n h = omega arith

    permit_count :
        (p : Permission) (e : Upstream) (w : W) (next : W → Result Upstream T × W) (n : ℕ)
        → count (next w).1 ≤ count w + n
        → count (permit p e w next).1 ≤ count w + n
    permit_count again e w next n h = h
    permit_count stop e w next n h = omega arith
    permit_count expired e w next n h = omega arith

    attempts_count :
        (fuel : ℕ) (w : W) → count (attempts authorise call fuel w).1 ≤ count w + (fuel + 1)
    unfolding attempts
    attempts_count zero w =
        let settled = settle_count (call w).0 (call w).1 (λ e u. (err e, u)) 0 (λ e. omega arith) in
        omega (arith, settled, calls w)
    attempts_count (suc fuel) w =
        let again_count = λ (e : Upstream).
          permit_count (authorise (call w).1).0 e (authorise (call w).1).1
            (λ x. attempts authorise call fuel x) (fuel + 1)
            (attempts_count fuel (authorise (call w).1).1) in
        let settled =
          settle_count (call w).0 (call w).1
            (λ e u.
              let (p, u') = authorise u in permit p e u' (λ x. attempts authorise call fuel x))
            (fuel + 1) (λ e. omega (arith, again_count e, waits (call w).1)) in
        omega (arith, settled, calls w)

    -- For a counter that each attempt raises by one and that waiting leaves alone, one call of
    -- `within` makes at most six attempts.
    pub within_at_most_six : (w : W) → count (within authorise call w).1 ≤ count w + 6
    unfolding within
    within_at_most_six w = omega (arith, attempts_count max_times w)
