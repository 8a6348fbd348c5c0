-- ===== src/Oidc/Retry.antt =====
-- crates/oidc/src/retry.rs: calls to the IdP under one deadline. The schedule of delays is the
-- library's and the clock is the world's: for each attempt the world says whether it answered, hung
-- past its own timeout, or was cut off by the deadline, and after a failed one whether the schedule
-- and the deadline authorise another. `max_times` retries are the most that the schedule gives.
pub mod Budget
pub mod Recovery
use common_rust.Prelude.{ℕ, zero, suc, Bool, true, false, if◌then◌else◌}
use common_rust.Prelude.Result.{Result, ok, err}
use common_rust.Prelude.Text.{Text, codes}
use common_rust.Oidc.Principal.{Upstream, rejected, unreachable}

abbrev pub max_times : ℕ
max_times = 5

pub data Attempt (T : Type 0) : Type 0 where
  answered : Result Upstream T → Attempt T
  hung : Attempt T
  cut : Attempt T

abbrev pub no_response : Upstream
no_response = unreachable (codes "no response within 1s")

abbrev pub exhausted : Upstream
exhausted = unreachable (codes "the request's upstream budget was exhausted")

-- Before another attempt: the schedule and the deadline allow it, or refuse it, or the deadline
-- passes while it waits.
pub data Permission : Type 0 where
  again stop expired : Permission

module _ {T W : Type 0} where
  -- What an attempt comes to; `failed` is called on an error that `when` lets through.
  abbrev pub settle : Attempt T → W → (Upstream → W → Result Upstream T × W) → Result Upstream T × W
  settle (answered (ok t)) w failed = (ok t, w)
  settle (answered (err (rejected why))) w failed = (err (rejected why), w)
  settle (answered (err (unreachable why))) w failed = failed (unreachable why) w
  settle hung w failed = failed no_response w
  settle cut w failed = (err exhausted, w)

  abbrev pub permit :
      Permission → Upstream → W → (W → Result Upstream T × W) → Result Upstream T × W
  permit again e w next = next w
  permit stop e w next = (err e, w)
  permit expired e w next = (err exhausted, w)

module _ {T W : Type 0} (authorise : W → Permission × W) (call : W → Attempt T × W) where
  -- `fuel` counts the retries that the schedule has left.
  unfoldable pub attempts : ℕ → W → Result Upstream T × W
  attempts zero w = let (a, w') = call w in settle a w' (λ e u. (err e, u))
  attempts (suc fuel) w =
      let (a, w') = call w in
      settle a w' (λ e u. let (p, u') = authorise u in permit p e u' (λ x. attempts fuel x))

  unfoldable pub within : W → Result Upstream T × W
  unfolding attempts
  within = attempts max_times
