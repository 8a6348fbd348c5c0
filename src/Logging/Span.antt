-- ===== src/Logging/Span.antt =====
-- crates/logging/src/span.rs: the span of a request, and the ids of requests.
pub mod Reached
pub mod Fresh
mod Tests
use common_rust.Prelude.{
  ℕ, zero, suc, ◌+◌, ◌-◌, Option, none, some, List, [], ◌∷◌, ◌++◌, if◌then◌else◌,
}
use common_rust.Prelude.Tests.{ltb}
use Prim.Native.Nat.{◌%◌, ◌/◌, ◌^◌}
use common_rust.Prelude.Text.{Text, codes}
use common_rust.Logging.Fields.{Span, Value, on_new_span, on_record}

abbrev pub hex_digit : ℕ → ℕ
hex_digit d = if ltb d 10 then d + b'0' else (d - 10) + b'a'

-- A number below `16 ^ w` as `{:0w x}` writes it.
unfoldable pub hex : ℕ → ℕ → Text
hex zero n = []
hex (suc w) n = hex w (n / 16) ++ hex_digit (n % 16) ∷ []

-- A clock before the epoch counts as the epoch.
abbrev pub nanos_or : Option ℕ → ℕ
nanos_or none = 0
nanos_or (some n) = n % 2 ^ 64

-- `gen_reqid`, with the clock and the counter before; the counter after is an `AtomicU64`'s.
unfoldable pub gen_reqid : Option ℕ → ℕ → Text × ℕ
unfolding hex
gen_reqid clock counter =
    (hex 8 (nanos_or clock % 2 ^ 32) ++ hex 4 (counter % 2 ^ 16), (counter + 1) % 2 ^ 64)

-- `request_span!`; a field that is empty is not recorded.
unfoldable pub request_span : (ℕ → Text) → Text → Span
unfolding on_new_span
request_span escape reqid = on_new_span escape ((codes "reqid", Value.str reqid) ∷ [])

unfoldable pub set_actor : (ℕ → Text) → Text → Span → Span
unfolding on_record
set_actor escape actor span = on_record escape ((codes "actor", Value.str actor) ∷ []) span
