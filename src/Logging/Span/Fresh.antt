-- ===== src/Logging/Span/Fresh.antt =====
-- crates/logging/src/span.rs: ids of requests that are made at one time.
use common_rust.Prelude.{ℕ, zero, suc, ◌<◌, Option, [], ◌∷◌, ◌++◌, ◌≡◌, ◌≢◌, refl, arith}
use Prim.Native.Nat.{◌%◌, ◌/◌, ◌^◌}
use native.Mathlib.Numerals.{unary_clauses}
use common_rust.Prelude.Text.{Text}
use common_rust.Logging.Span.{hex_digit, hex, nanos_or, gen_reqid}

snoc-injective : (s t : Text) (c d : ℕ) → s ++ c ∷ [] ≡ t ++ d ∷ [] → (s ≡ t) × (c ≡ d)
snoc-injective [] [] c d h = (refl, cc)
snoc-injective [] (e ∷ []) c d h = cc
snoc-injective [] (e ∷ (f ∷ t)) c d h = cc
snoc-injective (a ∷ []) [] c d h = cc
snoc-injective (a ∷ (b ∷ s)) [] c d h = cc
snoc-injective (a ∷ s) (b ∷ t) c d h = let (same, last) = snoc-injective s t c d (cc) in (cc, last)

hex_digit-injective : (c d : ℕ) → c < 16 → d < 16 → hex_digit c ≡ hex_digit d → c ≡ d
hex_digit-injective c d h k e = ground (arith, h, k, e)

div-lt : (w n : ℕ) → n < 16 ^ suc w → n / 16 < 16 ^ w
div-lt w n h = omega (arith, (simp unary_clauses at h))

hex-injective : (w n m : ℕ) → n < 16 ^ w → m < 16 ^ w → hex w n ≡ hex w m → n ≡ m
unfolding hex
hex-injective zero n m h k e = omega (arith, h, k)
hex-injective (suc w) n m h k e =
    let (more, last) =
      snoc-injective (hex w (n / 16)) (hex w (m / 16)) (hex_digit (n % 16)) (hex_digit (m % 16))
        e in
    let digit : n % 16 ≡ m % 16 =
      hex_digit-injective (n % 16) (m % 16) (omega arith) (omega arith) last in
    let rest : n / 16 ≡ m / 16 =
      hex-injective w (n / 16) (m / 16) (div-lt w n h) (div-lt w m k) more in
    omega (arith, digit, rest)

append-injective : (s t u : Text) → s ++ t ≡ s ++ u → t ≡ u
append-injective [] t u h = h
append-injective (c ∷ s) t u h = append-injective s t u (cc)

-- Ids that are made at one reading of the clock differ, unless their counters agree modulo 2^16.
pub gen_reqid_differs :
    (clock : Option ℕ) (n m : ℕ)
    → n % 2 ^ 16 ≢ m % 2 ^ 16
    → (gen_reqid clock n).0 ≢ (gen_reqid clock m).0
unfolding gen_reqid
gen_reqid_differs clock n m h e = h (
    hex-injective 4 (n % 2 ^ 16) (m % 2 ^ 16) (omega arith) (omega arith) (
      append-injective (hex 8 (nanos_or clock % 2 ^ 32)) (hex 4 (n % 2 ^ 16)) (hex 4 (m % 2 ^ 16))
        e))
