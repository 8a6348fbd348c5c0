-- ===== src/Prelude/Equality.antt =====
-- Decidable equality as an interface: Rust's `PartialEq` on numbers, lists, texts and paths.
use Prim.Native.Nat.{ℕ}
use mathlib.Core.Path.{◌≡◌, refl}
use mathlib.Core.Logic.{◌↔◌}
use mathlib.Core.Bool.{Bool, true, false, ◌&&◌}
use mathlib.Core.List.{List, [], ◌∷◌}
use native.Mathlib.Omega.{arith}
use common_rust.Prelude.Tests.{is_eq, is_eq-eq-true_iff}

pub record PartialEq {ℓ} (T : Type ℓ) : Type ℓ where
  pub eq : T → T → Bool
  pub decides : (x y : T) → (eq x y ≡ true) ↔ (x ≡ y)

module _ {ℓ} {A : Type ℓ} ⦃same : PartialEq A⦄ where
  infix 50 ◌==◌
  abbrev pub ◌==◌ : A → A → Bool
  x == y = same.eq x y

  pub eq_iff : (x y : A) → (x == y ≡ true) ↔ (x ≡ y)
  eq_iff = same.decides

  pub eq_refl : (x : A) → x == x ≡ true
  eq_refl x = (same.decides x x).1 refl

  unfoldable pub list_beq : List A → List A → Bool
  list_beq [] [] = true
  list_beq (x ∷ xs) (y ∷ ys) = (x == y) && list_beq xs ys
  list_beq _ _ = false

  pub list_beq_iff : (xs ys : List A) → (list_beq xs ys ≡ true) ↔ (xs ≡ ys)
  unfolding list_beq
  list_beq_iff [] [] = ground arith
  list_beq_iff (x ∷ xs) (y ∷ ys) = ground (arith, eq_iff x y, list_beq_iff xs ys)
  list_beq_iff [] (y ∷ ys) = ground arith
  list_beq_iff (x ∷ xs) [] = ground arith

instance abbrev pub nat_eq : PartialEq ℕ
nat_eq = record { decides = is_eq-eq-true_iff; eq = is_eq }

instance abbrev pub list_eq {ℓ} : {A : Type ℓ} ⦃same : PartialEq A⦄ → PartialEq (List A)
list_eq = record { decides = list_beq_iff; eq = list_beq }
