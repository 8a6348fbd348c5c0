-- ===== src/Prelude/Lists.antt =====
-- Lists: predicates over them by recursion, Boolean tests over them, native lengths.
use Prim.Native.Nat.{ℕ, suc, ◌+◌}
use mathlib.Core.Path.{◌≡◌, refl, subst, sym}
use mathlib.Core.Bool.{Bool, true, false, ◌&&◌, ◌||◌}
use mathlib.Core.Option.{Option, none, some}
use mathlib.Core.List.{List, [], ◌∷◌, ◌++◌, Memᴰ}
use native.Mathlib.Omega.{arith}
use common_rust.Prelude.Tests.{if◌then◌else◌}

module _ {ℓ} {A : Type ℓ} where
  abbrev pub length : List A → ℕ
  length [] = 0
  length (x ∷ xs) = suc (length xs)

  pub length-append : (xs ys : List A) → length (xs ++ ys) ≡ length xs + length ys
  length-append [] ys = omega arith
  length-append (x ∷ xs) ys = omega (arith, length-append xs ys)

  unfoldable pub any : (A → Bool) → List A → Bool
  any p [] = false
  any p (x ∷ xs) = p x || any p xs

  unfoldable pub all : (A → Bool) → List A → Bool
  all p [] = true
  all p (x ∷ xs) = p x && all p xs

  unfoldable pub keep : (A → Bool) → List A → List A
  keep p [] = []
  keep p (x ∷ xs) = if p x then x ∷ keep p xs else keep p xs

  unfoldable pub find : (A → Bool) → List A → Option A
  find p [] = none
  find p (x ∷ xs) = if p x then some x else find p xs

  -- `a` stands in the list.
  abbrev pub Elem : A → List A → Type ℓ
  Elem = Memᴰ

-- A predicate of every element.
abbrev pub All {ℓ κ} : {A : Type ℓ} → (A → Type κ) → List A → Type κ
All P [] = Unit
All P (x ∷ xs) = P x × All P xs

module _ {ℓ κ} {A : Type ℓ} (P : A → Type κ) where
  pub All-append : (xs ys : List A) → All P xs → All P ys → All P (xs ++ ys)
  All-append [] ys _ k = k
  All-append (x ∷ xs) ys (p, h) k = (p, All-append xs ys h k)

  pub All-of_Elem : (xs : List A) → ((x : A) → Elem x xs → P x) → All P xs
  All-of_Elem [] h = tt
  All-of_Elem (x ∷ xs) h = (h x (Memᴰ.head refl), All-of_Elem xs (λ y m. h y (Memᴰ.tail m)))

  pub All-Elem : (xs : List A) {x : A} → All P xs → Elem x xs → P x
  All-Elem (y ∷ xs) (p, h) (Memᴰ.head e) = subst P (sym e) p
  All-Elem (y ∷ xs) (p, h) (Memᴰ.tail m) = All-Elem xs h m
  All-Elem [] h m = elim m [ ]
