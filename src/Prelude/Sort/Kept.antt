-- ===== src/Prelude/Sort/Kept.antt =====
-- Sorting keeps the elements and their number.
use mathlib.Core.Path.{◌≡◌, refl, ap, ◌∙◌}
use mathlib.Core.Logic.{inl, inr}
use mathlib.Core.Bool.{Bool}
use mathlib.Core.List.{List, [], ◌∷◌, Memᴰ}
use Prim.Native.Nat.{suc}
use common_rust.Prelude.Tests.{Bool-cases}
use common_rust.Prelude.Lists.{length, Elem}
use common_rust.Prelude.Sort.{insert_by, sort_by}

module _ {ℓ} {A : Type ℓ} (before : A → A → Bool) where
  length-insert_by : (x : A) (xs : List A) → length (insert_by before x xs) ≡ suc (length xs)
  unfolding insert_by
  length-insert_by x [] = refl
  length-insert_by x (y ∷ ys) = elim (Bool-cases (before y x)) [
    | inl h ↦ rw h (ap (λ n. suc n) (length-insert_by x ys))
    | inr h ↦ rw h refl
  ]

  pub length-sort_by : (xs : List A) → length (sort_by before xs) ≡ length xs
  unfolding sort_by
  length-sort_by [] = refl
  length-sort_by (x ∷ xs) =
      length-insert_by x (sort_by before xs) ∙ ap (λ n. suc n) (length-sort_by xs)

  insert_by-head : (x : A) (xs : List A) → Elem x (insert_by before x xs)
  unfolding insert_by
  insert_by-head x [] = Memᴰ.head refl
  insert_by-head x (y ∷ ys) = elim (Bool-cases (before y x)) [
    | inl h ↦ rw h (Memᴰ.tail (insert_by-head x ys))
    | inr h ↦ rw h (Memᴰ.head refl)
  ]

  insert_by-Elem : {y : A} (x : A) (xs : List A) → Elem y xs → Elem y (insert_by before x xs)
  unfolding insert_by
  insert_by-Elem x (z ∷ xs) m = elim (Bool-cases (before z x)) [
    | inl h ↦
        rw h
          (elim m [ Memᴰ.head e ↦ Memᴰ.head e | Memᴰ.tail n ↦ Memᴰ.tail (insert_by-Elem x xs n) ])
    | inr h ↦ rw h (Memᴰ.tail m)
  ]
  insert_by-Elem x [] m = elim m [ ]

  pub sort_by-Elem : {y : A} (xs : List A) → Elem y xs → Elem y (sort_by before xs)
  unfolding sort_by
  sort_by-Elem (x ∷ xs) (Memᴰ.head e) = rw e (insert_by-head x (sort_by before xs))
  sort_by-Elem (x ∷ xs) (Memᴰ.tail m) = insert_by-Elem x (sort_by before xs) (sort_by-Elem xs m)
  sort_by-Elem [] m = elim m [ ]
