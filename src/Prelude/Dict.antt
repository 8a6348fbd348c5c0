-- ===== src/Prelude/Dict.antt =====
-- `HashMap` and `BTreeMap` where the program only looks up, inserts, removes and retains: the
-- partial function that the map stands for.
use mathlib.Core.Path.{◌≡◌, refl}
use mathlib.Core.Bool.{Bool}
use mathlib.Core.List.{List, [], ◌∷◌}
use native.Mathlib.Omega.{arith}
use mathlib.Core.Option.{Option, none, some}
use common_rust.Prelude.Tests.{if◌then◌else◌}
use common_rust.Prelude.Equality.{PartialEq, ◌==◌}

abbrev pub Dict {ℓ κ} : Type ℓ → Type κ → Type (ℓ ⊔ κ)
Dict K V = K → Option V

abbrev pub filter_value {ℓ} : {V : Type ℓ} → (V → Bool) → Option V → Option V
filter_value p none = none
filter_value p (some v) = if p v then some v else none

-- `a.or(b)`
abbrev pub or_else {ℓ} : {V : Type ℓ} → Option V → Option V → Option V
or_else none b = b
or_else (some a) b = some a

pub or_else-none {ℓ} : {V : Type ℓ} (a : Option V) → or_else a none ≡ a
or_else-none none = refl
or_else-none (some a) = refl

module _ {ℓ κ} {K : Type ℓ} {V : Type κ} where
  abbrev pub empty : Dict K V
  empty k = none

  abbrev pub retain : (V → Bool) → Dict K V → Dict K V
  retain p m k = filter_value p (m k)

module _ {ℓ κ} {K : Type ℓ} {V : Type κ} ⦃same : PartialEq K⦄ where
  abbrev pub insert : K → V → Dict K V → Dict K V
  insert k v m j = if k == j then some v else m j

  abbrev pub remove : K → Dict K V → Dict K V
  remove k m j = if k == j then none else m j

  -- `iter.collect::<HashMap<_, _>>()`: of two pairs with one key the later stays.
  unfoldable pub collect_onto : Dict K V → List (K × V) → Dict K V
  collect_onto m [] = m
  collect_onto m ((k, v) ∷ r) = collect_onto (insert k v m) r

  unfoldable pub collect : List (K × V) → Dict K V
  unfolding collect_onto
  collect = collect_onto empty

  -- The value of the last pair with the key.
  abbrev pub last_value : K → List (K × V) → Option V
  last_value j [] = none
  last_value j ((k, v) ∷ r) = or_else (last_value j r) (if k == j then some v else none)

  pub collect_onto-last_value :
      (m : Dict K V) (r : List (K × V)) (j : K)
      → collect_onto m r j ≡ or_else (last_value j r) (m j)
  unfolding collect_onto
  collect_onto-last_value m [] j = refl
  collect_onto-last_value m ((k, v) ∷ r) j =
      ground (arith, collect_onto-last_value (insert k v m) r j)

  pub collect-last_value : (r : List (K × V)) (j : K) → collect r j ≡ last_value j r
  unfolding collect
  collect-last_value r j = ground (arith, collect_onto-last_value empty r j)
