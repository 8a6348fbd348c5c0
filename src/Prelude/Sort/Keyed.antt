-- ===== src/Prelude/Sort/Keyed.antt =====
-- Lists sorted by a text of each element: what is found under a key, and that the keys and what is
-- found under them say all of a list whose keys ascend.
use mathlib.Core.Path.{◌≡◌, refl, sym, ◌∙◌}
use mathlib.Core.Logic.{◌≢◌, inl, inr}
use mathlib.Core.Bool.{Bool, true, false, not}
use mathlib.Core.Option.{Option, none, some}
use mathlib.Core.List.{List, [], ◌∷◌, ◌++◌}
use native.Mathlib.Omega.{arith}
use common_rust.Prelude.Tests.{if◌then◌else◌, Bool-cases}
use common_rust.Prelude.Equality.{◌==◌, nat_eq, list_eq, eq_iff, eq_refl}
use common_rust.Prelude.Lists.{keep, All, All-append}
use common_rust.Prelude.Text.{Text}
use common_rust.Prelude.Sort.{
  text_lt, text_lt_irrefl, text_lt_trans, text_lt_total, insert_by, sort_by,
}

module _ {ℓ} {A : Type ℓ} (key : A → Text) where
  abbrev pub key_before : A → A → Bool
  key_before a b = text_lt (key a) (key b)

  abbrev pub lookup : Text → List A → Option A
  lookup k [] = none
  lookup k (x ∷ xs) = if key x == k then some x else lookup k xs

  -- The keys ascend, none twice.
  abbrev pub Ascends : List A → Type 0
  Ascends [] = Unit
  Ascends (x ∷ xs) = All (λ y. text_lt (key x) (key y) ≡ true) xs × Ascends xs

  -- No two elements have one key.
  abbrev pub Distinct : List A → Type 0
  Distinct [] = Unit
  Distinct (x ∷ xs) = All (λ y. key x ≢ key y) xs × Distinct xs

  lookup-insert_by :
      (k : Text) (x : A) (xs : List A)
      → lookup k (insert_by key_before x xs) ≡ (if key x == k then some x else lookup k xs)
  unfolding insert_by
  lookup-insert_by k x [] = refl
  lookup-insert_by k x (y ∷ ys) =
      ground (arith, lookup-insert_by k x ys, eq_iff (key x) k, eq_iff (key y) k, text_lt_irrefl k)

  pub lookup-sort_by : (k : Text) (xs : List A) → lookup k (sort_by key_before xs) ≡ lookup k xs
  unfolding sort_by
  lookup-sort_by k [] = refl
  lookup-sort_by k (x ∷ xs) =
      lookup-insert_by k x (sort_by key_before xs) ∙ ground (arith, lookup-sort_by k xs)

  All-insert_by :
      (P : A → Type 0) (x : A) (xs : List A) → P x → All P xs → All P (insert_by key_before x xs)
  unfolding insert_by
  All-insert_by P x [] p h = (p, tt)
  All-insert_by P x (y ∷ ys) p (q, h) = elim (Bool-cases (key_before y x)) [
    | inl before ↦ rw before (q, All-insert_by P x ys p h)
    | inr after ↦ rw after (p, (q, h))
  ]

  All-sort_by : (P : A → Type 0) (xs : List A) → All P xs → All P (sort_by key_before xs)
  unfolding sort_by
  All-sort_by P [] h = tt
  All-sort_by P (x ∷ xs) (p, h) = All-insert_by P x _ p (All-sort_by P xs h)

  before-All :
      (x y : A) (xs : List A)
      → key_before x y ≡ true
      → All (λ z. key_before y z ≡ true) xs
      → All (λ z. key_before x z ≡ true) xs
  before-All x y [] h k = tt
  before-All x y (z ∷ xs) h (q, k) =
      (text_lt_trans (key x) (key y) (key z) h q, before-All x y xs h k)

  insert_by-Ascends :
      (x : A) (xs : List A)
      → All (λ y. key x ≢ key y) xs
      → Ascends xs
      → Ascends (insert_by key_before x xs)
  unfolding insert_by
  insert_by-Ascends x [] n h = (tt, tt)
  insert_by-Ascends x (y ∷ ys) (n, ns) (h, hs) = elim (Bool-cases (key_before y x)) [
    | inl before ↦
        rw before
          (All-insert_by (λ z. key_before y z ≡ true) x ys before h, insert_by-Ascends x ys ns hs)
    | inr after ↦ elim (Bool-cases (key_before x y)) [
      | inl first ↦ rw after ((first, before-All x y ys first h), (h, hs))
      | inr not_first ↦ absurd (n (text_lt_total (key x) (key y) not_first after))
    ]
  ]

  -- Sorting a list without two elements of one key.
  pub sort_by-Ascends : (xs : List A) → Distinct xs → Ascends (sort_by key_before xs)
  unfolding sort_by
  sort_by-Ascends [] h = tt
  sort_by-Ascends (x ∷ xs) (n, h) =
      insert_by-Ascends x (sort_by key_before xs) (All-sort_by (λ y. key x ≢ key y) xs n)
        (sort_by-Ascends xs h)

  before-ne : (x y : A) → key_before x y ≡ true → key x ≢ key y
  before-ne x y h e = cc (h, text_lt_irrefl (key x), e)

  pub Ascends-Distinct : (xs : List A) → Ascends xs → Distinct xs
  Ascends-Distinct [] h = tt
  Ascends-Distinct (x ∷ xs) (p, h) = (ne_all xs p, Ascends-Distinct xs h)
    where
      ne_all : (ys : List A) → All (λ y. key_before x y ≡ true) ys → All (λ y. key x ≢ key y) ys
      ne_all [] k = tt
      ne_all (y ∷ ys) (q, k) = (before-ne x y q, ne_all ys k)

  All-keep : (P : A → Type 0) (p : A → Bool) (xs : List A) → All P xs → All P (keep p xs)
  unfolding keep
  All-keep P p [] h = tt
  All-keep P p (x ∷ xs) (q, h) = elim (Bool-cases (p x)) [
    | inl is ↦ rw is (q, All-keep P p xs h)
    | inr is_not ↦ rw is_not (All-keep P p xs h)
  ]

  keep-Distinct : (p : A → Bool) (xs : List A) → Distinct xs → Distinct (keep p xs)
  unfolding keep
  keep-Distinct p [] h = tt
  keep-Distinct p (x ∷ xs) (n, h) = elim (Bool-cases (p x)) [
    | inl is ↦ rw is (All-keep (λ y. key x ≢ key y) p xs n, keep-Distinct p xs h)
    | inr is_not ↦ rw is_not (keep-Distinct p xs h)
  ]

  -- The elements of another key than that of `h`, and `h`.
  abbrev pub replaced : A → List A → List A
  replaced h xs = keep (λ x. not (key x == key h)) xs ++ h ∷ []

  lookup-replaced :
      (k : Text) (h : A) (xs : List A)
      → lookup k (replaced h xs) ≡ (if key h == k then some h else lookup k xs)
  unfolding keep
  lookup-replaced k h [] = refl
  lookup-replaced k h (x ∷ xs) =
      ground
        (arith, lookup-replaced k h xs, eq_iff (key x) (key h), eq_iff (key h) k, eq_iff (key x) k)

  replaced-Distinct : (h : A) (xs : List A) → Distinct xs → Distinct (replaced h xs)
  unfolding keep
  replaced-Distinct h [] d = (tt, tt)
  replaced-Distinct h (x ∷ xs) (n, d) = elim (Bool-cases (key x == key h)) [
    | inl same ↦ rw same (replaced-Distinct h xs d)
    | inr differs ↦ rw differs (
      All-append (λ y. key x ≢ key y) _ (h ∷ [])
          (All-keep (λ y. key x ≢ key y) (λ y. not (key y == key h)) xs n)
          ((λ e. cc ((eq_iff (key x) (key h)).1 e, differs)), tt),
      replaced-Distinct h xs d,
    )
  ]

  lookup-below :
      (k : Text) (xs : List A) → All (λ y. text_lt k (key y) ≡ true) xs → lookup k xs ≡ none
  lookup-below k [] h = refl
  lookup-below k (x ∷ xs) (p, h) =
      ground (arith, lookup-below k xs h, eq_iff (key x) k, text_lt_irrefl k, p)

  -- A list of a lower first key is told apart by that key.
  lookup_first_lower :
      (x y : A) (xs ys : List A)
      → Ascends (y ∷ ys)
      → lookup (key x) (x ∷ xs) ≡ lookup (key x) (y ∷ ys)
      → key_before x y ≡ false
  lookup_first_lower x y xs ys (h, hs) e = elim (Bool-cases (key_before x y)) [
    | inl lower ↦
        absurd (
          cc (e, lookup-below (key x) (y ∷ ys) (lower, before-All x y ys lower h), eq_refl (key x)))
    | inr not_lower ↦ not_lower
  ]

  lookup-rest :
      (k : Text) (x : A) (xs ys : List A)
      → Ascends (x ∷ xs)
      → Ascends (x ∷ ys)
      → lookup k (x ∷ xs) ≡ lookup k (x ∷ ys)
      → lookup k xs ≡ lookup k ys
  lookup-rest k x xs ys (h, _) (h', _) e = elim (Bool-cases (key x == k)) [
    | inl same ↦
        let is : key x ≡ k = (eq_iff (key x) k).0 same in
        rw (← is) (lookup-below (key x) xs h ∙ sym (lookup-below (key x) ys h'))
    | inr differs ↦ ground (arith, e, differs)
  ]

  -- Lists whose keys ascend are the same if the same is found in them under every key.
  pub eq_of_lookup :
      (xs ys : List A)
      → Ascends xs
      → Ascends ys
      → ((k : Text) → lookup k xs ≡ lookup k ys)
      → xs ≡ ys
  eq_of_lookup [] [] h h' e = refl
  eq_of_lookup [] (y ∷ ys) h h' e = absurd (cc (e (key y), eq_refl (key y)))
  eq_of_lookup (x ∷ xs) [] h h' e = absurd (cc (e (key x), eq_refl (key x)))
  eq_of_lookup (x ∷ xs) (y ∷ ys) h h' e =
      let not_lower = lookup_first_lower x y xs ys h' (e (key x)) in
      let not_above = lookup_first_lower y x ys xs h (sym (e (key y))) in
      let keys : key x ≡ key y = text_lt_total (key x) (key y) not_lower not_above in
      let same : x ≡ y = cc (e (key x), eq_refl (key x), keys) in
      let h'' : Ascends (x ∷ ys) = rw same h' in
      let rest =
        eq_of_lookup xs ys h.1 h'.1 (λ k. lookup-rest k x xs ys h h'' (rw same (cc (e k, same)))) in
      cc

  -- The element in the place of any other of its key, and the list sorted.
  abbrev pub store : A → List A → List A
  store h xs = sort_by key_before (replaced h xs)

  pub lookup-store :
      (k : Text) (h : A) (xs : List A)
      → lookup k (store h xs) ≡ (if key h == k then some h else lookup k xs)
  lookup-store k h xs = lookup-sort_by k (replaced h xs) ∙ lookup-replaced k h xs

  pub store-Ascends : (h : A) (xs : List A) → Distinct xs → Ascends (store h xs)
  store-Ascends h xs d = sort_by-Ascends (replaced h xs) (replaced-Distinct h xs d)

  -- Two elements of different keys may be stored in either order.
  pub store_comm :
      (h k : A) (xs : List A)
      → Distinct xs
      → key h ≢ key k
      → store h (store k xs) ≡ store k (store h xs)
  store_comm h k xs d n = eq_of_lookup _ _ (twice h k) (twice k h) (λ j. ground (
    arith,
    lookup-store j h (store k xs),
    lookup-store j k (store h xs),
    lookup-store j h xs,
    lookup-store j k xs,
    eq_iff (key h) j,
    eq_iff (key k) j,
    n,
  ))
    where
      twice : (a b : A) → Ascends (store a (store b xs))
      twice a b = store-Ascends a (store b xs) (Ascends-Distinct _ (store-Ascends b xs d))
