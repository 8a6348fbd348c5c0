-- ===== src/Logging/Format/Once.antt =====
-- crates/logging/src/format.rs: the step of the loop over the fields of the spans.
use common_rust.Prelude.{
  Bool, true, false, ◌||◌, none, List, [], ◌∷◌, ◌++◌, ◌==◌, list_eq, nat_eq, if◌then◌else◌, any,
  ◌≡◌, ◌≢◌, refl, inl, inr, arith, Bool-cases, eq_iff, eq_refl, All, All-append,
}
use common_rust.Prelude.Text.{Text}
use common_rust.Prelude.Sort.Keyed.{lookup, Distinct}
use common_rust.Logging.Fields.{SpanFields}
use common_rust.Logging.Format.{Retained, is_seen, retain}

abbrev pub name_of : Text × Text → Text
name_of f = f.0

-- What the loop keeps: a name that is retained is seen.
pub record IsKept (r : Retained) : Type 0 where
  pub distinct : Distinct name_of r.retained
  pub are_seen : All (λ (f : Text × Text). is_seen f.0 r.seen ≡ true) r.retained

abbrev pub named : Text → SpanFields → Bool
named name fields = any (λ f. f.0 == name) fields

-- What is found under a name after more fields, and whether it is seen.
pub record IsExtended (r r' : Retained) (fields : SpanFields) : Type 0 where
  pub kept : IsKept r'
  pub found :
      (name : Text)
      → lookup name_of name r'.retained ≡ (
          if is_seen name r.seen
          then lookup name_of name r.retained
          else lookup name_of name fields)
  pub sees : (name : Text) → is_seen name r'.seen ≡ is_seen name r.seen || named name fields

pub any-append :
    {A : Type 0} (p : A → Bool) (xs ys : List A) → any p (xs ++ ys) ≡ any p xs || any p ys
unfolding any
any-append p [] ys = refl
any-append p (x ∷ xs) ys = ground (arith, any-append p xs ys)

pub lookup-append :
    (name : Text) (xs ys : SpanFields)
    → lookup name_of name (xs ++ ys)
      ≡ (if named name xs then lookup name_of name xs else lookup name_of name ys)
unfolding any
lookup-append name [] ys = refl
lookup-append name ((n, v) ∷ xs) ys = ground (arith, lookup-append name xs ys)

pub lookup_of_named :
    (name : Text) (xs : SpanFields) → named name xs ≡ false → lookup name_of name xs ≡ none
unfolding any
lookup_of_named name [] h = refl
lookup_of_named name ((n, v) ∷ xs) h = ground (arith, lookup_of_named name xs)

pub named_of-All :
    (name : Text) (seen : List Text) (xs : SpanFields)
    → All (λ (f : Text × Text). is_seen f.0 seen ≡ true) xs
    → is_seen name seen ≡ false
    → named name xs ≡ false
unfolding any
named_of-All name seen [] _ h = refl
named_of-All name seen ((n, v) ∷ xs) (s, ss) h = elim (Bool-cases (n == name)) [
  | inl e ↦ let same : n ≡ name = (eq_iff n name).0 e in absurd (cc)
  | inr e ↦ rw e (named_of-All name seen xs ss h)
]

-- A name that is not on the list may be added at its end.
Distinct-snoc :
    (f : Text × Text) (xs : SpanFields)
    → named f.0 xs ≡ false
    → Distinct name_of xs
    → Distinct name_of (xs ++ f ∷ [])
unfolding any
Distinct-snoc f [] h _ = (tt, tt)
Distinct-snoc f ((n, v) ∷ xs) h (fresh, d) = elim (Bool-cases (n == f.0)) [
  | inl e ↦ absurd (cc (rw e at h))
  | inr e ↦
      let other : n ≢ f.0 = λ same. cc (e, (eq_iff n f.0).1 same) in
      (
        All-append (λ (q : Text × Text). n ≢ name_of q) xs (f ∷ []) fresh (other, tt),
        Distinct-snoc f xs (rw e at h) d,
      )
]

All-seen_snoc :
    (seen : List Text) (name : Text) (xs : SpanFields)
    → All (λ (f : Text × Text). is_seen f.0 seen ≡ true) xs
    → All (λ (f : Text × Text). is_seen f.0 (seen ++ name ∷ []) ≡ true) xs
All-seen_snoc seen name [] _ = tt
All-seen_snoc seen name ((n, v) ∷ xs) (s, ss) =
    (cc (any-append (λ m. m == n) seen (name ∷ []), s), All-seen_snoc seen name xs ss)

seen-eq-false :
    (seen : List Text) (n name : Text)
    → is_seen n seen ≡ true
    → is_seen name seen ≡ false
    → n == name ≡ false
seen-eq-false seen n name s t = elim (Bool-cases (n == name)) [
  | inl e ↦ let same : n ≡ name = (eq_iff n name).0 e in absurd (cc)
  | inr e ↦ e
]

module _ (n v : Text) (r : Retained) (k : IsKept r) where
  -- A name that was seen leaves everything as it is.
  seen-IsExtended : is_seen n r.seen ≡ true → IsExtended r r ((n, v) ∷ [])
  unfolding any
  seen-IsExtended s = record {
    kept = k;
    found = λ name. elim (Bool-cases (is_seen name r.seen)) [
      | inl t ↦ rw t refl
      | inr t ↦
          rw (t, seen-eq-false r.seen n name s t)
            (lookup_of_named name r.retained (named_of-All name r.seen r.retained k.are_seen t))
    ];
    sees = λ name. elim (Bool-cases (is_seen name r.seen)) [
      | inl t ↦ rw t refl
      | inr t ↦ rw (t, seen-eq-false r.seen n name s t) refl
    ];
  }

  abbrev grown : Retained
  grown = record { seen = r.seen ++ n ∷ []; retained = r.retained ++ (n, v) ∷ [] }

  grown-IsKept : is_seen n r.seen ≡ false → IsKept grown
  unfolding any
  grown-IsKept s = record {
    distinct =
        Distinct-snoc (n, v) r.retained (named_of-All n r.seen r.retained k.are_seen s) k.distinct;
    are_seen =
        All-append (λ (f : Text × Text). is_seen f.0 (r.seen ++ n ∷ []) ≡ true) r.retained
          ((n, v) ∷ []) (All-seen_snoc r.seen n r.retained k.are_seen)
          (ground (arith, any-append (λ m. m == n) r.seen (n ∷ []), eq_refl n, s), tt);
  }

  grown-found :
      (name : Text)
      → is_seen n r.seen ≡ false
      → lookup name_of name grown.retained ≡ (
          if is_seen name r.seen
          then lookup name_of name r.retained
          else lookup name_of name ((n, v) ∷ []))
  unfolding any
  grown-found name s = elim (Bool-cases (is_seen name r.seen)) [
    | inr t ↦
        rw
          (
            t,
            lookup-append name r.retained ((n, v) ∷ []),
            named_of-All name r.seen r.retained k.are_seen t,
          )
          refl
    | inl t ↦ elim (Bool-cases (named name r.retained)) [
      | inl m ↦ rw (t, lookup-append name r.retained ((n, v) ∷ []), m) refl
      | inr m ↦
          let away : n == name ≡ false = elim (Bool-cases (n == name)) [
            | inl e ↦ let same : n ≡ name = (eq_iff n name).0 e in absurd (cc)
            | inr e ↦ e
          ] in
          rw
            (
              t,
              lookup-append name r.retained ((n, v) ∷ []),
              m,
              away,
              lookup_of_named name r.retained m,
            )
            refl
    ]
  ]

  pub retain-IsExtended : IsExtended r (retain (n, v) r) ((n, v) ∷ [])
  unfolding any
  retain-IsExtended = elim (Bool-cases (is_seen n r.seen)) [
    | inl s ↦ rw s (seen-IsExtended s)
    | inr s ↦ rw s (record {
      kept = grown-IsKept s;
      found = λ name. grown-found name s;
      sees = λ name. any-append (λ m. m == name) r.seen (n ∷ []);
    })
  ]
