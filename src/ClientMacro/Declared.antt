-- ===== src/ClientMacro/Declared.antt =====
-- crates/routing-macros/src/parse.rs: what the parameters of a template are.
use common_rust.Prelude.{
  ℕ, suc, zero, Bool, true, false, List, [], ◌∷◌, ◌++◌, ◌==◌, list_eq, nat_eq, any, all, length,
  ◌≡◌, ◌≢◌, inl, inr, Bool-cases, eq_iff, sym, subst, All, All-append, Elem,
}
use mathlib.Core.List.{Memᴰ}
use common_rust.Prelude.Result.{ok, bind-eq-ok}
use common_rust.Prelude.Text.{Text, split_once}
use common_rust.Prelude.Sort.Keyed.{Distinct}
use common_rust.ClientMacro.Termination.{Next-cases}
use common_rust.ClientMacro.Template.{
  next, with_param, name_and_type, is_usable, is_name_char, is_digit, declarable, is_declarable,
  is_declared, params_from, declared_params,
}

-- A name that TypeScript can read: a letter or `_` first, no other character than these and digits.
abbrev pub IsName : Text → Type 0
IsName [] = ⊥
IsName (c ∷ s) = (is_digit c ≡ false) × All (λ d. is_name_char d ≡ true) (c ∷ s)

abbrev pub IsParam : Text × Text → Type 0
IsParam (name, ts) = IsName name × Elem ts declarable

-- Parameters that can stand in one template.
pub record AreParams (params : List (Text × Text)) : Type 0 where
  pub each : All IsParam params
  pub distinct : Distinct (λ (p : Text × Text). p.0) params

all-All : (p : ℕ → Bool) (s : Text) → all p s ≡ true → All (λ c. p c ≡ true) s
unfolding all
all-All p [] _ = tt
all-All p (c ∷ s) h = elim (Bool-cases (p c)) [
  | inl e ↦ (e, all-All p s (rw e at h))
  | inr e ↦ absurd (cc (rw e at h))
]

is_usable-IsName : (name : Text) → is_usable name ≡ true → IsName name
unfolding is_usable
is_usable-IsName [] h = cc
is_usable-IsName (c ∷ s) h = elim (Bool-cases (all is_name_char (c ∷ s))) [
  | inl e ↦ elim (Bool-cases (is_digit c)) [
    | inl d ↦ absurd (cc (rw (e, d) at h))
    | inr d ↦ (d, all-All is_name_char (c ∷ s) e)
  ]
  | inr e ↦ absurd (cc (rw e at h))
]

any-Elem : (ts : Text) (l : List Text) → any (λ t. t == ts) l ≡ true → Elem ts l
unfolding any
any-Elem ts [] h = cc
any-Elem ts (t ∷ l) h = elim (Bool-cases (t == ts)) [
  | inl e ↦ Memᴰ.head (sym ((eq_iff t ts).0 e))
  | inr e ↦ Memᴰ.tail (any-Elem ts l (rw e at h))
]

-- Another parameter, its name a new one.
Distinct-snoc :
    (out : List (Text × Text)) (p : Text × Text)
    → is_declared p.0 out ≡ false
    → Distinct (λ (p : Text × Text). p.0) out
    → Distinct (λ (p : Text × Text). p.0) (out ++ p ∷ [])
unfolding any
Distinct-snoc [] p h _ = (tt, tt)
Distinct-snoc ((m, t) ∷ out) p h (fresh, d) = elim (Bool-cases (m == p.0)) [
  | inl e ↦ absurd (cc (rw e at h))
  | inr e ↦
      let other : m ≢ p.0 = λ same. cc (e, (eq_iff m p.0).1 same) in
      (
        All-append (λ (q : Text × Text). m ≢ q.0) out (p ∷ []) fresh (other, tt),
        Distinct-snoc out p (rw e at h) d,
      )
]

module _ (template : Text) where
  with_param-AreParams :
      (body : Text) (p : Text × Text) (out : List (Text × Text)) {out' : List (Text × Text)}
      → AreParams out
      → with_param template body p out ≡ ok out'
      → AreParams out'
  with_param-AreParams body (name, ts) out {out'} known h = elim (Bool-cases (is_usable name)) [
    | inr u ↦ absurd (cc (rw u at h))
    | inl u ↦ elim (Bool-cases (is_declarable ts)) [
      | inr d ↦ absurd (cc (rw (u, d) at h))
      | inl d ↦ elim (Bool-cases (is_declared name out)) [
        | inl e ↦ absurd (cc (rw (u, d, e) at h))
        | inr e ↦
            let made : (out ++ (name, ts) ∷ []) ≡ out' = cc (rw (u, d, e) at h) in
            let is_param : IsParam (name, ts) =
              (is_usable-IsName name u, any-Elem ts declarable d) in
            subst AreParams made (record {
              each = All-append IsParam out ((name, ts) ∷ []) known.each (is_param, tt);
              distinct = Distinct-snoc out (name, ts) e known.distinct;
            })
      ]
    ]
  ]

  params_from-AreParams :
      (n : ℕ) (rest : Text) (out : List (Text × Text)) {params : List (Text × Text)}
      → AreParams out
      → params_from n template rest out ≡ ok params
      → AreParams params
  unfolding params_from
  params_from-AreParams zero rest out known h = cc
  params_from-AreParams (suc n) rest out {params} known h = elim (Next-cases (next rest)) [
    | inl e ↦ let same : out ≡ params = cc (rw e at h) in subst AreParams same known
    | inr (inl e) ↦ absurd (cc (rw e at h))
    | inr (inr (body, rest', e)) ↦
        let p : Text × Text = name_and_type body (split_once b':' body) in
        let (out', w, more) =
          bind-eq-ok (with_param template body p out) (params_from n template rest') (rw e at h) in
        params_from-AreParams n rest' out' (with_param-AreParams body p out known w) more
  ]

-- The parameters that a template declares have names that TypeScript can read, no two the same, and
-- each one of the four types that a segment of a path can have.
pub declared_params-AreParams :
    (template : Text) {params : List (Text × Text)}
    → declared_params template ≡ ok params
    → AreParams params
unfolding declared_params
declared_params-AreParams template h =
    params_from-AreParams template (suc (length template)) template []
      (record { each = tt; distinct = tt }) h
