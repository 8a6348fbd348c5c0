-- ===== src/ClientMacro/Termination.antt =====
-- crates/routing-macros/src/parse.rs: the loop over a template comes to an end.
use common_rust.Prelude.{
  ℕ, suc, zero, ◌<◌, some, List, [], ◌∷◌, ◌==◌, list_eq, nat_eq, length, ◌≡◌, ◌≢◌, refl, ◌⊎◌, inl,
  inr, arith, Bool-cases, Option-cases,
}
use common_rust.Prelude.Result.{err, Result-cases}
use common_rust.Prelude.Text.{Text, split_once}
use common_rust.Macros.{unfinished}
use common_rust.ClientMacro.Template.{
  Next, done, unclosed_brace, param, next, with_param, name_and_type, is_usable, is_declarable,
  is_declared, params_from, declared_params,
}

split_once-length : (c : ℕ) (s a b : Text) → split_once c s ≡ some (a, b) → length b < length s
unfolding split_once
split_once-length c [] a b h = cc
split_once-length c (d ∷ s) a b h = elim (Bool-cases (d == c)) [
  | inl e ↦ ground (arith, h, e)
  | inr e ↦ elim (Option-cases (split_once c s)) [
    | inl n ↦ absurd (cc (rw (e, n) at h))
    | inr ((a', b'), p) ↦
        let same : some (d ∷ a', b') ≡ some (a, b) = rw (e, p) at h in
        let le : length b' < length s = split_once-length c s a' b' p in ground (arith, same, le)
  ]
]

-- What is left is shorter by a brace at least.
next-length : (rest body rest' : Text) → next rest ≡ param body rest' → length rest' < length rest
unfolding next
next-length rest body rest' h = elim (Option-cases (split_once b'{' rest)) [
  | inl n ↦ absurd (cc (rw n at h))
  | inr ((before, after), p) ↦ elim (Option-cases (split_once b'}' after)) [
    | inl n ↦ absurd (cc (rw (p, n) at h))
    | inr ((b, r), q) ↦
        let same : param b r ≡ param body rest' = rw (p, q) at h in
        let outer = split_once-length b'{' rest before after p in
        let inner = split_once-length b'}' after b r q in ground (arith, same, outer, inner)
  ]
]

with_param-finished :
    (template body : Text) (p : Text × Text) (out : List (Text × Text))
    → with_param template body p out ≢ err unfinished
with_param-finished template body (name, ts) out h = elim (Bool-cases (is_usable name)) [
  | inr u ↦ cc (rw u at h)
  | inl u ↦ elim (Bool-cases (is_declarable ts)) [
    | inr d ↦ cc (rw (u, d) at h)
    | inl d ↦ elim (Bool-cases (is_declared name out)) [
      | inl e ↦ cc (rw (u, d, e) at h)
      | inr e ↦ cc (rw (u, d, e) at h)
    ]
  ]
]

pub Next-cases :
    (x : Next) → (x ≡ done) ⊎ ((x ≡ unclosed_brace) ⊎ ((b : Text) × (r : Text) × (x ≡ param b r)))
Next-cases done = inl refl
Next-cases unclosed_brace = inr (inl refl)
Next-cases (param b r) = inr (inr (b, r, refl))

module _ (template : Text) where
  -- Fuel beyond the length of the rest changes nothing, and is never used up.
  params_from-enough :
      (n m : ℕ) (rest : Text) (out : List (Text × Text))
      → length rest < n
      → length rest < m
      → (params_from n template rest out ≡ params_from m template rest out)
        × (params_from n template rest out ≢ err unfinished)
  unfolding params_from
  params_from-enough zero m rest out h k = absurd (omega (arith, h))
  params_from-enough (suc n) zero rest out h k = absurd (omega (arith, k))
  params_from-enough (suc n) (suc m) rest out h k = elim (Next-cases (next rest)) [
    | inl e ↦ rw e (refl, λ bad. cc)
    | inr (inl e) ↦ rw e (refl, λ bad. cc)
    | inr (inr (body, rest', e)) ↦
        let shorter = next-length rest body rest' e in
        elim (Result-cases
          (with_param template body (name_and_type body (split_once b':' body)) out)) [
            | inl (out', w) ↦
                rw (e, w)
                  (params_from-enough n m rest' out' (omega (arith, shorter, h))
                    (omega (arith, shorter, k)))
            | inr (x, w) ↦
                rw (e, w)
                  (
                    refl,
                    λ bad.
                        with_param-finished template body
                          (name_and_type body (split_once b':' body)) out (cc (w, bad)),
                  )
          ]
  ]

-- The loop over a template takes fewer rounds than the template has characters, and one: given as
-- much fuel or more, it returns what `declared_params` returns, and that is no lack of fuel.
pub params_from-declared_params :
    (template : Text) (n : ℕ)
    → length template < n
    → (params_from n template template [] ≡ declared_params template)
      × (declared_params template ≢ err unfinished)
unfolding declared_params
params_from-declared_params template n h =
    let (same, finished) =
      params_from-enough template n (suc (length template)) template [] h (omega arith) in
    (same, rw (← same) finished)
