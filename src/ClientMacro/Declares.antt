-- ===== src/ClientMacro/Declares.antt =====
-- crates/routing-macros/src/parse.rs: which parameters a template declares, read off its braces.
use common_rust.Prelude.{
  ℕ, suc, zero, List, [], ◌∷◌, ◌++◌, ◌==◌, list_eq, nat_eq, length, ◌≡◌, ◌≢◌, ◌⊎◌, inl, inr,
  Bool-cases, Option, none, some, eq_iff, sym, subst, refl, ap, ◌∙◌,
}
use mathlib.Core.Option
use mathlib.Core.List.{append_assoc, append-nil}
use common_rust.Prelude.Result.{ok, bind-eq-ok}
use common_rust.Prelude.Text.{Text, codes, trim, split_once}
use common_rust.Prelude.Text.Laws.{Lacks}
use common_rust.ClientMacro.Termination.{Next-cases}
use common_rust.ClientMacro.Template.{
  Next, done, unclosed_brace, param, closed_at, opened_at, next, with_param, name_and_type,
  is_usable, is_declarable, is_declared, params_from, declared_params,
}

-- What stands between two braces: a name, or a name, a colon and a type; white space around each is
-- left out, and without a colon the type is `string`.
abbrev pub Says : Text → Text × Text → Type 0
Says body (name, ts) =
    (Lacks b':' body × (name ≡ trim body) × (ts ≡ codes "string"))
    ⊎ ((n : Text) × (t : Text) × (body ≡ n ++ b':' ∷ t)
        × Lacks b':' n
        × (name ≡ trim n)
        × (ts ≡ trim t))

-- The text declares these parameters in their order: each at the next opening brace, up to the first
-- closing one.
abbrev pub Declares : Text → List (Text × Text) → Type 0
Declares rest [] = Lacks b'{' rest
Declares rest (p ∷ ps) =
    (before : Text) × (body : Text) × (after : Text) × (rest
      ≡ before ++ b'{' ∷ (body ++ b'}' ∷ after))
    × Lacks b'{' before
    × Lacks b'}' body
    × Says body p
    × Declares after ps

-- A text split at a character that it lacks, or at the first one.
abbrev Halves : ℕ → Text → Option (Text × Text) → Type 0
Halves c s none = Lacks c s
Halves c s (some (a, b)) = (s ≡ a ++ c ∷ b) × Lacks c a

later-Halves :
    (c d : ℕ) (s : Text) (o : Option (Text × Text))
    → d ≢ c
    → Halves c s o
    → Halves c (d ∷ s) (Option.map (λ (r : Text × Text). (d ∷ r.0, r.1)) o)
later-Halves c d s none n h = (n, h)
later-Halves c d s (some (a, b)) n (e, h) = (ap (λ t. d ∷ t) e, (n, h))

split_once-Halves : (c : ℕ) (s : Text) → Halves c s (split_once c s)
unfolding split_once
split_once-Halves c [] = tt
split_once-Halves c (d ∷ s) = elim (Bool-cases (d == c)) [
  | inl e ↦ rw e (ap (λ d. d ∷ s) ((eq_iff d c).0 e), tt)
  | inr e ↦ rw e (
      later-Halves c d s (split_once c s) (λ same. cc ((eq_iff d c).1 same, e))
        (split_once-Halves c s))
]

name_and_type-Says :
    (body : Text) (o : Option (Text × Text)) → Halves b':' body o → Says body (name_and_type body o)
name_and_type-Says body none h = inl (h, refl, refl)
name_and_type-Says body (some (n, t)) (e, h) = inr (n, t, e, h, refl, refl)

-- Where the next parameter stands.
abbrev Follows : Text → Next → Type 0
Follows rest done = Lacks b'{' rest
Follows rest unclosed_brace = Unit
Follows rest (param body after) =
    (before : Text) × (rest ≡ before ++ b'{' ∷ (body ++ b'}' ∷ after))
    × Lacks b'{' before
    × Lacks b'}' body

closed-Follows :
    (rest before opened : Text) (o : Option (Text × Text))
    → rest ≡ before ++ b'{' ∷ opened
    → Lacks b'{' before
    → Halves b'}' opened o
    → Follows rest (closed_at o)
closed-Follows rest before opened none e h k = tt
closed-Follows rest before opened (some (body, after)) e h (f, k) =
    (before, e ∙ ap (λ t. before ++ b'{' ∷ t) f, h, k)

opened-Follows :
    (rest : Text) (o : Option (Text × Text)) → Halves b'{' rest o → Follows rest (opened_at o)
opened-Follows rest none h = h
opened-Follows rest (some (before, opened)) (e, h) =
    closed-Follows rest before opened (split_once b'}' opened) e h (split_once-Halves b'}' opened)

next-Follows : (rest : Text) → Follows rest (next rest)
unfolding next
next-Follows rest = opened-Follows rest (split_once b'{' rest) (split_once-Halves b'{' rest)

module _ (template : Text) where
  with_param-adds :
      (body : Text) (p : Text × Text) (out : List (Text × Text)) {out' : List (Text × Text)}
      → with_param template body p out ≡ ok out'
      → out' ≡ out ++ p ∷ []
  with_param-adds body (name, ts) out {out'} h = elim (Bool-cases (is_usable name)) [
    | inr u ↦ absurd (cc (rw u at h))
    | inl u ↦ elim (Bool-cases (is_declarable ts)) [
      | inr d ↦ absurd (cc (rw (u, d) at h))
      | inl d ↦ elim (Bool-cases (is_declared name out)) [
        | inl e ↦ absurd (cc (rw (u, d, e) at h))
        | inr e ↦ cc (rw (u, d, e) at h)
      ]
    ]
  ]

  params_from-Declares :
      (n : ℕ) (rest : Text) (out : List (Text × Text)) {params : List (Text × Text)}
      → params_from n template rest out ≡ ok params
      → (ps : List (Text × Text)) × (params ≡ out ++ ps) × Declares rest ps
  unfolding params_from
  params_from-Declares zero rest out h = cc
  params_from-Declares (suc n) rest out {params} h = elim (Next-cases (next rest)) [
    | inl e ↦
        let same : out ≡ params = cc (rw e at h) in
        ([], sym same ∙ sym (append-nil out), subst (Follows rest) e (next-Follows rest))
    | inr (inl e) ↦ absurd (cc (rw e at h))
    | inr (inr (body, rest', e)) ↦
        let p : Text × Text = name_and_type body (split_once b':' body) in
        let (out', w, more) =
          bind-eq-ok (with_param template body p out) (params_from n template rest') (rw e at h) in
        let (ps, made, declares) = params_from-Declares n rest' out' more in
        let (before, parts, no_brace, closed) = subst (Follows rest) e (next-Follows rest) in
        (
          p ∷ ps,
          made ∙ ap (λ l. l ++ ps) (with_param-adds body p out w) ∙ append_assoc out (p ∷ []) ps,
          (
            before,
            body,
            rest',
            parts,
            no_brace,
            closed,
            name_and_type-Says body (split_once b':' body) (split_once-Halves b':' body),
            declares,
          ),
        )
  ]

pub declared_params-Declares :
    (template : Text) {params : List (Text × Text)}
    → declared_params template ≡ ok params
    → Declares template params
unfolding declared_params
declared_params-Declares template {params} h =
    let (ps, made, declares) =
      params_from-Declares template (suc (length template)) template [] h in
    subst (Declares template) (sym made) declares
