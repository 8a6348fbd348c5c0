-- ===== src/Oidc/Predicate/Meaning.antt =====
-- What a rule says of a principal.
use mathlib.Core.List.{Memᴰ}
use common_rust.Prelude.{
  true, Option, none, some, List, [], ◌∷◌, ◌++◌, ◌==◌, list_eq, nat_eq, any, ◌≡◌, refl, ◌↔◌, ◌⊎◌,
  inl, inr, arith, eq_iff, Elem, sym, Bool-cases,
}
use common_rust.Prelude.Result.{ok, err, ◌>>◌}
use common_rust.Prelude.Text.{Text, codes}
use common_rust.Oidc.Principal.{Principal, in_group}
use common_rust.Oidc.Predicate.{
  Denial, Verdict, Rule, has_group, or_rule, and_rule, not_rule, other, check_group, or_verdict,
  not_verdict, check,
}

any-Elem :
    (group : Text) (groups : List Text) → any (λ g. g == group) groups ≡ true → Elem group groups
unfolding any
any-Elem group [] h = absurd (ground arith)
any-Elem group (g ∷ groups) h = elim (Bool-cases (g == group)) [
  | inl same ↦ Memᴰ.head (sym ((eq_iff g group).0 same))
  | inr different ↦ Memᴰ.tail (any-Elem group groups (ground (arith, different)))
]

any_of_Elem :
    (group : Text) (groups : List Text) → Elem group groups → any (λ g. g == group) groups ≡ true
unfolding any
any_of_Elem group [] m = elim m [ ]
any_of_Elem group (g ∷ groups) (Memᴰ.head e) = ground (arith, eq_iff g group)
any_of_Elem group (g ∷ groups) (Memᴰ.tail m) = ground (arith, any_of_Elem group groups m)

-- A rule as a statement: membership, "or", "and", "not"; an unconfigured group is never had.
abbrev pub Satisfies : {S : Type 0} → Rule S → Principal → S → Type 0
Satisfies (has_group group) p s = (g : Text) × (group s ≡ some g) × Elem g p.effective_groups
Satisfies (or_rule a b) p s = Satisfies a p s ⊎ Satisfies b p s
Satisfies (and_rule a b) p s = Satisfies a p s × Satisfies b p s
Satisfies (not_rule a) p s = Satisfies a p s → ⊥
Satisfies (other f) p s = f p s ≡ ok tt

check_group_iff :
    (p : Principal) (o : Option Text)
    → (check_group p o ≡ ok tt) ↔ ((g : Text) × (o ≡ some g) × Elem g p.effective_groups)
unfolding check_group in_group
check_group_iff p none = (λ e. absurd (cc e), λ x. absurd (cc (x.1)))
check_group_iff p (some g) = (
  λ e. (g, refl, any-Elem g p.effective_groups (ground (arith, e))),
  λ x. let (h, same, m) = x in ground (arith, same, any_of_Elem h p.effective_groups m),
)

or_verdict_iff : (a b : Verdict) → (or_verdict a b ≡ ok tt) ↔ ((a ≡ ok tt) ⊎ (b ≡ ok tt))
or_verdict_iff (ok u) b = (λ _. inl refl, λ _. refl)
or_verdict_iff (err a) (ok u) = (λ _. inr refl, λ _. refl)
or_verdict_iff (err a) (err b) = ground arith

and_verdict_iff : (a b : Verdict) → ((a >> b) ≡ ok tt) ↔ ((a ≡ ok tt) × (b ≡ ok tt))
and_verdict_iff (ok u) b = (λ e. (refl, e), λ h. h.1)
and_verdict_iff (err a) b = ground arith

not_verdict_iff : (a : Verdict) → (not_verdict a ≡ ok tt) ↔ (a ≡ ok tt → ⊥)
not_verdict_iff (ok u) = (λ e. absurd (cc e), λ h. absurd (h refl))
not_verdict_iff (err a) = (λ _ e. cc e, λ _. refl)

-- A rule passes a principal exactly when the principal satisfies it as a statement.
pub check_iff :
    {S : Type 0} (r : Rule S) (p : Principal) (s : S) → (check r p s ≡ ok tt) ↔ Satisfies r p s
unfolding check
check_iff (has_group group) p s = check_group_iff p (group s)
check_iff (or_rule a b) p s =
    let whole = or_verdict_iff (check a p s) (check b p s) in
    let left = check_iff a p s in
    let right = check_iff b p s in
    (
      λ e. elim (whole.0 e) [ inl x ↦ inl (left.0 x) | inr y ↦ inr (right.0 y) ],
      λ h. whole.1 (elim h [ inl x ↦ inl (left.1 x) | inr y ↦ inr (right.1 y) ]),
    )
check_iff (and_rule a b) p s =
    let whole = and_verdict_iff (check a p s) (check b p s) in
    let left = check_iff a p s in
    let right = check_iff b p s in
    (λ e. (left.0 (whole.0 e).0, right.0 (whole.0 e).1), λ h. whole.1 (left.1 h.0, right.1 h.1))
check_iff (not_rule a) p s =
    let whole = not_verdict_iff (check a p s) in
    let inner = check_iff a p s in (λ e x. whole.0 e (inner.1 x), λ h. whole.1 (λ x. h (inner.0 x)))
check_iff (other f) p s = (λ e. e, λ e. e)

-- A denied alternative names both gates, in their order.
pub or_denial_names_both :
    {S : Type 0} (a b : Rule S) (p : Principal) (s : S) (d : Denial)
    → check (or_rule a b) p s ≡ err d
    → (x : Denial) × (y : Denial) × (check a p s ≡ err x)
      × (check b p s ≡ err y)
      × (d.gate ≡ x.gate ++ (codes " or " ++ y.gate))
unfolding check
or_denial_names_both a b p s d h = both (check a p s) (check b p s) refl refl h
  where
    both :
        (m n : Verdict)
        → check a p s ≡ m
        → check b p s ≡ n
        → or_verdict m n ≡ err d
        → (x : Denial) × (y : Denial) × (check a p s ≡ err x)
          × (check b p s ≡ err y)
          × (d.gate ≡ x.gate ++ (codes " or " ++ y.gate))
    both (ok u) n e f k = cc
    both (err x) (ok u) e f k = cc
    both (err x) (err y) e f k = (x, y, e, f, ground arith)
