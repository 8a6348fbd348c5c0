-- ===== src/Prelude/Text/Laws.antt =====
-- Laws of the functions on text.
use Prim.Native.Nat.{ℕ}
use mathlib.Core.Path.{◌≡◌, refl}
use mathlib.Core.Logic.{◌≢◌, ◌↔◌}
use mathlib.Core.Bool.{Bool, true, false}
use mathlib.Core.Option.{none, some}
use mathlib.Core.List.{[], ◌∷◌, ◌++◌}
use native.Mathlib.Omega.{arith}
use common_rust.Prelude.Equality.{nat_eq, eq_iff, eq_refl}
use common_rust.Prelude.Lists.{All}
use common_rust.Prelude.Text.{
  Text, strip_prefix, starts_with, split_once, contains_char, trim_start_matches,
}

-- `c` does not occur in the text.
abbrev pub Lacks : ℕ → Text → Type 0
Lacks c s = All (λ d. d ≢ c) s

pub Lacks-append : (c : ℕ) (s t : Text) → Lacks c s → Lacks c t → Lacks c (s ++ t)
Lacks-append c [] t _ k = k
Lacks-append c (d ∷ s) t (p, h) k = (p, Lacks-append c s t h k)

pub strip_prefix-append : (p s : Text) → strip_prefix p (p ++ s) ≡ some s
unfolding strip_prefix
strip_prefix-append [] s = refl
strip_prefix-append (c ∷ p) s = rw (eq_refl c) (strip_prefix-append p s)

pub strip_prefix-eq-some : (p s : Text) {t : Text} → strip_prefix p s ≡ some t → s ≡ p ++ t
unfolding strip_prefix
strip_prefix-eq-some [] s h = ground arith
strip_prefix-eq-some (c ∷ p) [] h = cc
strip_prefix-eq-some (c ∷ p) (d ∷ s) {t} h =
    ground (arith, eq_iff c d, strip_prefix-eq-some p s {t = t})

pub starts_with-append : (p s : Text) → starts_with p (p ++ s) ≡ true
unfolding starts_with
starts_with-append p s = rw strip_prefix-append refl

pub split_once-append : (c : ℕ) (s t : Text) → Lacks c s → split_once c (s ++ c ∷ t) ≡ some (s, t)
unfolding split_once
split_once-append c [] t _ = rw (eq_refl c)
split_once-append c (d ∷ s) t (p, h) = ground (arith, eq_iff d c, split_once-append c s t h)

pub split_once_of_Lacks : (c : ℕ) (s : Text) → Lacks c s → split_once c s ≡ none
unfolding split_once
split_once_of_Lacks c [] _ = refl
split_once_of_Lacks c (d ∷ s) (p, h) = ground (arith, eq_iff d c, split_once_of_Lacks c s h)

pub contains_char-eq-false_iff : (c : ℕ) (s : Text) → (contains_char c s ≡ false) ↔ Lacks c s
unfolding contains_char
contains_char-eq-false_iff c [] = ground arith
contains_char-eq-false_iff c (d ∷ s) = ground (arith, eq_iff d c, contains_char-eq-false_iff c s)

pub trim_start-append :
    (p : ℕ → Bool) (s t : Text)
    → trim_start_matches p t ≡ t
    → trim_start_matches p (s ++ t) ≡ trim_start_matches p s ++ t
unfolding trim_start_matches
trim_start-append p [] t h = h
trim_start-append p (c ∷ s) t h = ground (arith, trim_start-append p s t h)

pub trim_start_idem :
    (p : ℕ → Bool) (s : Text)
    → trim_start_matches p (trim_start_matches p s) ≡ trim_start_matches p s
unfolding trim_start_matches
trim_start_idem p [] = refl
trim_start_idem p (c ∷ s) = ground (arith, trim_start_idem p s)
