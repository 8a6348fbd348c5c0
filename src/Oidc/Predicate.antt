-- ===== src/Oidc/Predicate.antt =====
-- crates/oidc/src/predicate.rs: the access-control algebra. A Rust type that implements
-- `Predicate<S>` is a rule; `other` is one that a service writes itself.
pub mod Meaning
use common_rust.Prelude.{Bool, true, false, Option, none, some, ◌++◌, if◌then◌else◌}
use common_rust.Prelude.Result.{Result, ok, err, ◌>>=◌, ◌>>◌}
use common_rust.Prelude.Text.{Text, codes}
use common_rust.Oidc.Principal.{Principal, in_group}

pub record Denial : Type 0 where
  pub gate : Text

abbrev pub Verdict : Type 0
Verdict = Result Denial (Unit {0})

-- `Denial::group`
abbrev pub denial_group : Option Text → Denial
denial_group none = record { gate = codes "-" }
denial_group (some g) = record { gate = g ++ codes " (effective membership)" }

pub data Rule (S : Type 0) : Type 0 where
  has_group : (S → Option Text) → Rule S
  or_rule : Rule S → Rule S → Rule S
  and_rule : Rule S → Rule S → Rule S
  not_rule : Rule S → Rule S
  other : (Principal → S → Verdict) → Rule S

unfoldable pub check_group : Principal → Option Text → Verdict
unfolding in_group
check_group p none = err (denial_group none)
check_group p (some g) = if in_group p g then ok tt else err (denial_group (some g))

-- `Or::check` on the two verdicts, of which the second is read if the first is a denial
abbrev pub or_verdict : Verdict → Verdict → Verdict
or_verdict (ok u) b = ok tt
or_verdict (err a) (ok u) = ok tt
or_verdict (err a) (err b) = err (record { gate = a.gate ++ (codes " or " ++ b.gate) })

abbrev pub not_verdict : Verdict → Verdict
not_verdict (ok u) = err (record { gate = codes "must not satisfy the excluded rule" })
not_verdict (err _) = ok tt

unfoldable pub check : {S : Type 0} → Rule S → Principal → S → Verdict
unfolding check_group
check (has_group group) p s = check_group p (group s)
check (or_rule a b) p s = or_verdict (check a p s) (check b p s)
check (and_rule a b) p s = check a p s >> check b p s
check (not_rule a) p s = not_verdict (check a p s)
check (other f) p s = f p s
