-- ===== src/Logging/Designator/RoundTrip.antt =====
-- Reading the text of a designator back.
use common_rust.Prelude.{
  true, ◌++◌, list_eq, nat_eq, list_beq, find, ◌≡◌, refl, arith, Option-cases, inl, inr,
}
use common_rust.Prelude.Text.{Text, starts_with, strip_prefix}
use common_rust.Prelude.Text.Laws.{strip_prefix-eq-some}
use common_rust.Logging.Designator.{
  custom_prefix, Designator, auth, business, upstream, storage, http, startup, custom, display,
  as_ref, from_str, is_well_formed,
}

prefixed_read : (name : Text) → from_str (custom_prefix ++ name) ≡ custom (custom_prefix ++ name)
unfolding from_str as_ref find list_beq
prefixed_read name = refl

custom_read :
    (column : Text) → starts_with custom_prefix column ≡ true → from_str column ≡ custom column
unfolding starts_with
custom_read column h = elim (Option-cases (strip_prefix custom_prefix column)) [
  | inl missing ↦ absurd (ground (arith, missing))
  | inr (name, found) ↦ rw (strip_prefix-eq-some custom_prefix column found) (prefixed_read name)
]

-- A designator that is well formed is what its text is read back as.
pub from_str-display : (d : Designator) → is_well_formed d ≡ true → from_str (display d) ≡ d
unfolding from_str as_ref display find list_beq is_well_formed
from_str-display auth h = refl
from_str-display business h = refl
from_str-display upstream h = refl
from_str-display storage h = refl
from_str-display http h = refl
from_str-display startup h = refl
from_str-display (custom column) h = custom_read column h
