-- ===== src/Oidc/Web/SafeNext.antt =====
-- Where a login may send the browser.
use common_rust.Prelude.{
  Bool, true, false, Option, none, some, [], ◌∷◌, ◌≡◌, ◌≢◌, refl, arith, nat_eq, if◌then◌else◌,
}
use common_rust.Prelude.Text.{Text, codes, starts_with, strip_prefix}
use common_rust.Oidc.Idp.{OidcConfig, Idp, Resolved}
use common_rust.Oidc.Web.{assembled, rooted, resolved_target, or_root, resolve_target, safe_next}

-- A path on this site: it begins with one slash, and no second one follows.
abbrev pub IsLocal : Text → Type 0
IsLocal [] = ⊥
IsLocal (c ∷ []) = c ≡ b'/'
IsLocal (c ∷ (d ∷ s)) = (c ≡ b'/') × (d ≢ b'/')

rooted-IsLocal : (out : Text) → IsLocal (or_root (rooted out))
unfolding rooted starts_with strip_prefix
rooted-IsLocal [] = ground arith
rooted-IsLocal (c ∷ []) = ground arith
rooted-IsLocal (c ∷ (d ∷ s)) = ground arith

if-IsLocal :
    (b : Bool) (o : Option Text) → IsLocal (or_root o) → IsLocal (or_root (if b then o else none))
if-IsLocal true o h = h
if-IsLocal false o h = refl

module _ {W : Type 0} (idp : Idp W) (config : OidcConfig) where
  resolved-IsLocal : (u : Option Resolved) → IsLocal (or_root (resolved_target u))
  unfolding resolved_target
  resolved-IsLocal none = refl
  resolved-IsLocal (some u) = if-IsLocal u.same_origin _ (rooted-IsLocal (assembled u))

  -- Whatever target a login is given, and whatever the URL library makes of it, the browser is
  -- sent to a path on this site.
  pub safe_next-IsLocal : (raw : Option Text) → IsLocal (safe_next idp config raw)
  unfolding safe_next resolve_target
  safe_next-IsLocal none = refl
  safe_next-IsLocal (some raw) =
      if-IsLocal (starts_with (codes "/") raw) _ (resolved-IsLocal (idp.join raw))
