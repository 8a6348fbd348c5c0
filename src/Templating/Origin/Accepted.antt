-- ===== src/Templating/Origin/Accepted.antt =====
-- Which values are accepted as an origin.
use common_rust.Prelude.{
  ℕ, true, false, Option, none, some, [], ◌∷◌, ◌++◌, all, ◌==◌, nat_eq, list_eq, ◌≡◌, ◌≢◌, refl,
  arith, ◌↔◌, All, Bool-cases, inl, inr, eq_iff, ap,
}
use common_rust.Prelude.Result.{ok}
use common_rust.Prelude.Text.{Text, codes, strip_prefix, ends_with_char, contains_char}
use common_rust.Prelude.Text.Laws.{strip_prefix-eq-some}
use common_rust.Config.Class.{Deployment, prod, dev}
use common_rust.Templating.Origin.{
  AssetsOrigin, is_host_char, parse_host, parse_stripped, parse_unset, parse,
}

abbrev pub IsHost : Text → Type 0
IsHost host = (host ≢ []) × All (λ c. is_host_char c ≡ true) host

all-eq-true_iff : (s : Text) → (all is_host_char s ≡ true) ↔ All (λ c. is_host_char c ≡ true) s
unfolding all
all-eq-true_iff [] = ground arith
all-eq-true_iff (c ∷ s) = ground (arith, all-eq-true_iff s)

module _ (d : ℕ) (foreign : is_host_char d ≡ false) where
  contains_char_foreign :
      (s : Text) → All (λ c. is_host_char c ≡ true) s → contains_char d s ≡ false
  unfolding contains_char
  contains_char_foreign [] h = refl
  contains_char_foreign (c ∷ s) (p, h) = elim (Bool-cases (c == d)) [
    | inl same ↦ let e : c ≡ d = (eq_iff c d).0 same in absurd (cc (p, foreign, e))
    | inr different ↦ rw different (contains_char_foreign s h)
  ]

  ends_with_char_foreign :
      (s : Text) → All (λ c. is_host_char c ≡ true) s → ends_with_char d s ≡ false
  unfolding ends_with_char
  ends_with_char_foreign [] h = refl
  ends_with_char_foreign (c ∷ []) (p, h) = elim (Bool-cases (c == d)) [
    | inl same ↦ let e : c ≡ d = (eq_iff c d).0 same in absurd (cc (p, foreign, e))
    | inr different ↦ different
  ]
  ends_with_char_foreign (c ∷ (e ∷ s)) (p, h) = ends_with_char_foreign (e ∷ s) h

abbrev as_origin : Text → AssetsOrigin
as_origin text = record { as_str = text }

parse_host_to :
    (text host : Text) (o : AssetsOrigin)
    → parse_host text host ≡ ok (some o)
    → (o ≡ as_origin text) × IsHost host
unfolding parse_host
parse_host_to text [] o h = cc
parse_host_to text (c ∷ s) o h =
    (ground (arith, h), ((λ e. absurd (cc e)), (all-eq-true_iff (c ∷ s)).0 (ground (arith, h))))

parse_host_from :
    (text host : Text) → IsHost host → parse_host text host ≡ ok (some (as_origin text))
unfolding parse_host
parse_host_from text [] (h, a) = absurd (h refl)
parse_host_from text (c ∷ s) (h, a) = rw (
  ends_with_char_foreign b'/' refl (c ∷ s) a,
  contains_char_foreign b'/' refl (c ∷ s) a,
  contains_char_foreign b'@' refl (c ∷ s) a,
  contains_char_foreign b':' refl (c ∷ s) a,
  contains_char_foreign b'?' refl (c ∷ s) a,
  contains_char_foreign b'#' refl (c ∷ s) a,
  (all-eq-true_iff (c ∷ s)).1 a,
)

-- What is accepted: `https://`, and a host.
abbrev pub IsOrigin : Option Text → AssetsOrigin → Type 0
IsOrigin value o =
    (host : Text) × (value ≡ some (codes "https://" ++ host))
    × (o ≡ as_origin (codes "https://" ++ host))
    × IsHost host

text_to :
    (text : Text) (stripped : Option Text) (o : AssetsOrigin)
    → strip_prefix (codes "https://") text ≡ stripped
    → parse_stripped text stripped ≡ ok (some o)
    → IsOrigin (some text) o
text_to text none o s h = cc
text_to text (some host) o s h =
    let (same, is_host) = parse_host_to text host o h in
    let whole = strip_prefix-eq-some (codes "https://") text s in
    (host, ap some whole, rw (← whole) same, is_host)

parse_unset-ne-some : (d : Deployment) (o : AssetsOrigin) → parse_unset d ≢ ok (some o)
parse_unset-ne-some prod o h = cc
parse_unset-ne-some dev o h = cc

parse_to :
    (value : Option Text) (d : Deployment) (o : AssetsOrigin)
    → parse value d ≡ ok (some o)
    → IsOrigin value o
unfolding parse
parse_to none d o h = absurd (parse_unset-ne-some d o h)
parse_to (some []) d o h = absurd (parse_unset-ne-some d o h)
parse_to (some (c ∷ s)) d o h = text_to (c ∷ s) _ o refl h

parse_from :
    (d : Deployment) (host : Text)
    → IsHost host
    → parse (some (codes "https://" ++ host)) d ≡ ok (some (as_origin (codes "https://" ++ host)))
unfolding parse
parse_from d host h = parse_host_from _ host h

-- A value is accepted as an origin exactly when it is `https://` and a host of letters, digits,
-- dots and hyphens that is not empty, whatever the deployment; and the origin is the whole value.
pub parse-IsOrigin :
    (value : Option Text) (d : Deployment) (o : AssetsOrigin)
    → (parse value d ≡ ok (some o)) ↔ IsOrigin value o
parse-IsOrigin value d o = (
  parse_to value d o,
  λ h. let (host, v, same, is_host) = h in rw (v, same) (parse_from d host is_host),
)
