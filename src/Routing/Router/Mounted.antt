-- ===== src/Routing/Router/Mounted.antt =====
-- What the table of routes of a router that is nested under a prefix becomes.
use common_rust.Prelude.{
  ℕ, List, [], ◌∷◌, ◌++◌, ◌==◌, nat_eq, list_eq, map, ◌≡◌, ◌≢◌, ◌⊎◌, refl, sym, subst, ap, ◌∙◌,
  Bool-cases, inl, inr, eq_iff, All, All-append,
}
use mathlib.Core.List.{reverse, reverse-append, reverse-reverse}
use common_rust.Prelude.Text.{Text, codes, trim_start_matches, trim_end_matches}
use common_rust.Routing.Manifest.{Registration, parse_path_params}
use common_rust.Routing.Router.{is_slash, base_of, nested_path, nested}

-- A prefix without the slashes at its end.
pub record IsBase (p base : Text) : Type 0 where
  pub slashes : Text
  pub parts : p ≡ base ++ slashes
  pub are_slashes : All (λ c. c ≡ b'/') slashes
  pub ends : (rest : Text) → base ≢ rest ++ codes "/"

-- A route under a base: the route `/` is at the base itself, another one after it.
abbrev pub IsUnder : Text → Text → Text → Type 0
IsUnder base inner path =
    ((inner ≡ codes "/") × (path ≡ base)) ⊎ ((inner ≢ codes "/") × (path ≡ base ++ inner))

-- The route of a nested router as the outer one records it.
pub record Mounted (p : Text) (inner outer : Registration) : Type 0 where
  pub fqname : outer.fqname ≡ inner.fqname
  pub method : outer.method ≡ inner.method
  pub path : (base : Text) × IsBase p base × IsUnder base inner.path outer.path
  pub path_params : outer.path_params ≡ parse_path_params outer.path

-- The routes of a nested router, in their order.
abbrev pub AllMounted : Text → List Registration → List Registration → Type 0
AllMounted p [] [] = Unit
AllMounted p [] (reg ∷ regs) = ⊥
AllMounted p (reg ∷ regs) [] = ⊥
AllMounted p (inner ∷ regs) (outer ∷ regs') = Mounted p inner outer × AllMounted p regs regs'

-- What is taken off a text that leads with slashes.
abbrev Led : Text → Text → Type 0
Led s rest =
    (lead : Text) × (s ≡ lead ++ rest) × All (λ c. c ≡ b'/') lead × ((t : Text) → rest ≢ b'/' ∷ t)

trim_start-Led : (s : Text) → Led s (trim_start_matches is_slash s)
unfolding trim_start_matches
trim_start-Led [] = ([], refl, tt, λ t e. cc)
trim_start-Led (c ∷ s) = elim (Bool-cases (is_slash c)) [
  | inl is ↦
      let (lead, parts, slashes, ends) = trim_start-Led s in
      rw is (c ∷ lead, ap (λ t. c ∷ t) parts, ((eq_iff c b'/').0 is, slashes), ends)
  | inr is_not ↦
      rw is_not
        ([], refl, tt, λ t e. (let same : c ≡ b'/' = cc e in cc ((eq_iff c b'/').1 same, is_not)))
]

reverse-All : (P : ℕ → Type 0) (s : Text) → All P s → All P (reverse s)
reverse-All P [] h = tt
reverse-All P (c ∷ s) (p, h) =
    subst (All P) (sym (reverse-append (c ∷ []) s))
      (All-append P (reverse s) (c ∷ []) (reverse-All P s h) (p, tt))

base_of-IsBase : (p : Text) → IsBase p (base_of p)
unfolding trim_end_matches
base_of-IsBase p =
    let t = trim_start_matches is_slash (reverse p) in
    let (lead, parts, slashes, ends) = trim_start-Led (reverse p) in
    record {
      slashes = reverse lead;
      parts = sym (reverse-reverse p) ∙ ap reverse parts ∙ reverse-append lead t;
      are_slashes = reverse-All (λ c. c ≡ b'/') lead slashes;
      ends = λ rest e.
          ends (reverse rest)
            (sym (reverse-reverse t) ∙ ap reverse e ∙ reverse-append rest (codes "/"));
    }

nested_path-IsUnder : (base inner : Text) → IsUnder base inner (nested_path base inner)
nested_path-IsUnder base inner = elim (Bool-cases (inner == codes "/")) [
  | inl is ↦ inl ((eq_iff inner (codes "/")).0 is, rw is refl)
  | inr is_not ↦ inr (λ e. cc ((eq_iff inner (codes "/")).1 e, is_not), rw is_not refl)
]

pub nested-AllMounted :
    (p : Text) (regs : List Registration) → AllMounted p regs (map (nested (base_of p)) regs)
nested-AllMounted p [] = tt
nested-AllMounted p (reg ∷ regs) = (
  record {
    fqname = refl;
    method = refl;
    path = (base_of p, base_of-IsBase p, nested_path-IsUnder (base_of p) reg.path);
    path_params = refl;
  },
  nested-AllMounted p regs,
)
