-- ===== src/Config/Class/Gate.antt =====
-- What a production deployment is checked for.
use common_rust.Prelude.{
  false, Option, none, some, List, [], ◌∷◌, ◌≡◌, refl, ◌≢◌, ◌↔◌, inl, inr, arith, All, All-of_Elem,
  Elem, find, ◌==◌, eq_refl, Bool-cases,
}
use common_rust.Prelude.Result.{ok}
use mathlib.Core.List.{Memᴰ}
use common_rust.Config.Path.{path_eq}
use common_rust.Config.Schema.{Field, Kind, Class, neutral, prod_required, dev_only, Entry}
use common_rust.Config.Values
use common_rust.Config.Values.{Values, Fault, parse_bool}
use common_rust.Config.Class.{prod, enabled, enabled_as, check_class, check_all, enforce}

-- An option that may not be on: a flag is off when it is unset or reads as false, a text when it
-- is unset.
abbrev pub IsOff : Kind → Option Entry → Type 0
IsOff Kind.text e = e ≡ none
IsOff Kind.bool none = Unit
IsOff Kind.bool (some e) = parse_bool e.text ≡ some false

abbrev pub IsPermitted : Class → Kind → Option Entry → Type 0
IsPermitted neutral k e = Unit
IsPermitted prod_required k e = e ≢ none
IsPermitted dev_only k e = IsOff k e

pub find_of_Elem :
    (f : Field) (fs : List Field)
    → Elem f fs
    → (g : Field) × (find (λ (h : Field). h.path == f.path) fs ≡ some g)
unfolding find
find_of_Elem f [] m = elim m [ ]
find_of_Elem f (g ∷ fs) (Memᴰ.head e) = (g, rw (← e) (rw (eq_refl f.path)))
find_of_Elem f (g ∷ fs) (Memᴰ.tail m) =
    let (h, found) = find_of_Elem f fs m in
    elim (Bool-cases (g.path == f.path)) [
      | inl same ↦ (g, rw same)
      | inr other ↦ (h, rw other found)
    ]

module _ (v : Values) where
  -- The state of a field is handed over, so that its cases are clauses.
  enabled_bool-IsOff :
      (f : Field) (e : Option Entry)
      → Elem f v.fields
      → v.entries f.path ≡ e
      → (enabled_as Kind.bool v f ≡ ok false) ↔ IsOff Kind.bool e
  unfolding enabled_as Values.bool_opt
  enabled_bool-IsOff f none m h =
      let (g, found) = find_of_Elem f v.fields m in ground (arith, found, h)
  enabled_bool-IsOff f (some e) m h =
      let (g, found) = find_of_Elem f v.fields m in ground (arith, found, h)

  enabled-IsOff :
      (k : Kind) (f : Field)
      → Elem f v.fields
      → (enabled_as k v f ≡ ok false) ↔ IsOff k (v.entries f.path)
  unfolding enabled_as
  enabled-IsOff Kind.bool f m = enabled_bool-IsOff f (v.entries f.path) m refl
  enabled-IsOff Kind.text f m = ground arith

  enabled_f-IsOff :
      (f : Field) → Elem f v.fields → (enabled v f ≡ ok false) ↔ IsOff f.kind (v.entries f.path)
  unfolding enabled
  enabled_f-IsOff f m = enabled-IsOff f.kind f m

  check_class-IsPermitted :
      (c : Class) (f : Field)
      → Elem f v.fields
      → (check_class c v f ≡ ok tt) ↔ IsPermitted c f.kind (v.entries f.path)
  unfolding check_class
  check_class-IsPermitted neutral f m = ground arith
  check_class-IsPermitted prod_required f m = ground arith
  check_class-IsPermitted dev_only f m = ground (arith, enabled_f-IsOff f m)

  check_all-IsPermitted :
      (fs : List Field)
      → All (λ (f : Field). Elem f v.fields) fs
      → (check_all v fs ≡ ok tt)
        ↔ All (λ (f : Field). IsPermitted f.class f.kind (v.entries f.path)) fs
  unfolding check_all
  check_all-IsPermitted [] _ = ground arith
  check_all-IsPermitted (f ∷ fs) (m, ms) =
      ground (arith, check_class-IsPermitted f.class f m, check_all-IsPermitted fs ms)

-- `enforce` passes a production table exactly when every option that production requires is set
-- and every option for development alone is off.
pub enforce_iff :
    (v : Values)
    → (enforce v prod ≡ ok tt)
      ↔ All (λ (f : Field). IsPermitted f.class f.kind (v.entries f.path)) v.fields
unfolding enforce
enforce_iff v = check_all-IsPermitted v v.fields (All-of_Elem _ v.fields (λ f m. m))
