-- ===== src/Routing/Render/Joined.antt =====
-- What each of the loops of the join has checked when it succeeds.
use common_rust.Prelude.{
  suc, Bool, true, not, ◌&&◌, Option, none, some, List, [], ◌∷◌, ◌==◌, nat_eq, list_eq, any, length,
  ◌≡◌, ◌≢◌, ◌⊎◌, refl, sym, subst, ap, arith, Bool-cases, inl, inr, eq_iff, All, Elem,
}
use mathlib.Core.List.{Memᴰ}
use common_rust.Prelude.Result.{Result, ok, bind-eq-ok}
use common_rust.Prelude.Dict
use common_rust.Prelude.Dict.{Dict, empty}
use common_rust.Prelude.Text.{Text, is_some}
use common_rust.Prelude.Sort.Keyed.{Distinct}
use common_rust.Routing.Manifest.{Registration}
use common_rust.Routing.Export.{Handler}
use common_rust.Routing.Generate.{Error, Fn, Unicode, plan}
use common_rust.Routing.Render.{
  mounts, is_described, check_described, planned, plans, ts_name, clash, check_names,
}

-- Keys that a map has not after an insertion.
inserted_free :
    {A V : Type 0} (key : A → Text) (k : Text) (v : V) (m : Dict Text V) (xs : List A)
    → All (λ x. Dict.insert k v m (key x) ≡ none) xs
    → All (λ x. k ≢ key x) xs × All (λ x. m (key x) ≡ none) xs
inserted_free key k v m [] h = (tt, tt)
inserted_free key k v m (x ∷ xs) (p, h) =
    let (q, r) = inserted_free key k v m xs h in
    (((λ e. cc (p, (eq_iff k (key x)).1 e)), q), (ground (arith, p, eq_iff k (key x)), r))

abbrev pub fqname_of : Registration → Text
fqname_of r = r.fqname

-- What `mounts` gives.
pub record Mounted (routes : List Registration) (m d : Dict Text Registration) : Type 0 where
  pub distinct : Distinct fqname_of routes
  pub free : All (λ r. m r.fqname ≡ none) routes
  pub found :
      (k : Text) (r : Registration)
      → d k ≡ some r
      → (m k ≡ some r) ⊎ (Elem r routes × (r.fqname ≡ k))

inserted_found :
    (r s : Registration) (k : Text) (routes : List Registration) (m : Dict Text Registration)
    → (Dict.insert r.fqname r m k ≡ some s) ⊎ (Elem s routes × (s.fqname ≡ k))
    → (m k ≡ some s) ⊎ (Elem s (r ∷ routes) × (s.fqname ≡ k))
inserted_found r s k routes m (inr (e, named)) = inr (Memᴰ.tail e, named)
inserted_found r s k routes m (inl h) = elim (Bool-cases (r.fqname == k)) [
  | inl same ↦
      let is : r ≡ s = ground (arith, h, same) in
      inr (Memᴰ.head (sym is), rw (← is) ((eq_iff r.fqname k).0 same))
  | inr differs ↦ inl (ground (arith, h, differs))
]

pub mounts-Mounted :
    (routes : List Registration) (m d : Dict Text Registration)
    → mounts routes m ≡ ok d
    → Mounted routes m d
unfolding mounts
mounts-Mounted [] m d e = record {
  distinct = tt;
  free = tt;
  found = λ k r h. inl (let same : m ≡ d = cc in rw same h);
}
mounts-Mounted (r ∷ routes) m d e = elim (Bool-cases (is_some (m r.fqname))) [
  | inl is ↦ absurd (ground (arith, e, is))
  | inr is_not ↦
      let rest = mounts-Mounted routes (Dict.insert r.fqname r m) d (ground (arith, e, is_not)) in
      let (others, free) = inserted_free fqname_of r.fqname r m routes rest.free in
      record {
        distinct = (others, rest.distinct);
        free = (ground (arith, is_not), free);
        found = λ k s h. inserted_found r s k routes m (rest.found k s h);
      }
]

-- Every handler has its function, planned for the route of its name.
abbrev pub HasPlan : Unicode → Dict Text Registration → List Fn → Handler → Type 0
HasPlan u d fns h =
    (r : Registration) × (f : Fn) × (d h.fqname ≡ some r) × (plan r h u ≡ ok f) × Elem f fns

HasPlan-tail :
    (u : Unicode) (d : Dict Text Registration) (f : Fn) (fns : List Fn) (hs : List Handler)
    → All (HasPlan u d fns) hs
    → All (HasPlan u d (f ∷ fns)) hs
HasPlan-tail u d f fns [] k = tt
HasPlan-tail u d f fns (h ∷ hs) ((r, g, found, made, m), k) =
    ((r, g, found, made, Memᴰ.tail m), HasPlan-tail u d f fns hs k)

planned-eq-ok :
    (u : Unicode) (h : Handler) (o : Option Registration) (f : Fn)
    → planned u h o ≡ ok f
    → (r : Registration) × (o ≡ some r) × (plan r h u ≡ ok f)
planned-eq-ok u h none f e = absurd (cc)
planned-eq-ok u h (some r) f e = (r, refl, e)

pub plans-HasPlan :
    (u : Unicode) (d : Dict Text Registration) (hs : List Handler) (fns : List Fn)
    → plans u d hs ≡ ok fns
    → All (HasPlan u d fns) hs × (length fns ≡ length hs)
unfolding plans
plans-HasPlan u d [] fns e = let is : [] ≡ fns = cc in (tt, rw (← is) refl)
plans-HasPlan u d (h ∷ hs) fns e =
    let (f, one, more) = bind-eq-ok (planned u h (d h.fqname)) _ e in
    let (rest, made, done) = bind-eq-ok (plans u d hs) _ more in
    let is : f ∷ rest ≡ fns = cc in
    let (r, found, plans_to) = planned-eq-ok u h (d h.fqname) f one in
    let (k, same) = plans-HasPlan u d hs rest made in
    subst (λ (fs : List Fn). All (HasPlan u d fs) (h ∷ hs) × (length fs ≡ length (h ∷ hs))) is
      (
        ((r, f, found, plans_to, Memᴰ.head refl), HasPlan-tail u d f rest hs k),
        ap (λ n. suc n) same,
      )

pub check_described_all :
    (include : Registration → Bool) (handlers : List Handler) (routes : List Registration)
    → check_described include handlers routes ≡ ok tt
    → (r : Registration) → Elem r routes
    → include r ≡ true
    → is_described handlers r.fqname ≡ true
unfolding check_described
check_described_all include handlers (q ∷ routes) e r m i =
    elim (Bool-cases (include q && not (is_described handlers q.fqname))) [
      | inl is ↦ absurd (ground (arith, e, is))
      | inr is_not ↦ elim m [
        | Memᴰ.head same ↦
            let here : (include q ≡ true) → is_described handlers q.fqname ≡ true =
              λ j. ground (arith, is_not, j) in
            rw same (here (rw (← same) i))
        | Memᴰ.tail n ↦
            check_described_all include handlers routes (ground (arith, e, is_not)) r n i
      ]
    ]
check_described_all include handlers [] e r m i = elim m [ ]

pub described_by :
    (handlers : List Handler) (fqname : Text)
    → is_described handlers fqname ≡ true
    → (h : Handler) × Elem h handlers × (h.fqname ≡ fqname)
unfolding any
described_by (h ∷ handlers) fqname e = elim (Bool-cases (h.fqname == fqname)) [
  | inl same ↦ (h, Memᴰ.head refl, (eq_iff h.fqname fqname).0 same)
  | inr differs ↦
      let (k, m, named) = described_by handlers fqname (ground (arith, e, differs)) in
      (k, Memᴰ.tail m, named)
]
described_by [] fqname e = absurd (cc)

clash-eq-ok :
    (f : Fn) (prev : Option Text) (rest : Result Error (Unit {0}))
    → clash f prev rest ≡ ok tt
    → (prev ≡ none) × (rest ≡ ok tt)
clash-eq-ok f none rest e = (refl, e)
clash-eq-ok f (some prev) rest e = absurd (cc)

pub check_names-Distinct :
    (fns : List Fn) (seen : Dict Text Text)
    → check_names fns seen ≡ ok tt
    → Distinct ts_name fns × All (λ f. seen (ts_name f) ≡ none) fns
unfolding check_names
check_names-Distinct [] seen e = (tt, tt)
check_names-Distinct (f ∷ fns) seen e =
    let (fresh, rest) = clash-eq-ok f (seen (ts_name f)) _ e in
    let (distinct, free) = check_names-Distinct fns _ rest in
    let (others, old) = inserted_free ts_name (ts_name f) f.fqname seen fns free in
    ((others, distinct), (fresh, old))
