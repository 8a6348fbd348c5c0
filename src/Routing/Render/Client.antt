-- ===== src/Routing/Render/Client.antt =====
-- What a client that is rendered says of its routes and handlers.
use common_rust.Prelude.{
  ℕ, true, List, [], ◌∷◌, nat_eq, list_eq, length, ◌≡◌, sym, subst, ◌∙◌, inl, inr, All, Elem,
}
use common_rust.Prelude.Result.{ok, bind-eq-ok}
use common_rust.Prelude.Dict.{Dict, empty}
use common_rust.Prelude.Text.{Text}
use common_rust.Prelude.Sort.{sort_by}
use common_rust.Prelude.Sort.Keyed.{Distinct}
use common_rust.Prelude.Sort.Kept.{sort_by-Elem, length-sort_by}
use common_rust.Routing.Manifest.{Registration}
use common_rust.Routing.Export.{Handler}
use common_rust.Routing.Generate.{Fn, Unicode, Options, plan}
use common_rust.Routing.Render.{
  mounts, check_described, plans, fn_before, ts_name, check_names, client_text, joined, render,
}
use common_rust.Routing.Render.Joined.{
  fqname_of, Mounted, mounts-Mounted, HasPlan, plans-HasPlan, check_described_all, described_by,
  check_names-Distinct,
}

-- A handler is mounted: one route has its name, and its function is the plan of the two.
abbrev pub IsMounted : Unicode → List Registration → List Fn → Handler → Type 0
IsMounted u routes fns h =
    (r : Registration) × (f : Fn) × Elem r routes
    × (r.fqname ≡ h.fqname)
    × (plan r h u ≡ ok f)
    × Elem f fns

HasPlan-IsMounted :
    (u : Unicode) (routes : List Registration) (d : Dict Text Registration) (fns : List Fn)
    (hs : List Handler)
    → Mounted routes empty d
    → All (HasPlan u d fns) hs
    → All (IsMounted u routes (sort_by fn_before fns)) hs
HasPlan-IsMounted u routes d fns [] m k = tt
HasPlan-IsMounted u routes d fns (h ∷ hs) m ((r, f, found, made, n), k) =
    let (stands, named) : Elem r routes × (r.fqname ≡ h.fqname) = elim (m.found h.fqname r found) [
      | inl absent ↦ absurd (cc)
      | inr is ↦ is
    ] in
    (
      (r, f, stands, named, made, sort_by-Elem fn_before fns n),
      HasPlan-IsMounted u routes d fns hs m k,
    )

-- What the functions of a client are, seen from its routes and handlers.
pub record IsClient (u : Unicode) (routes : List Registration) (handlers : List Handler)
    (opts : Options) (fns : List Fn) : Type 0 where
  pub one_route : Distinct fqname_of routes
  pub mounted : All (IsMounted u routes fns) handlers
  pub described :
      (r : Registration)
      → Elem r routes
      → opts.include r ≡ true
      → (h : Handler) × Elem h handlers × (h.fqname ≡ r.fqname)
  pub one_name : Distinct ts_name fns
  pub count : length fns ≡ length handlers

joined-IsClient :
    (u : Unicode) (routes : List Registration) (handlers : List Handler) (opts : Options)
    (fns : List Fn)
    → joined u routes handlers opts ≡ ok fns
    → IsClient u routes handlers opts fns
unfolding joined
joined-IsClient u routes handlers opts fns e =
    let (d, mounted, after_mounts) = bind-eq-ok (mounts routes empty) _ e in
    let (_, described, after_described) =
      bind-eq-ok (check_described opts.include handlers routes) _ after_mounts in
    let (made, planned_all, after_plans) = bind-eq-ok (plans u d handlers) _ after_described in
    let (_, named, done) = bind-eq-ok (check_names (sort_by fn_before made) empty) _ after_plans in
    let is : sort_by fn_before made ≡ fns = cc in
    let (has_plan, same) = plans-HasPlan u d handlers made planned_all in
    let m = mounts-Mounted routes empty d mounted in
    subst (IsClient u routes handlers opts) is (record {
      one_route = m.distinct;
      mounted = HasPlan-IsMounted u routes d made handlers m has_plan;
      described = λ r n i.
          described_by handlers r.fqname
            (check_described_all opts.include handlers routes described r n i);
      one_name = (check_names-Distinct (sort_by fn_before made) empty named).0;
      count = length-sort_by fn_before made ∙ same;
    })

-- A client that is rendered is the text of functions of which: no two have one TypeScript name;
-- there is one for each handler, planned for a route of the name of the handler; no two routes have
-- one name; and every route that is included has a handler. The count given is that of the handlers.
pub render-IsClient :
    (u : Unicode) (routes : List Registration) (handlers : List Handler) (opts : Options)
    (text : Text) (n : ℕ)
    → render u routes handlers opts ≡ ok (text, n)
    → (fns : List Fn) × IsClient u routes handlers opts fns
      × (text ≡ client_text u opts fns)
      × (n ≡ length handlers)
unfolding render
render-IsClient u routes handlers opts text n e =
    let (fns, made, done) = bind-eq-ok (joined u routes handlers opts) _ e in
    let client = joined-IsClient u routes handlers opts fns made in
    let texts : client_text u opts fns ≡ text = cc in
    let counts : length fns ≡ n = cc in (fns, client, sym texts, sym counts ∙ client.count)
