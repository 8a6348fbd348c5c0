-- ===== src/Routing/Generate/Params.antt =====
-- The parameters of the TypeScript function of a handler.
use common_rust.Prelude.{
  Bool, true, false, not, Option, none, some, List, [], ◌∷◌, ◌++◌, ◌==◌, nat_eq, list_eq, list_beq,
  if◌then◌else◌, any, find, length, map, ◌≡◌, ◌≢◌, refl, ap, ◌∙◌, arith, Bool-cases, inl, inr,
  eq_iff, sym, Elem, All, All-append,
}
use mathlib.Core.List.{map-append}
use common_rust.Prelude.Result.{ok, bind-eq-ok}
use common_rust.Prelude.Text.{Text, codes, is_empty}
use common_rust.Prelude.Sort.Keyed.{Distinct}
use common_rust.Routing.Manifest.{Registration}
use common_rust.Routing.Export.{Field, Arg, Handler}
use common_rust.Routing.Generate.Keywords.{
  keywords, free_of_keywords, HasQuery, HasBody, NameIf, query-NameIf, body-NameIf,
}
use common_rust.Routing.Generate.{
  Fn, Unicode, is_one_of, reserved, is_path_kind, is_query_kind, is_body_kind, args_of, typed_by,
  by_name, zip, by_position, of_arg, refused, no_path, path_params_of, check_names, payload,
  function, with_payload, plan,
}

abbrev pub names : List (Text × Text) → List Text
names = map (λ (p : Text × Text). p.0)

names-zip : (ps ts : List Text) → length ts ≡ length ps → names (zip ps ts) ≡ ps
unfolding zip
names-zip [] [] h = refl
names-zip [] (t ∷ ts) h = absurd (omega arith)
names-zip (p ∷ ps) [] h = absurd (omega arith)
names-zip (p ∷ ps) (t ∷ ts) h = ap (λ r. p ∷ r) (names-zip ps ts (omega arith))

-- What a TypeScript function takes besides the params of the path.
abbrev pub payload_names : Fn → List Text
payload_names f =
    (if f.has_query then codes "query" ∷ [] else [])
    ++ (if f.has_body then codes "body" ∷ [] else [])

payload_names_of : Text → List Arg → List Text
payload_names_of name args = names (payload name args)

names-payload :
    (name : Text) (args : List Arg)
    → names (payload name args) ≡ (if not (is_empty args) then name ∷ [] else [])
names-payload name [] = refl
names-payload name (arg ∷ args) = refl

is_reserved :
    (p : Text) (t : Text) → is_one_of reserved t ≡ true → is_one_of reserved p ≡ false → p ≢ t
is_reserved p t h n e = cc

payload_reserved :
    (is_one_of reserved (codes "query") ≡ true) × (is_one_of reserved (codes "body") ≡ true)
unfolding reserved any list_beq
payload_reserved = (refl, refl)

with_payload-Distinct :
    (has_query has_body : Bool) (ps : List Text)
    → Distinct (λ p. p) ps
    → All (λ p. is_one_of reserved p ≡ false) ps
    → Distinct
        (λ p. p)
        (ps
          ++ ((if has_query then codes "query" ∷ [] else [])
              ++ (if has_body then codes "body" ∷ [] else [])))
with_payload-Distinct true true [] d u = (((λ e. cc), tt), (tt, tt))
with_payload-Distinct true false [] d u = (tt, tt)
with_payload-Distinct false true [] d u = (tt, tt)
with_payload-Distinct false false [] d u = tt
with_payload-Distinct q b (p ∷ ps) (n, d) (free, u) =
    (All-append (λ t. p ≢ t) ps _ n (other q b), with_payload-Distinct q b ps d u)
  where
    other :
        (has_query has_body : Bool)
        → All
            (λ t. p ≢ t)
            ((if has_query then codes "query" ∷ [] else [])
              ++ (if has_body then codes "body" ∷ [] else []))
    other true true =
        (is_reserved p _ payload_reserved.0 free, (is_reserved p _ payload_reserved.1 free, tt))
    other true false = (is_reserved p _ payload_reserved.0 free, tt)
    other false true = (is_reserved p _ payload_reserved.1 free, tt)
    other false false = tt

module _ (reg : Registration) (h : Handler) where
  typed_by-name :
      (arg : Arg) (p : Text) (found : Option Field) (param : Text × Text)
      → typed_by reg h arg p found ≡ ok param
      → param.0 ≡ p
  typed_by-name arg p none param e = absurd (cc)
  typed_by-name arg p (some f) param e = ground (arith, e)

  names-by_name :
      (arg : Arg) (fields : List Field) (ps : List Text) (params : List (Text × Text))
      → by_name reg h arg fields ps ≡ ok params
      → names params ≡ ps
  unfolding by_name
  names-by_name arg fields [] params e = let is : [] ≡ params = cc in rw (← is) refl
  names-by_name arg fields (p ∷ ps) params e =
      let found = find (λ (f : Field). f.name == p) fields in
      let (param, typed, more) = bind-eq-ok (typed_by reg h arg p found) _ e in
      let (rest, made, done) = bind-eq-ok (by_name reg h arg fields ps) _ more in
      let is : param ∷ rest ≡ params = cc in
      rw (← is)
        (λ i. typed_by-name arg p found param typed i ∷ names-by_name arg fields ps rest made i)

  names-by_position :
      (arg : Arg) (types : List Text) (params : List (Text × Text))
      → by_position reg h arg types ≡ ok params
      → names params ≡ reg.path_params
  names-by_position arg types params e =
      elim (Bool-cases (length types == length reg.path_params)) [
        | inl same ↦
            let is : zip reg.path_params types ≡ params = ground (arith, e, same) in
            rw (← is) (
              names-zip reg.path_params types
                ((eq_iff (length types) (length reg.path_params)).0 same))
        | inr differs ↦ absurd (ground (arith, e, differs))
      ]

  names-of_arg :
      (arg : Arg) (fields : Option (List Field)) (params : List (Text × Text))
      → of_arg reg h arg fields ≡ ok params
      → names params ≡ reg.path_params
  names-of_arg arg none params e = names-by_position arg _ params e
  names-of_arg arg (some fields) params e = names-by_name arg fields reg.path_params params e

  no_arg-names :
      (ps : List Text) (params : List (Text × Text))
      → (if is_empty ps then ok [] else refused reg h (no_path reg.path reg.path_params))
        ≡ ok params
      → names params ≡ ps
  no_arg-names [] params e = let is : [] ≡ params = cc in rw (← is) refl
  no_arg-names (p ∷ ps) params e = absurd (cc)

  names-path_params_of :
      (args : List Arg) (params : List (Text × Text))
      → path_params_of reg h args ≡ ok params
      → names params ≡ reg.path_params
  names-path_params_of [] params e = no_arg-names reg.path_params params e
  names-path_params_of (arg ∷ []) params e = names-of_arg arg arg.fields params e
  names-path_params_of (arg ∷ (other ∷ args)) params e = absurd (cc)

  check_names-All :
      (params : List (Text × Text))
      → check_names reg h params ≡ ok tt
      → All (λ p. is_one_of reserved p ≡ false) (names params)
  unfolding check_names
  check_names-All [] e = tt
  check_names-All ((p, t) ∷ params) e = elim (Bool-cases (is_one_of reserved p)) [
    | inl is ↦ absurd (ground (arith, e, is))
    | inr is_not ↦ (is_not, check_names-All params (ground (arith, e, is_not)))
  ]

  with_payload-eq-ok :
      (u : Unicode) (params : List (Text × Text)) (query_args body_args : List Arg) (f : Fn)
      → with_payload reg h u params query_args body_args ≡ ok f
      → function reg h u params query_args body_args ≡ f
  with_payload-eq-ok u params query_args body_args f e = ground (arith, e)

  names-function :
      (u : Unicode) (params : List (Text × Text)) (q b : List Arg)
      → names params ≡ reg.path_params
      → names (function reg h u params q b).params
        ≡ reg.path_params ++ payload_names (function reg h u params q b)
  names-function u params q b same = map-append (λ (p : Text × Text). p.0) params _ ∙ (λ i.
      same i
      ++ (map-append (λ (p : Text × Text). p.0) (payload (codes "query") q)
              (payload (codes "body") b)
            ∙ (λ j. names-payload (codes "query") q j ++ names-payload (codes "body") b j))
          i)

  -- The parts of a plan that succeeds.
  pub plan-eq-ok :
      (u : Unicode) (f : Fn)
      → plan reg h u ≡ ok f
      → (params : List (Text × Text)) × (path_params_of reg h (args_of is_path_kind h) ≡ ok params)
        × (check_names reg h params ≡ ok tt)
        × (function reg h u params (args_of is_query_kind h) (args_of is_body_kind h) ≡ f)
  unfolding plan
  plan-eq-ok u f e =
      let (params, made, more) = bind-eq-ok (path_params_of reg h (args_of is_path_kind h)) _ e in
      let (_, checked, done) = bind-eq-ok (check_names reg h params) _ more in
      (params, made, checked, with_payload-eq-ok u params _ _ f done)

  -- The names that the params of the path and the flags of a plan give its parameters.
  plan-payload_names :
      (u : Unicode) (f : Fn)
      → plan reg h u ≡ ok f
      → (names f.params ≡ reg.path_params ++ payload_names f)
        × All (λ p. is_one_of reserved p ≡ false) reg.path_params
  plan-payload_names u f e =
      let (params, made, checked, is) = plan-eq-ok u f e in
      let same : names params ≡ reg.path_params =
        names-path_params_of (args_of is_path_kind h) params made in
      let q = args_of is_query_kind h in
      let b = args_of is_body_kind h in
      (rw (← is) (names-function u params q b same), rw (← same) (check_names-All params checked))

  -- The names that a function takes: the params of the path in their order, then `query` exactly
  -- if the handler has a query, and then `body` exactly if it has a body, multipart or not.
  abbrev pub AreNames : List Text → Type 0
  AreNames ns =
      (q : List Text) × (b : List Text) × (ns ≡ reg.path_params ++ (q ++ b))
      × NameIf (HasQuery h) (codes "query") q
      × NameIf (HasBody h) (codes "body") b

  payload-AreNames :
      (u : Unicode) (f : Fn)
      → plan reg h u ≡ ok f
      → names f.params ≡ reg.path_params ++ payload_names f
      → AreNames (names f.params)
  payload-AreNames u f e same =
      let (params, _, _, is) = plan-eq-ok u f e in
      let q = args_of is_query_kind h in
      let b = args_of is_body_kind h in
      (
        (if not (is_empty q) then codes "query" ∷ [] else []),
        (if not (is_empty b) then codes "body" ∷ [] else []),
        same ∙ ap (λ f. reg.path_params ++ payload_names f) (sym is),
        query-NameIf h,
        body-NameIf h,
      )

  -- The function of a handler takes the params of the path of its route in their order, then a
  -- query exactly if the handler has an argument that is one, and then a body exactly if the
  -- handler has one, of any form or multipart; and none of the params of the path is a keyword of
  -- TypeScript or one of the names `query` and `body`.
  pub plan-names :
      (u : Unicode) (f : Fn)
      → plan reg h u ≡ ok f
      → AreNames (names f.params) × All (λ p. ¬ Elem p keywords) reg.path_params
  plan-names u f e =
      let (same, free) = plan-payload_names u f e in
      (payload-AreNames u f e same, free_of_keywords reg.path_params free)

  -- If no two params of the path of the route have one name, then no two parameters of the function
  -- have one.
  pub plan-Distinct :
      (u : Unicode) (f : Fn)
      → Distinct (λ p. p) reg.path_params
      → plan reg h u ≡ ok f
      → Distinct (λ p. p) (names f.params)
  plan-Distinct u f d e =
      let (same, free) = plan-payload_names u f e in
      rw same (with_payload-Distinct f.has_query f.has_body reg.path_params d free)
