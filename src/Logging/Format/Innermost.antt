-- ===== src/Logging/Format/Innermost.antt =====
-- crates/logging/src/format.rs: which fields of the spans stand on the line.
use common_rust.Prelude.{
  none, List, [], ◌∷◌, ◌++◌, ◌==◌, list_eq, nat_eq, if◌then◌else◌, any, map, ◌≡◌, refl, inl, inr,
  arith, Bool-cases,
}
use common_rust.Prelude.Text.{Text}
use common_rust.Prelude.Sort.Keyed.{lookup, Distinct}
use common_rust.Logging.Fields.{SpanFields, Span, EventFields}
use common_rust.Logging.Format.{
  Retained, is_seen, is_request, retain, retain_fields, fields_or_none, retain_spans, retained_of,
}
use common_rust.Logging.Format.Once.{
  name_of, IsKept, IsExtended, any-append, lookup-append, lookup_of_named, named_of-All,
  retain-IsExtended,
}

-- The fields of the spans that are not the request's, the innermost span's first.
unfoldable pub visible : List Span → SpanFields
visible [] = []
visible (span ∷ spans) =
    if is_request span then visible spans else fields_or_none span.fields ++ visible spans

-- No name stands twice on the list, none is one that the event itself has, and each has the value that
-- the innermost span with the name gives it.
pub record AreInnermost (e : EventFields) (spans : List Span) (fields : SpanFields) : Type 0 where
  pub distinct : Distinct name_of fields
  pub value :
      (name : Text)
      → lookup name_of name fields ≡ (
          if is_seen name (map name_of e.fields) then none else lookup name_of name (visible spans))

-- More fields after some.
IsExtended-trans :
    (r r' r'' : Retained) (xs ys : SpanFields)
    → IsExtended r r' xs
    → IsExtended r' r'' ys
    → IsExtended r r'' (xs ++ ys)
IsExtended-trans r r' r'' xs ys a b = record {
  kept = b.kept;
  found = λ name. ground (arith, a.found name, b.found name, a.sees name, lookup-append name xs ys);
  sees = λ name.
      ground (arith, a.sees name, b.sees name, any-append (λ (f : Text × Text). f.0 == name) xs ys);
}

IsExtended-refl : (r : Retained) → IsKept r → IsExtended r r []
unfolding any
IsExtended-refl r k = record {
  kept = k;
  found = λ name. elim (Bool-cases (is_seen name r.seen)) [
    | inl t ↦ rw t refl
    | inr t ↦
        rw t (lookup_of_named name r.retained (named_of-All name r.seen r.retained k.are_seen t))
  ];
  sees = λ name. ground arith;
}

retain_fields-IsExtended :
    (fields : SpanFields) (r : Retained) → IsKept r → IsExtended r (retain_fields fields r) fields
unfolding retain_fields
retain_fields-IsExtended [] r k = IsExtended-refl r k
retain_fields-IsExtended ((n, v) ∷ fs) r k =
    let one = retain-IsExtended n v r k in
    IsExtended-trans r (retain (n, v) r) (retain_fields fs (retain (n, v) r)) ((n, v) ∷ []) fs one
      (retain_fields-IsExtended fs (retain (n, v) r) one.kept)

retain_spans-IsExtended :
    (spans : List Span) (r : Retained)
    → IsKept r
    → IsExtended r (retain_spans spans r) (visible spans)
unfolding retain_spans visible
retain_spans-IsExtended [] r k = IsExtended-refl r k
retain_spans-IsExtended (span ∷ spans) r k = elim (Bool-cases (is_request span)) [
  | inl q ↦ rw q (retain_spans-IsExtended spans r k)
  | inr q ↦
      let fs : SpanFields = fields_or_none span.fields in
      let here = retain_fields-IsExtended fs r k in
      rw q (
        IsExtended-trans r (retain_fields fs r) (retain_spans spans (retain_fields fs r)) fs
          (visible spans) here (retain_spans-IsExtended spans (retain_fields fs r) here.kept))
]

-- The fields that the line has of the spans: no name twice, none that the event has itself, nothing of
-- a request's span, and under each name what the innermost span with the name says.
pub retained_of-AreInnermost :
    (e : EventFields) (spans : List Span) → AreInnermost e spans (retained_of e spans)
unfolding retained_of
retained_of-AreInnermost e spans =
    let start : Retained = record { seen = map (λ f. f.0) e.fields; retained = [] } in
    let end = retain_spans-IsExtended spans start (record { distinct = tt; are_seen = tt }) in
    record { distinct = end.kept.distinct; value = end.found }
