-- ===== src/Logging/Format/Latest.antt =====
-- crates/logging/src/format.rs: what a span has recorded under a name.
use common_rust.Prelude.{
  ℕ, Option, none, some, List, [], ◌∷◌, ◌++◌, ◌==◌, list_eq, nat_eq, if◌then◌else◌, ◌≡◌, refl, sym,
  ap, ◌∙◌, eq_iff, arith,
}
use common_rust.Prelude.Text.{Text}
use common_rust.Logging.Fields.{
  Span, SpanFields, Recorded, put, visit_fields, field_text, on_new_span, on_record,
}

-- The value under a name.
abbrev pub value_in : Text → SpanFields → Option Text
value_in name [] = none
value_in name ((n, v) ∷ r) = if n == name then some v else value_in name r

-- The last value that is recorded under a name, as it is shown, or what stood there before.
unfoldable pub latest : (ℕ → Text) → Text → Recorded → Option Text → Option Text
latest escape name [] before = before
latest escape name ((n, v) ∷ r) before =
    latest escape name r (if n == name then some (field_text escape v) else before)

-- A span in which lists of values are recorded, one after the other.
unfoldable pub record_all : (ℕ → Text) → List Recorded → Span → Span
unfolding on_record
record_all escape [] span = span
record_all escape (values ∷ rest) span = record_all escape rest (on_record escape values span)

-- The values of the lists, in order.
unfoldable pub in_order : List Recorded → Recorded
in_order [] = []
in_order (values ∷ rest) = values ++ in_order rest

value_in-put :
    (name n v : Text) (fields : SpanFields)
    → value_in name (put n v fields) ≡ (if n == name then some v else value_in name fields)
unfolding put
value_in-put name n v [] = refl
value_in-put name n v ((m, w) ∷ r) =
    ground (arith, eq_iff m n, eq_iff m name, eq_iff n name, value_in-put name n v r)

visit_fields-latest :
    (escape : ℕ → Text) (name : Text) (values : Recorded) (fields : SpanFields)
    → value_in name (visit_fields escape values fields)
      ≡ latest escape name values (value_in name fields)
unfolding visit_fields latest
visit_fields-latest escape name [] fields = refl
visit_fields-latest escape name ((n, v) ∷ r) fields =
    visit_fields-latest escape name r (put n (field_text escape v) fields)
    ∙ ap (latest escape name r) (value_in-put name n (field_text escape v) fields)

latest-append :
    (escape : ℕ → Text) (name : Text) (values more : Recorded) (before : Option Text)
    → latest escape name (values ++ more) before
      ≡ latest escape name more (latest escape name values before)
unfolding latest
latest-append escape name [] more before = refl
latest-append escape name ((n, v) ∷ r) more before =
    latest-append escape name r more (if n == name then some (field_text escape v) else before)

record_all-latest :
    (escape : ℕ → Text) (name : Text) (lists : List Recorded) (span : Span) (fields : SpanFields)
    → span.fields ≡ some fields
    → (after : SpanFields) × ((record_all escape lists span).fields ≡ some after)
      × (value_in name after ≡ latest escape name (in_order lists) (value_in name fields))
unfolding record_all on_record in_order latest
record_all-latest escape name [] span fields h = (fields, h, refl)
record_all-latest escape name (values ∷ rest) span fields h =
    let (after, kept, found) =
      record_all-latest escape name rest (on_record escape values span)
        (visit_fields escape values fields) (rw h refl) in
    (
      after,
      kept,
      found
          ∙ ap (latest escape name (in_order rest)) (visit_fields-latest escape name values fields)
          ∙ sym (latest-append escape name values (in_order rest) (value_in name fields)),
    )

-- A span that is opened with values and in which more are recorded, list by list, has under each name
-- the last value that was recorded under it, as it is shown, and none if there was none.
pub on_new_span-latest :
    (escape : ℕ → Text) (name : Text) (values : Recorded) (lists : List Recorded)
    → (fields : SpanFields) × ((record_all escape lists (on_new_span escape values)).fields
        ≡ some fields)
      × (value_in name fields ≡ latest escape name (values ++ in_order lists) none)
unfolding on_new_span
on_new_span-latest escape name values lists =
    let (fields, kept, found) =
      record_all-latest escape name lists (on_new_span escape values)
        (visit_fields escape values []) refl in
    (
      fields,
      kept,
      found
          ∙ ap (latest escape name (in_order lists)) (visit_fields-latest escape name values [])
          ∙ sym (latest-append escape name values (in_order lists) none),
    )
