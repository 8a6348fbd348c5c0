-- ===== src/Logging/Format/Tests.antt =====
-- An event inside two spans and a request, its line, and the theorems on the line applied.
use common_rust.Prelude.{
  ℕ, none, some, List, [], ◌∷◌, ◌++◌, ◌==◌, list_eq, nat_eq, list_beq, if◌then◌else◌, ◌≡◌, refl,
}
use common_rust.Prelude.Result.{ok}
use common_rust.Prelude.Text.{Text, codes}
use common_rust.Logging.Fields.{
  Value, Recorded, Span, SpanFields, EventFields, no_fields, visit_event, on_new_span, on_record,
}
use common_rust.Logging.Format.{Metadata, retained_of, format_event}
use common_rust.Logging.Format.Innermost.{AreInnermost, retained_of-AreInnermost}
use common_rust.Logging.Format.Latest.{latest, in_order, record_all, value_in, on_new_span-latest}

abbrev escape : ℕ → Text
escape c = if c == b'"' then codes "\\\"" else c ∷ []

abbrev request_values : Recorded
request_values = (codes "reqid", Value.str (codes "r1")) ∷ []

abbrev actor_values : Recorded
actor_values = (codes "actor", Value.str (codes "ada")) ∷ []

abbrev outer_values : Recorded
outer_values =
    (codes "run", Value.scalar (codes "7") (codes "7"))
    ∷ (codes "step", Value.str (codes "first"))
    ∷ (codes "user", Value.str (codes "eve"))
    ∷ []

abbrev inner_values : Recorded
inner_values = (codes "step", Value.str (codes "second")) ∷ []

-- The spans from the innermost outwards.
abbrev spans : List Span
spans =
    on_new_span escape inner_values
    ∷ on_new_span escape outer_values
    ∷ on_record escape actor_values (on_new_span escape request_values)
    ∷ []

abbrev event_values : Recorded
event_values =
    (codes "designator", Value.debug (codes "\"auth\""))
    ∷ (codes "user", Value.debug (codes "alice"))
    ∷ (codes "message", Value.debug (codes "signed in"))
    ∷ []

abbrev meta : Metadata
meta = record { level = codes "INFO"; file = some (codes "src/web.rs"); line = some 42 }

sample_line :
    format_event escape (ok (codes "2026-01-01T00:00:00Z")) meta event_values spans
    ≡ ok (
        codes
          "2026-01-01T00:00:00Z INFO auth src/web.rs:42 r1 [ada] signed in user=alice run=7 step="
        ++ (codes "\"second\"" ++ b'\n' ∷ []))
unfolding format_event on_new_span on_record list_beq
sample_line = refl

abbrev event : EventFields
event = visit_event escape event_values no_fields

retained_of-AreInnermost_example : AreInnermost event spans (retained_of event spans)
retained_of-AreInnermost_example = retained_of-AreInnermost event spans

on_new_span-latest_example :
    (fields : SpanFields) × ((record_all escape
        (inner_values ∷ [])
        (on_new_span escape outer_values)).fields
      ≡ some fields)
    × (value_in (codes "step") fields
        ≡ latest escape (codes "step") (outer_values ++ in_order (inner_values ∷ [])) none)
on_new_span-latest_example =
    on_new_span-latest escape (codes "step") outer_values (inner_values ∷ [])
