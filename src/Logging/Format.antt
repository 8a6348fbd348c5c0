-- ===== src/Logging/Format.antt =====
-- crates/logging/src/format.rs: the line that is written for an event. What the tracing
-- library hands over is data: the values of an event or a span, and the spans around an event. How a
-- character is escaped in a quoted text is a parameter, as is the time of an event.
pub mod Once
pub mod Innermost
pub mod Latest
mod Tests
use common_rust.Prelude.{
  ℕ, Bool, true, false, not, ◌||◌, Option, none, some, List, [], ◌∷◌, ◌++◌, ◌==◌, list_eq, nat_eq,
  list_beq, if◌then◌else◌, any, map,
}
use mathlib.Core.List.{reverse}
use common_rust.Prelude.Result.{Result, ok, err, ◌>>=◌}
use common_rust.Prelude.Text.{
  Text, codes, decimal, strip_prefix, strip_suffix, trim_start_matches, trim_end_matches, is_some,
}
use common_rust.Logging.Fields.{
  ReqCtx, no_ctx, Span, SpanFields, EventFields, no_fields, Recorded, text_or, visit_event,
}

abbrev or_ctx : Option Text → Option Text → Option Text
or_ctx none t = t
or_ctx (some s) t = some s

abbrev pub with_ctx : Option ReqCtx → ReqCtx → ReqCtx
with_ctx none c = c
with_ctx (some rc) c = record { reqid = or_ctx c.reqid rc.reqid; actor = or_ctx c.actor rc.actor }

-- The loop of `lookup_ctx`, over the spans from the innermost outwards.
unfoldable pub ctx_from : List Span → ReqCtx → ReqCtx
ctx_from [] c = c
ctx_from (span ∷ spans) c = ctx_from spans (with_ctx span.ctx c)

unfoldable pub lookup_ctx : List Span → ReqCtx
unfolding ctx_from
lookup_ctx spans = ctx_from spans no_ctx

abbrev has_reqid : Option ReqCtx → Bool
has_reqid none = false
has_reqid (some rc) = is_some rc.reqid

-- The span of a request, whose fields stand at the start of the line.
abbrev pub is_request : Span → Bool
is_request span = has_reqid span.ctx

pub record Retained : Type 0 where
  pub seen : List Text
  pub retained : List (Text × Text)

abbrev pub is_seen : Text → List Text → Bool
is_seen name seen = any (λ n. n == name) seen

-- `if !seen.contains(name)`
abbrev pub retain : Text × Text → Retained → Retained
retain (name, value) r =
    if not (is_seen name r.seen)
    then record { seen = r.seen ++ name ∷ []; retained = r.retained ++ (name, value) ∷ [] }
    else r

unfoldable pub retain_fields : SpanFields → Retained → Retained
unfolding any
retain_fields [] r = r
retain_fields (f ∷ fs) r = retain_fields fs (retain f r)

abbrev pub fields_or_none : Option SpanFields → SpanFields
fields_or_none none = []
fields_or_none (some fs) = fs

-- the loop over the spans
unfoldable pub retain_spans : List Span → Retained → Retained
unfolding retain_fields
retain_spans [] r = r
retain_spans (span ∷ spans) r =
    retain_spans spans (if is_request span then r else retain_fields (fields_or_none span.fields) r)

unfoldable pub retained_of : EventFields → List Span → List (Text × Text)
unfolding retain_spans
retained_of e spans =
    (retain_spans spans (record { seen = map (λ f. f.0) e.fields; retained = [] })).retained

unfoldable pub pairs_text : List (Text × Text) → Text
pairs_text [] = []
pairs_text ((name, value) ∷ r) = b' ' ∷ (name ++ (b'=' ∷ (value ++ pairs_text r)))

-- The metadata of an event.
pub record Metadata : Type 0 where
  pub level : Text
  pub file : Option Text
  pub line : Option ℕ

abbrev line_or : Option ℕ → ℕ
line_or none = 0
line_or (some n) = n

abbrev header : Text → Metadata → EventFields → ReqCtx → Text
header ts meta e c =
    ts
    ++ (b' '
        ∷ (meta.level
            ++ (b' '
                ∷ (text_or e.designator (codes "-")
                    ++ (b' '
                        ∷ (text_or meta.file (codes "?")
                            ++ (b':'
                                ∷ (decimal (line_or meta.line)
                                    ++ (b' '
                                        ∷ (text_or c.reqid (codes "-")
                                            ++ (codes " ["
                                                ++ (text_or c.actor (codes "-")
                                                    ++ codes "] "))))))))))))

-- `format_event`, into a buffer; the time may not be formatted, which is an error.
unfoldable pub format_event :
    (ℕ → Text) → Result (Unit {0}) Text → Metadata → Recorded → List Span → Result (Unit {0}) Text
unfolding lookup_ctx visit_event retained_of pairs_text decimal
format_event escape time meta values spans = do
  ts ← time
  let e = visit_event escape values no_fields
  ok (
      header ts meta e (lookup_ctx spans)
      ++ (text_or e.message []
          ++ (pairs_text e.fields ++ (pairs_text (reverse (retained_of e spans)) ++ b'\n' ∷ []))))
