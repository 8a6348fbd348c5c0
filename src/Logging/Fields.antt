-- ===== src/Logging/Fields.antt =====
-- crates/logging/src/format.rs and span.rs: what is read out of the values of an event or a span. How a
-- character is escaped in a quoted text is a parameter.
use common_rust.Prelude.{
  ℕ, Bool, ◌||◌, Option, none, some, List, [], ◌∷◌, ◌++◌, ◌==◌, list_eq, nat_eq, if◌then◌else◌,
}
use common_rust.Prelude.Text.{
  Text, codes, strip_prefix, strip_suffix, trim_start_matches, trim_end_matches,
}

-- A value that is recorded under a name: a text, a number or a Boolean as it is displayed and as it is
-- debugged, or anything else as it is debugged.
pub data Value : Type 0 where
  str : Text → Value
  scalar : Text → Text → Value
  debug : Text → Value

abbrev pub Recorded : Type 0
Recorded = List (Text × Value)

pub data FixedField : Type 0 where
  req_id actor : FixedField

-- `FixedField::from_str`, by the names of `strum`
unfoldable pub fixed_field : Text → Option FixedField
fixed_field name =
    if name == codes "reqid"
    then some req_id
    else if name == codes "actor"
    then some actor
    else none

pub record ReqCtx : Type 0 where
  pub reqid : Option Text
  pub actor : Option Text

abbrev pub no_ctx : ReqCtx
no_ctx = record { reqid = none; actor = none }

-- `ReqVisitor::set`
abbrev set : Option FixedField → Text → ReqCtx → ReqCtx
set none value c = c
set (some req_id) value c = record c { reqid = some value }
set (some actor) value c = record c { actor = some value }

abbrev quote_mark : Text
quote_mark = b'"' ∷ []

abbrev pub text_or : Option Text → Text → Text
text_or none t = t
text_or (some s) t = s

abbrev inside : Option Text → Option Text
inside none = none
inside (some s) = strip_suffix quote_mark s

-- A debugged text without the quotes around it, if both are there.
unfoldable pub unquoted : Text → Text
unfolding strip_prefix strip_suffix
unquoted s = text_or (inside (strip_prefix quote_mark s)) s

-- `ReqVisitor`: what it does not override is recorded as debugged.
abbrev req_text : Value → Text
req_text (str value) = value
req_text (scalar shown debugged) = unquoted debugged
req_text (debug debugged) = unquoted debugged

unfoldable pub visit_ctx : Recorded → ReqCtx → ReqCtx
unfolding fixed_field unquoted
visit_ctx [] c = c
visit_ctx ((name, value) ∷ r) c = visit_ctx r (set (fixed_field name) (req_text value) c)

abbrev pub SpanFields : Type 0
SpanFields = List (Text × Text)

-- `AllFieldsVisitor::put`
unfoldable pub put : Text → Text → SpanFields → SpanFields
put name value [] = (name, value) ∷ []
put name value ((n, v) ∷ r) =
    let rest = put name value r in if n == name then (n, value) ∷ r else (n, v) ∷ rest

-- A span with what the layer keeps in it.
pub record Span : Type 0 where
  pub ctx : Option ReqCtx
  pub fields : Option SpanFields

-- What an event says of itself.
pub record EventFields : Type 0 where
  pub designator : Option Text
  pub message : Option Text
  pub fields : List (Text × Text)

abbrev pub message_field : Text
message_field = codes "message"

abbrev pub designator_field : Text
designator_field = codes "designator"

abbrev pub no_fields : EventFields
no_fields = record { designator = none; message = none; fields = [] }

-- `EventFields::put`
abbrev put_event : Text → Text → EventFields → EventFields
put_event name value e =
    if name == message_field
    then record e { message = some value }
    else if name == designator_field
    then record e { designator = some value }
    else record e { fields = e.fields ++ (name, value) ∷ [] }

abbrev is_own : Text → Bool
is_own name = (name == message_field) || (name == designator_field)

abbrev is_quote : ℕ → Bool
is_quote c = c == b'"'

-- `s.trim_matches('"')`
unfoldable pub trim_quotes : Text → Text
unfolding trim_start_matches trim_end_matches
trim_quotes s = trim_end_matches is_quote (trim_start_matches is_quote s)

module _ (escape : ℕ → Text) where
  unfoldable pub escaped : Text → Text
  escaped [] = []
  escaped (c ∷ s) = escape c ++ escaped s

  -- A text as it is debugged.
  abbrev pub debug_str : Text → Text
  debug_str s = b'"' ∷ (escaped s ++ quote_mark)

  abbrev pub field_text : Value → Text
  field_text (str value) = debug_str value
  field_text (scalar shown debugged) = shown
  field_text (debug debugged) = debugged

  unfoldable pub visit_fields : Recorded → SpanFields → SpanFields
  unfolding put escaped
  visit_fields [] f = f
  visit_fields ((name, value) ∷ r) f = visit_fields r (put name (field_text value) f)

  -- The callbacks of the layer; a value is recorded in what the span has.
  unfoldable pub on_new_span : Recorded → Span
  unfolding visit_ctx visit_fields
  on_new_span values = record {
    ctx = some (visit_ctx values no_ctx);
    fields = some (visit_fields values []);
  }

  abbrev on_some : {A : Type 0} → (A → A) → Option A → Option A
  on_some f none = none
  on_some f (some a) = some (f a)

  unfoldable pub on_record : Recorded → Span → Span
  unfolding visit_ctx visit_fields
  on_record values span = record {
    ctx = on_some (visit_ctx values) span.ctx;
    fields = on_some (visit_fields values) span.fields;
  }

  abbrev event_text : Text → Value → Text
  event_text name (str value) = if is_own name then value else debug_str value
  event_text name (scalar shown debugged) = shown
  event_text name (debug debugged) = if is_own name then trim_quotes debugged else debugged

  unfoldable pub visit_event : Recorded → EventFields → EventFields
  unfolding trim_quotes escaped
  visit_event [] e = e
  visit_event ((name, value) ∷ r) e = visit_event r (put_event name (event_text name value) e)
