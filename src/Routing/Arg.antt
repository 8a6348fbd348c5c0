-- ===== src/Routing/Arg.antt =====
-- crates/routing/src/export.rs: the arguments of a handler, out of the TypeScript names and inlined
-- forms of their types, which are parameters.
use common_rust.Prelude.{
  ℕ, Bool, ◌&&◌, ◌||◌, Option, none, some, List, [], ◌∷◌, ◌++◌, ◌==◌, nat_eq, list_eq,
  if◌then◌else◌, any, ◌+◌, ◌-◌,
}
use common_rust.Prelude.Text.{
  Text, codes, is_empty, strip_prefix, strip_suffix, split_once, trim, trim_end_matches,
}
use Prim.Native.Nat.{◌%◌, ◌^◌}
use common_rust.Routing.Export.{Kind, Field, Arg}

abbrev ts_primitives : List Text
ts_primitives =
    codes "string" ∷ codes "number" ∷ codes "bigint" ∷ codes "boolean" ∷ codes "null" ∷ []

abbrev pub opens : ℕ → Bool
opens c = (c == b'<') || ((c == b'[') || ((c == b'{') || (c == b'(')))

abbrev pub closes : ℕ → Bool
closes c = (c == b'>') || ((c == b']') || ((c == b'}') || (c == b')')))

-- Depths are those of an `i32`, modulo 2^32.
abbrev pub depth_after : ℕ → ℕ → ℕ
depth_after c depth =
    if opens c
    then (depth + 1) % 2 ^ 32
    else if closes c
    then (depth + (2 ^ 32 - 1)) % 2 ^ 32
    else depth

abbrev pub push_trimmed : Text → List Text → List Text
push_trimmed cur rest = if is_empty (trim cur) then rest else trim cur ∷ rest

-- The loop of `split_top_level`; `cur` is the part that is read.
unfoldable pub split_from : Text → ℕ → Text → List Text
unfolding trim
split_from cur depth [] = push_trimmed cur []
split_from cur depth (c ∷ s) =
    let ended = push_trimmed cur (split_from [] depth s) in
    let longer = split_from (cur ++ c ∷ []) (depth_after c depth) s in
    if (c == b',') && (depth == 0) then ended else longer

unfoldable pub split_top_level : Text → List Text
unfolding split_from
split_top_level s = split_from [] 0 s

abbrev is_question : ℕ → Bool
is_question c = c == b'?'

abbrev pub field_of : Option (Text × Text) → Option Field
field_of none = none
field_of (some (name, ty)) =
    some (record { name = trim_end_matches is_question (trim name); ts_type = trim ty })

abbrev pub both : Option Field → Option (List Field) → Option (List Field)
both none rest = none
both (some f) none = none
both (some f) (some rest) = some (f ∷ rest)

unfoldable pub fields_of : List Text → Option (List Field)
unfolding split_once trim trim_end_matches
fields_of [] = some []
fields_of (entry ∷ entries) = both (field_of (split_once b':' entry)) (fields_of entries)

abbrev pub fields_in : Option Text → Option (List Field)
fields_in none = none
fields_in (some entries) = fields_of (split_top_level entries)

-- What stands between two marks, `s.strip_prefix(a)?.strip_suffix(b)`
abbrev pub between : Text → Text → Text → Option Text
between a b s = elim (strip_prefix a s) [ none ↦ none | some rest ↦ strip_suffix b rest ]

unfoldable pub parse_object_fields : Text → Option (List Field)
unfolding fields_of split_top_level strip_prefix strip_suffix
parse_object_fields inline = fields_in (between (codes "{") (codes "}") (trim inline))

-- `ts_rs::TS` of a type
pub record Ts : Type 0 where
  pub name : Text
  pub inline : Text

abbrev path_arg : Text → Ts → Option Text → Arg
path_arg name t (some inner) = record {
  name = name;
  kind = Kind.path;
  ts_type = t.name;
  positions = some (split_top_level inner);
  fields = none;
}
path_arg name t none = record {
  name = name;
  kind = Kind.path;
  ts_type = t.name;
  positions = none;
  fields = if any (λ p. p == t.name) ts_primitives then none else parse_object_fields t.inline;
}

-- `Arg::path`
unfoldable pub path : Text → Ts → Arg
unfolding strip_prefix strip_suffix split_top_level parse_object_fields any
path name t = path_arg name t (between (codes "[") (codes "]") t.name)

abbrev pub declared_path : Text → List Field → Arg
declared_path template fields = record {
  name = codes "path";
  kind = Kind.path;
  ts_type = template;
  positions = none;
  fields = some fields;
}

abbrev plain_arg : Kind → Text → Text → Arg
plain_arg kind name ts_type = record {
  name = name;
  kind = kind;
  ts_type = ts_type;
  positions = none;
  fields = none;
}

abbrev pub query : Text → Ts → Arg
query name t = plain_arg Kind.query name t.name

abbrev pub body : Text → Ts → Arg
body name t = plain_arg Kind.body name t.name

abbrev pub multipart : Text → Arg
multipart name = plain_arg Kind.multipart name (codes "FormData")
