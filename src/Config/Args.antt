-- ===== src/Config/Args.antt =====
-- crates/config/src/args.rs: the argv grammar. The loop's index is the rest of the list, and
-- `taken` counts the tokens after the current one that a flag took as its value.
pub mod RoundTrip
pub mod Known
use common_rust.Prelude.{
  ℕ, zero, suc, Bool, true, false, Option, none, some, List, [], ◌∷◌, ◌++◌, map, ◌==◌, list_eq,
  list_beq, nat_eq, not, ◌||◌, if◌then◌else◌,
}
use common_rust.Prelude.Dict.{Dict, collect}
use common_rust.Prelude.Result.{Result, ok, err, ◌>>=◌}
use common_rust.Prelude.Text.{Text, codes, is_empty, starts_with, split_once, join}
use common_rust.Config.Path.{FieldPath}
use common_rust.Config.Refusal.{Refusal, new, with_detail}
use common_rust.Config.Schema.{Field, Kind, field_flag}

abbrev pub config_flag : Text
config_flag = codes "--config"

abbrev pub help_flag : Text
help_flag = codes "--help"

abbrev pub help_flag_short : Text
help_flag_short = codes "-h"

abbrev pub print_config_flag : Text
print_config_flag = codes "--print-config"

pub record Parsed : Type 0 where
  pub help : Bool
  pub print_config : Bool
  pub config : Option Text
  pub values : List (FieldPath × Text × Text)

abbrev pub nothing_parsed : Parsed
nothing_parsed = record { help = false; print_config = false; config = none; values = [] }

-- The name of a token and its inline value.
abbrev pub inline_of : Text → Option (Text × Text) → Text × Option Text
inline_of token none = (token, none)
inline_of token (some (name, value)) =
    if starts_with (codes "--") name then (name, some value) else (token, none)

unfoldable pub split_token : Text → Text × Option Text
unfolding split_once starts_with
split_token token = inline_of token (split_once b'=' token)

abbrev without_value : Text → Refusal
without_value name =
    with_detail
      (new name []
        (codes "a value: " ++ (name ++ (codes "=<value> or " ++ (name ++ codes " <value>")))))
      (codes "flag given without a value")

-- The value, and how many of the tokens that follow it took.
unfoldable pub take_value : Text → Option Text → List Text → Result Refusal (Text × ℕ)
unfolding starts_with
take_value name (some value) rest = ok (value, 0)
take_value name none [] = err (without_value name)
take_value name none (next ∷ rest) =
    if starts_with (codes "--") next then err (without_value name) else ok (next, 1)

pub record Turn : Type 0 where
  pub parsed : Parsed
  pub unknown : List Text
  pub taken : ℕ

abbrev pub push_value : Parsed → FieldPath → Text → Text → Parsed
push_value p path text name = record p { values = p.values ++ (path, text, name) ∷ [] }

abbrev text_or : Option Text → Text → Text
text_or none d = d
text_or (some t) d = t

-- `Some(field) if field.kind == Kind::Bool`, `Some(field)` and `None`
unfoldable pub field_turn :
    Kind → Field → Text → Option Text → List Text → Parsed → List Text → Result Refusal Turn
unfolding take_value
field_turn Kind.bool f name inline rest p u = ok (record {
  parsed = push_value p f.path (text_or inline (codes "true")) name;
  unknown = u;
  taken = 0;
})
field_turn Kind.text f name inline rest p u = do
  (text, taken) ← take_value name inline rest
  ok (record { parsed = push_value p f.path text name; unknown = u; taken = taken })

unfoldable pub flag_turn :
    Option Field → Text → Text → Option Text → List Text → Parsed → List Text → Result Refusal Turn
unfolding field_turn
flag_turn none token name inline rest p u =
    ok (record { parsed = p; unknown = u ++ token ∷ []; taken = 0 })
flag_turn (some f) token name inline rest p u = field_turn f.kind f name inline rest p u

unfoldable pub named_turn :
    Dict Text Field
    → Text
    → Text
    → Option Text
    → List Text
    → Parsed
    → List Text
    → Result Refusal Turn
unfolding flag_turn take_value
named_turn by_flag token name inline rest p u =
    if (name == help_flag) || (name == help_flag_short)
    then ok (record { parsed = record p { help = true }; unknown = u; taken = 0 })
    else if name == print_config_flag
    then ok (record { parsed = record p { print_config = true }; unknown = u; taken = 0 })
    else if name == config_flag
    then (do
      (value, taken) ← take_value name inline rest
      ok (record { parsed = record p { config = some value }; unknown = u; taken = taken }))
    else flag_turn (by_flag name) token name inline rest p u

-- One round of the loop.
unfoldable pub turn : Dict Text Field → Text → List Text → Parsed → List Text → Result Refusal Turn
unfolding named_turn split_token
turn by_flag token rest p u =
    let (name, inline) = split_token token in named_turn by_flag token name inline rest p u

unfoldable pub scan :
    Dict Text Field → ℕ → Parsed → List Text → List Text → Result Refusal (Parsed × List Text)
unfolding turn
scan by_flag skip p u [] = ok (p, u)
scan by_flag (suc skip) p u (token ∷ rest) = scan by_flag skip p u rest
scan by_flag zero p u (token ∷ rest) = do
  t ← turn by_flag token rest p u
  scan by_flag t.taken t.parsed t.unknown rest

abbrev pub flag_table : List Field → Dict Text Field
flag_table fields = collect (map (λ f. (field_flag f, f)) fields)

abbrev unknown_refusal : List Text → Refusal
unknown_refusal unknown =
    with_detail
      (new (codes "arguments") (join (codes " ") unknown) (codes "flags listed by " ++ help_flag))
      (codes "unknown: " ++ join (codes ", ") unknown)

unfoldable pub conclude : Parsed × List Text → Result Refusal Parsed
conclude (p, unknown) =
    if p.help then ok p else if not (is_empty unknown) then err (unknown_refusal unknown) else ok p

unfoldable pub parse : List Field → List Text → Result Refusal Parsed
unfolding scan conclude
parse fields args = scan (flag_table fields) 0 nothing_parsed [] args >>= conclude
