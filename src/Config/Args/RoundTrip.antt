-- ===== src/Config/Args/RoundTrip.antt =====
-- Writing settings as `--flag=value` and reading them back.
use mathlib.Core.List.{append_assoc, append-nil}
use common_rust.Prelude.{
  true, some, List, [], ◌∷◌, ◌++◌, map, list_eq, nat_eq, ◌≡◌, ◌≢◌, refl, arith, All, eq_iff, ◌∙◌,
}
use common_rust.Prelude.Dict.{Dict}
use common_rust.Prelude.Result.{ok}
use common_rust.Prelude.Text.{Text, codes, starts_with}
use common_rust.Prelude.Text.Laws.{Lacks, split_once-append, starts_with-append}
use common_rust.Config.Path
use common_rust.Config.Path.{FieldPath}
use common_rust.Config.Schema.{Field, Kind, field_flag}
use common_rust.Config.Args.{
  config_flag, help_flag, help_flag_short, print_config_flag, Parsed, nothing_parsed, split_token,
  push_value, field_turn, flag_turn, named_turn, turn, scan, flag_table, conclude, parse,
}

-- The field's flag names it in the table, is no built-in flag, and holds no `=`.
pub record IsSettable (table : Dict Text Field) (f : Field) : Type 0 where
  pub found : table (field_flag f) ≡ some f
  pub no_equals : Lacks b'=' (field_flag f)
  pub not_help : field_flag f ≢ help_flag
  pub not_help_short : field_flag f ≢ help_flag_short
  pub not_print_config : field_flag f ≢ print_config_flag
  pub not_config : field_flag f ≢ config_flag

abbrev pub setting_token : Field × Text → Text
setting_token (f, text) = field_flag f ++ b'=' ∷ text

abbrev pub setting_value : Field × Text → FieldPath × Text × Text
setting_value (f, text) = (f.path, text, field_flag f)

flag_starts_with : (f : Field) → starts_with (codes "--") (field_flag f) ≡ true
unfolding Path.flag
flag_starts_with f = starts_with-append (codes "--") _

field_turn_inline :
    (k : Kind) (f : Field) (name text : Text) (rest : List Text) (p : Parsed) (u : List Text)
    → field_turn k f name (some text) rest p u
      ≡ ok (record { parsed = push_value p f.path text name; unknown = u; taken = 0 })
unfolding field_turn
field_turn_inline Kind.bool f name text rest p u = refl
field_turn_inline Kind.text f name text rest p u = refl

module _ (table : Dict Text Field) where
  named_turn_setting :
      (f : Field) (token text : Text) (rest : List Text) (p : Parsed) (u : List Text)
      → IsSettable table f
      → named_turn table token (field_flag f) (some text) rest p u
        ≡ ok (record { parsed = push_value p f.path text (field_flag f); unknown = u; taken = 0 })
  unfolding named_turn flag_turn
  named_turn_setting f token text rest p u s = ground (
    arith,
    s.found,
    eq_iff (field_flag f) help_flag,
    eq_iff (field_flag f) help_flag_short,
    eq_iff (field_flag f) print_config_flag,
    eq_iff (field_flag f) config_flag,
    field_turn_inline f.kind f (field_flag f) text rest p u,
  )

  turn_setting :
      (f : Field) (text : Text) (rest : List Text) (p : Parsed) (u : List Text)
      → IsSettable table f
      → turn table (setting_token (f, text)) rest p u
        ≡ ok (record { parsed = push_value p f.path text (field_flag f); unknown = u; taken = 0 })
  unfolding turn split_token
  turn_setting f text rest p u s =
      rw (split_once-append b'=' (field_flag f) text s.no_equals)
        (rw (flag_starts_with f) (named_turn_setting f _ text rest p u s))

  scan_settings :
      (items : List (Field × Text)) (p : Parsed) (u : List Text)
      → All (λ (i : Field × Text). IsSettable table i.0) items
      → scan table 0 p u (map setting_token items)
        ≡ ok (record p { values = p.values ++ map setting_value items }, u)
  unfolding scan
  scan_settings [] p u _ = rw append-nil
  scan_settings ((f, text) ∷ items) p u (s, ss) =
      rw (turn_setting f text (map setting_token items) p u s)
        (scan_settings items (push_value p f.path text (field_flag f)) u ss ∙ rw append_assoc)

-- Settings written as `--flag=value`, whatever the values hold, are read back in their order, with
-- nothing else set, if every field's flag is in the table and is not one of the built-in flags.
pub parse-settings :
    (fields : List Field) (items : List (Field × Text))
    → All (λ (i : Field × Text). IsSettable (flag_table fields) i.0) items
    → parse fields (map setting_token items)
      ≡ ok (record nothing_parsed { values = map setting_value items })
unfolding parse conclude
parse-settings fields items h = rw (scan_settings (flag_table fields) items nothing_parsed [] h)
