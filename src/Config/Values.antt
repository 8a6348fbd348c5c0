-- ===== src/Config/Values.antt =====
-- crates/config/src/values.rs: the merged table and the one typed parse of each leaf. A read of a
-- path that the schema never registered panics; here that is a second kind of fault. A type `T`
-- that is parsed is given by its `from_str`, whose error is shown, and by its short name.
use common_rust.Prelude.{
  Bool, true, false, Option, none, some, List, [], ◌∷◌, ◌++◌, map, ◌==◌, list_eq, nat_eq,
  if◌then◌else◌, find, ◌||◌,
}
use common_rust.Prelude.Dict.{Dict}
use common_rust.Prelude.Result.{Result, ok, err, ◌>>=◌}
use common_rust.Prelude.Text.{Text, codes, trim, ascii_lower}
use common_rust.Config.Path
use common_rust.Config.Path.{FieldPath, path_eq, leaf, section, dotted}
use common_rust.Config.Refusal.{Refusal, new, with_detail}
use common_rust.Config.Schema.{
  Field, field_flag, field_env, field_toml, Origin, origin_text, Entry, FileStatus,
}

pub record Values : Type 0 where
  pub app : Text
  pub fields : List Field
  pub entries : Dict FieldPath Entry
  pub file : FileStatus

pub data Fault : Type 0 where
  refused : Refusal → Fault
  panicked : Fault

abbrev pub bool_accepted : Text
bool_accepted = codes "true, false, 1, 0, yes, no, on or off"

abbrev pub mask : Text
mask = codes "****"

unfoldable pub bool_word : Text → Option Bool
bool_word w =
    if (w == codes "true") || (w == codes "1") || (w == codes "yes") || (w == codes "on")
    then some true
    else if (w == codes "false") || (w == codes "0") || (w == codes "no") || (w == codes "off")
    then some false
    else none

unfoldable pub parse_bool : Text → Option Bool
unfolding bool_word trim ascii_lower
parse_bool text = bool_word (map ascii_lower (trim text))

unfoldable pub wrong_type_source : Field → Origin → Text
wrong_type_source f (Origin.env name) = name
wrong_type_source f (Origin.arg flag) = flag
wrong_type_source f (Origin.file path) = path ++ (codes ": " ++ field_toml f)
wrong_type_source f Origin.default = codes "default of " ++ field_toml f

unfoldable pub wrong_type : Field → Entry → Text → Text → Refusal
unfolding wrong_type_source origin_text
wrong_type f e accepted error =
    with_detail (new (wrong_type_source f e.origin) (if f.secret then mask else e.text) accepted)
      (codes "set by " ++ (origin_text e.origin ++ (codes ": " ++ error)))

unfoldable pub place : Text → Text
place [] = codes "at the top level of the config file"
place (c ∷ s) = codes "under [" ++ ((c ∷ s) ++ codes "] in the config file")

unfoldable pub missing : Field → Text → Refusal
unfolding place section leaf dotted Path.flag Path.env
missing f app =
    with_detail
      (new (field_env app f) (codes "unset") (
        codes "a value: "
        ++ (field_env app f
            ++ (codes " in the environment, "
                ++ (field_flag f
                    ++ (codes " on the command line, or `"
                        ++ (leaf f.path ++ (codes " = …` " ++ place (section f.path)))))))))
      (codes "required and unset")

abbrev bool_or_refuse : Field → Entry → Option Bool → Result Fault Bool
bool_or_refuse f e none = err (Fault.refused (wrong_type f e bool_accepted (codes "not a boolean")))
bool_or_refuse f e (some b) = ok b

unfoldable pub parse_bool_entry : Field → Entry → Result Fault Bool
unfolding parse_bool wrong_type
parse_bool_entry f e = bool_or_refuse f e (parse_bool e.text)

-- `self.field(path)`
abbrev registered : Option Field → Result Fault Field
registered none = err Fault.panicked
registered (some f) = ok f

unfoldable pub field : Values → FieldPath → Result Fault Field
unfolding find
field v path = registered (find (λ f. f.path == path) v.fields)

unfoldable pub bool : Values → FieldPath → Result Fault Bool
unfolding field parse_bool_entry missing
bool v path = do
  f ← field v path
  elim (v.entries path) [
    | none ↦ err (Fault.refused (missing f v.app))
    | some e ↦ parse_bool_entry f e
  ]

unfoldable pub bool_opt : Values → FieldPath → Result Fault (Option Bool)
unfolding field parse_bool_entry
bool_opt v path = do
  f ← field v path
  elim (v.entries path) [ none ↦ ok none | some e ↦ parse_bool_entry f e >>= λ b. ok (some b) ]

module _ {T : Type 0} (from_str : Text → Result Text T) (type_name : Text) where
  abbrev accepted_or : Option Text → Text
  accepted_or none = codes "a " ++ type_name
  accepted_or (some t) = t

  unfoldable pub parse_text : Field → Entry → Option Text → Result Fault T
  unfolding wrong_type
  parse_text f e accepted = elim (from_str e.text) [
    | ok t ↦ ok t
    | err error ↦ err (Fault.refused (wrong_type f e (accepted_or accepted) error))
  ]

  unfoldable pub leaf_value : Values → FieldPath → Option Text → Result Fault T
  unfolding field parse_text missing
  leaf_value v path accepted = do
    f ← field v path
    elim (v.entries path) [
      | none ↦ err (Fault.refused (missing f v.app))
      | some e ↦ parse_text f e accepted
    ]

  unfoldable pub leaf_opt : Values → FieldPath → Option Text → Result Fault (Option T)
  unfolding field parse_text
  leaf_opt v path accepted = do
    f ← field v path
    elim (v.entries path) [ none ↦ ok none | some e ↦ parse_text f e accepted >>= λ t. ok (some t) ]
