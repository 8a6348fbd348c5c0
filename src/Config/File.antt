-- ===== src/Config/File.antt =====
-- crates/config/src/file.rs: the optional TOML file as `(path, text)` pairs. Reading the file and
-- parsing TOML are a record of functions. A scalar that is no string stands for the text that its
-- `to_string` gives; a table is listed in the order of its iteration.
use common_rust.Prelude.{
  ℕ, Option, none, some, List, [], ◌∷◌, ◌++◌, map, list_eq, nat_eq, if◌then◌else◌, ltb,
}
use common_rust.Prelude.Dict.{Dict, collect}
use common_rust.Prelude.Result.{Result, ok, err, ◌>>=◌}
use common_rust.Prelude.Text.{Text, codes, is_empty, join, decimal}
use common_rust.Config.Path.{FieldPath}
use common_rust.Config.Refusal.{Refusal, new, with_detail}
use common_rust.Config.Schema.{Field, field_toml}
use common_rust.Config.Args.{help_flag}

mutual
  pub data Value : Type 0 where
    table : Table → Value
    array : Value
    string : Text → Value
    integer : Text → Value
    float : Text → Value
    boolean : Text → Value
    datetime : Text → Value

  pub data Table : Type 0 where
    nil : Table
    entry : Text → Value → Table → Table

-- A parse error: its message, and how many lines the text has before the place of the error.
pub record TomlError : Type 0 where
  pub message : Text
  pub lines : Option ℕ

pub record Files : Type 0 where
  pub read_to_string : Text → Result Text Text
  pub from_str : Text → Result TomlError Table

pub record Found : Type 0 where
  pub values : List (FieldPath × Text)
  pub unknown : List Text
  pub non_scalar : List Text

abbrev pub nothing_found : Found
nothing_found = record { values = []; unknown = []; non_scalar = [] }

unfoldable pub key_of : Text → Text → Text
key_of prefix name = if is_empty prefix then name else prefix ++ (codes "." ++ name)

abbrev pub put_scalar : Option FieldPath → Text → Text → Found → Found
put_scalar none key text found = record found { unknown = found.unknown ++ key ∷ [] }
put_scalar (some path) key text found = record found { values = found.values ++ (path, text) ∷ [] }

unfoldable mutual
  unfolding key_of

  pub flatten : Dict Text FieldPath → Text → Table → Found → Found
  flatten by_key prefix nil found = found
  flatten by_key prefix (entry name value rest) found =
      flatten by_key prefix rest (flatten_value by_key (key_of prefix name) value found)

  pub flatten_value : Dict Text FieldPath → Text → Value → Found → Found
  flatten_value by_key key (table inner) found = flatten by_key key inner found
  flatten_value by_key key array found = record found { non_scalar = found.non_scalar ++ key ∷ [] }
  flatten_value by_key key (string s) found = put_scalar (by_key key) key s found
  flatten_value by_key key (integer s) found = put_scalar (by_key key) key s found
  flatten_value by_key key (float s) found = put_scalar (by_key key) key s found
  flatten_value by_key key (boolean s) found = put_scalar (by_key key) key s found
  flatten_value by_key key (datetime s) found = put_scalar (by_key key) key s found

abbrev pub key_table : List Field → Dict Text FieldPath
key_table fields = collect (map (λ f. (field_toml f, f.path)) fields)

-- ` (line n)`, where `n` is at least 1
unfoldable pub line_note : Option ℕ → Text
line_note none = []
line_note (some n) = codes " (line " ++ (decimal (if ltb n 1 then 1 else n) ++ codes ")")

module _ (files : Files) (fields : List Field) (source file : Text) where
  -- the two `?`s
  unfoldable pub load_table : Result Refusal Table
  unfolding line_note
  load_table = elim (files.read_to_string file) [
    | err e ↦ err (
        with_detail (new source file (codes "the path of a readable TOML file"))
          (codes "cannot read: " ++ e))
    | ok text ↦ elim (files.from_str text) [
      | err e ↦ err (
          with_detail (new source file (codes "a well-formed TOML file"))
            (e.message ++ line_note e.lines))
      | ok t ↦ ok t
    ]
  ]

  unfoldable pub accept : Found → Result Refusal (List (FieldPath × Text))
  accept found =
      if is_empty found.non_scalar
      then if is_empty found.unknown
        then ok found.values
        else err (
            with_detail (new source file (codes "only the keys listed by " ++ help_flag))
              (codes "unknown keys: " ++ join (codes ", ") found.unknown))
      else err (
          with_detail
            (new source file
              (codes "a scalar (string, integer, float, boolean, datetime) for every key"))
            (codes "not a scalar: " ++ join (codes ", ") found.non_scalar))

  unfoldable pub read : Result Refusal (List (FieldPath × Text))
  unfolding load_table accept flatten
  read = do t ← load_table; accept (flatten (key_table fields) [] t nothing_found)
