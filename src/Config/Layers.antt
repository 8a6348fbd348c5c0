-- ===== src/Config/Layers.antt =====
-- crates/config/src/layers.rs: source precedence. Each source is a loop over its list that
-- inserts, so that a later source overrides an earlier one.
pub mod Precedence
use common_rust.Prelude.{
  Option, none, some, List, [], ◌∷◌, ◌++◌, map, ◌==◌, list_eq, list_beq, nat_eq, if◌then◌else◌,
}
use common_rust.Prelude.Dict.{Dict, empty, insert, collect}
use common_rust.Prelude.Result.{Result, ok, err, ◌>>=◌}
use common_rust.Prelude.Text.{Text, codes}
use common_rust.Config.Path
use common_rust.Config.Path.{FieldPath, path_eq}
use common_rust.Config.Refusal.{Refusal}
use common_rust.Config.Schema.{
  Field, field_env, Presence, Origin, Entry, FileStatus, not_configured, read,
}
use common_rust.Config.Args.{Parsed, config_flag}
use common_rust.Config.File
use common_rust.Config.File.{Files}
use common_rust.Config.Values.{Values}

abbrev pub config_env : Text → Text
config_env app = app ++ codes "_CONFIG"

abbrev pub Entries : Type 0
Entries = Dict FieldPath Entry

abbrev pub put : FieldPath → Text → Origin → Entries → Entries
put path text origin = insert path (record { text = text; origin = origin })

abbrev pub put_default : Presence → FieldPath → Entries → Entries
put_default (Presence.default text) path m = put path text Origin.default m
put_default Presence.required path m = m
put_default Presence.optional path m = m

-- the first loop
unfoldable pub with_defaults : List Field → Entries → Entries
with_defaults [] m = m
with_defaults (f ∷ fs) m = with_defaults fs (put_default f.presence f.path m)

-- the loop over what the file holds
unfoldable pub with_file : Text → List (FieldPath × Text) → Entries → Entries
with_file file [] m = m
with_file file ((path, text) ∷ r) m = with_file file r (put path text (Origin.file file) m)

abbrev pub put_env : Option Text → Text → FieldPath → Entries → Entries
put_env none name path m = m
put_env (some value) name path m = put path value (Origin.env name) m

-- the loop over the environment's values
unfoldable pub with_env : Text → Dict Text Text → List Field → Entries → Entries
with_env app env [] m = m
with_env app env (f ∷ fs) m =
    with_env app env fs (put_env (env (field_env app f)) (field_env app f) f.path m)

-- the loop over the arguments' values
unfoldable pub with_args : List (FieldPath × Text × Text) → Entries → Entries
with_args [] m = m
with_args ((path, text, flag) ∷ r) m = with_args r (put path text (Origin.arg flag) m)

-- Which file, and what names it.
abbrev pub file_choice : Text → Option Text → Dict Text Text → Option (Text × Text)
file_choice app (some path) env = some (path, config_flag)
file_choice app none env = elim (env (config_env app)) [
  | none ↦ none
  | some path ↦ some (path, config_env app)
]

module _ (files : Files) (app : Text) (fields : List Field) where
  unfoldable pub with_chosen_file :
      Option (Text × Text) → Entries → Result Refusal (Entries × FileStatus)
  unfolding with_file File.read
  with_chosen_file none m = ok (m, not_configured)
  with_chosen_file (some (path, source)) m = do
    pairs ← File.read files fields source path
    ok (with_file path pairs m, read path)

  unfoldable pub merge : Parsed → List (Text × Text) → Result Refusal Values
  unfolding with_chosen_file with_defaults with_env with_args
  merge args env_list = do
    let env = collect env_list
    (m, status) ← with_chosen_file (file_choice app args.config env) (with_defaults fields empty)
    ok (record {
      app = app;
      fields = fields;
      entries = with_args args.values (with_env app env fields m);
      file = status;
    })
