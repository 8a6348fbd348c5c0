-- ===== src/Config/Layers/Precedence.antt =====
-- Which source wins for a field, read off the four sources with no table in between.
use common_rust.Prelude.{
  Option, none, some, List, [], ◌∷◌, ◌==◌, list_eq, nat_eq, if◌then◌else◌, ◌≡◌, refl, arith, ◌∙◌,
  ap,
}
use common_rust.Prelude.Dict.{empty, collect, last_value, or_else, or_else-none, collect-last_value}
use common_rust.Prelude.Result.{ok, err, bind-eq-ok}
use common_rust.Prelude.Text.{Text}
use common_rust.Config.Path.{FieldPath, path_eq}
use common_rust.Config.Schema.{Field, field_env, Presence, Origin, Entry, FileStatus}
use common_rust.Config.Args.{Parsed}
use common_rust.Config.File
use common_rust.Config.File.{Files}
use common_rust.Config.Values.{Values}
use common_rust.Config.Layers.{
  Entries, put, put_default, put_env, with_defaults, with_file, with_env, with_args, file_choice,
  with_chosen_file, merge,
}

abbrev entry_of : Text → Origin → Option Entry
entry_of text origin = some (record { text = text; origin = origin })

abbrev default_text : Presence → Option Entry
default_text (Presence.default text) = entry_of text Origin.default
default_text Presence.required = none
default_text Presence.optional = none

-- The default of the last field at the path that has one.
abbrev pub default_entry : FieldPath → List Field → Option Entry
default_entry p [] = none
default_entry p (f ∷ fs) =
    or_else (default_entry p fs) (if f.path == p then default_text f.presence else none)

abbrev pub file_entry : Text → FieldPath → List (FieldPath × Text) → Option Entry
file_entry file p [] = none
file_entry file p ((q, text) ∷ r) =
    or_else (file_entry file p r) (if q == p then entry_of text (Origin.file file) else none)

abbrev env_text : Option Text → Text → Option Entry
env_text none name = none
env_text (some value) name = entry_of value (Origin.env name)

-- The environment's value of the last field at the path that has one; of a variable that is
-- listed twice the later value counts.
abbrev pub env_entry : Text → List (Text × Text) → FieldPath → List Field → Option Entry
env_entry app env p [] = none
env_entry app env p (f ∷ fs) =
    or_else (env_entry app env p fs)
      (if f.path == p then env_text (last_value (field_env app f) env) (field_env app f) else none)

abbrev pub arg_entry : FieldPath → List (FieldPath × Text × Text) → Option Entry
arg_entry p [] = none
arg_entry p ((q, text, flag) ∷ r) =
    or_else (arg_entry p r) (if q == p then entry_of text (Origin.arg flag) else none)

with_args-arg_entry :
    (r : List (FieldPath × Text × Text)) (m : Entries) (p : FieldPath)
    → with_args r m p ≡ or_else (arg_entry p r) (m p)
unfolding with_args
with_args-arg_entry [] m p = refl
with_args-arg_entry ((q, text, flag) ∷ r) m p =
    ground (arith, with_args-arg_entry r (put q text (Origin.arg flag) m) p)

with_file-file_entry :
    (file : Text) (r : List (FieldPath × Text)) (m : Entries) (p : FieldPath)
    → with_file file r m p ≡ or_else (file_entry file p r) (m p)
unfolding with_file
with_file-file_entry file [] m p = refl
with_file-file_entry file ((q, text) ∷ r) m p =
    ground (arith, with_file-file_entry file r (put q text (Origin.file file) m) p)

with_defaults-default_entry :
    (fs : List Field) (m : Entries) (p : FieldPath)
    → with_defaults fs m p ≡ or_else (default_entry p fs) (m p)
unfolding with_defaults
with_defaults-default_entry [] m p = refl
with_defaults-default_entry (f ∷ fs) m p =
    ground (arith, with_defaults-default_entry fs (put_default f.presence f.path m) p)

put_env-env_text :
    (o : Option Text) (name : Text) (q p : FieldPath) (m : Entries)
    → put_env o name q m p ≡ or_else (if q == p then env_text o name else none) (m p)
put_env-env_text none name q p m = ground arith
put_env-env_text (some value) name q p m = ground arith

or_else_assoc {ℓ} :
    {A : Type ℓ} (a b c : Option A) → or_else a (or_else b c) ≡ or_else (or_else a b) c
or_else_assoc none b c = refl
or_else_assoc (some a) b c = refl

with_env-env_entry :
    (app : Text) (env : List (Text × Text)) (fs : List Field) (m : Entries) (p : FieldPath)
    → with_env app (collect env) fs m p ≡ or_else (env_entry app env p fs) (m p)
unfolding with_env
with_env-env_entry app env [] m p = refl
with_env-env_entry app env (f ∷ fs) m p =
    with_env-env_entry app env fs _ p
    ∙ ap (or_else (env_entry app env p fs))
        (put_env-env_text (collect env (field_env app f)) (field_env app f) f.path p m)
    ∙ rw (collect-last_value env (field_env app f)) (or_else_assoc (env_entry app env p fs) _ (m p))

module _ (files : Files) (app : Text) (fields : List Field) where
  -- What the chosen file gives for a path; no file, nothing.
  abbrev pub chosen_entry : Option (Text × Text) → FieldPath → Option Entry
  chosen_entry none p = none
  chosen_entry (some (path, source)) p = elim (File.read files fields source path) [
    | ok pairs ↦ file_entry path p pairs
    | err _ ↦ none
  ]

  with_chosen_file-chosen_entry :
      (choice : Option (Text × Text)) (m m' : Entries) (status : FileStatus) (p : FieldPath)
      → with_chosen_file files app fields choice m ≡ ok (m', status)
      → m' p ≡ or_else (chosen_entry choice p) (m p)
  unfolding with_chosen_file
  with_chosen_file-chosen_entry none m m' status p h = ground arith
  with_chosen_file-chosen_entry (some (path, source)) m m' status p h =
      let (pairs, same, done) = bind-eq-ok (File.read files fields source path) _ h in
      ground (arith, same, done, with_file-file_entry path pairs m p)

  -- A merge that succeeds gives each path the text and the origin of the last argument for it;
  -- failing that of the environment, failing that of the chosen file, failing that of the
  -- schema's default; and nothing where all four have nothing.
  pub merge_precedence :
      (args : Parsed) (env : List (Text × Text)) (v : Values) (p : FieldPath)
      → merge files app fields args env ≡ ok v
      → v.entries p
        ≡ or_else (arg_entry p args.values) (
            or_else (env_entry app env p fields) (
              or_else
                (chosen_entry (file_choice app args.config (collect env)) p)
                (default_entry p fields)))
  unfolding merge
  merge_precedence args env v p h =
      let ((m, status), chosen, done) =
        bind-eq-ok
          (with_chosen_file files app fields (file_choice app args.config (collect env))
            (with_defaults fields empty))
          _ h in
      let file_step = with_chosen_file-chosen_entry _ _ m status p chosen in
      let defaults_step = with_defaults-default_entry fields empty p in
      let env_step = with_env-env_entry app env fields m p in
      let args_step = with_args-arg_entry args.values (with_env app (collect env) fields m) p in
      let table : with_args args.values (with_env app (collect env) fields m) ≡ v.entries = cc in
      cc (ap (λ (e : Entries). e p) table, or_else-none (default_entry p fields))
