-- ===== src/Config/Load.antt =====
-- crates/config/src/lib.rs: `load_from`, the pipeline. What the derive generates for a root type
-- is a record of functions.
pub mod Safety
pub mod NoPanic
use common_rust.Prelude.{List, [], ◌∷◌, Option, none, some, Bool, if◌then◌else◌}
use common_rust.Prelude.Result.{Result, ok, err, ◌>>=◌, ◌>>◌}
use common_rust.Prelude.Text.{Text}
use common_rust.Config.Path.{FieldPath, root}
use common_rust.Config.Refusal.{Refusal}
use common_rust.Config.Schema.{Field}
use common_rust.Config.Args
use common_rust.Config.Args.{Parsed}
use common_rust.Config.File.{Files}
use common_rust.Config.Layers.{merge}
use common_rust.Config.Values.{Values, Fault}
use common_rust.Config.Class.{Deployment, enforce}
use common_rust.Config.Help

pub record Root (T : Type 0) : Type 0 where
  pub app : Text
  pub bin : Text
  pub schema : List Field
  pub from_values : Values → Result Fault T
  pub deployment : T → Deployment

pub data Outcome (T : Type 0) : Type 0 where
  config : T → Outcome T
  help : Text → Outcome T
  print_config : Text → Outcome T

abbrev pub lift {ℓ} : {A : Type ℓ} → Result Refusal A → Result Fault A
lift (ok a) = ok a
lift (err r) = err (Fault.refused r)

module _ {T : Type 0} (files : Files) (r : Root T) where
  -- What follows the merge.
  unfoldable pub finish : Bool → Values → Result Fault (Outcome T)
  unfolding enforce
  finish show_config v =
      if show_config
      then ok (Outcome.print_config (Help.print_config v))
      else do t ← r.from_values v; enforce v (r.deployment t); ok (config t)

  unfoldable pub after_args : List (Text × Text) → Parsed → Result Fault (Outcome T)
  unfolding merge finish
  after_args env p =
      if p.help
      then ok (Outcome.help (Help.help r.app r.bin r.schema))
      else do v ← lift (merge files r.app r.schema p env); finish p.print_config v

  unfoldable pub load_from : List Text → List (Text × Text) → Result Fault (Outcome T)
  unfolding after_args Args.parse
  load_from args env = do p ← lift (Args.parse r.schema args); after_args env p
