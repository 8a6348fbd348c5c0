-- ===== src/Config/Load/Safety.antt =====
-- What holds of a configuration that the pipeline hands to the program.
use common_rust.Prelude.{Bool, true, false, List, ◌≡◌, refl, arith, All}
use common_rust.Prelude.Result.{ok, bind-eq-ok}
use common_rust.Prelude.Text.{Text}
use common_rust.Config.Schema.{Field}
use common_rust.Config.Args
use common_rust.Config.Args.{Parsed}
use common_rust.Config.File.{Files}
use common_rust.Config.Layers.{merge}
use common_rust.Config.Values.{Values}
use common_rust.Config.Class.{Deployment, prod, dev, enforce}
use common_rust.Config.Class.Gate.{IsPermitted, enforce_iff}
use common_rust.Config.Load.NoPanic.{lift-eq-ok}
use common_rust.Config.Load.{Root, config, lift, finish, after_args, load_from}

-- What a deployment asks of the merged table: development asks nothing.
abbrev pub PermittedUnder : Deployment → Values → Type 0
PermittedUnder dev v = Unit
PermittedUnder prod v = All (λ (f : Field). IsPermitted f.class f.kind (v.entries f.path)) v.fields

module _ {T : Type 0} (files : Files) (r : Root T) (args : List Text)
    (env : List (Text × Text)) where
  -- `t` comes from the parsed arguments, the merged table and the typed parse, neither help nor a
  -- dump was asked for, and a production deployment has what it requires and nothing forbidden.
  pub record IsLoaded (t : T) : Type 0 where
    pub parsed : Parsed
    pub values : Values
    pub is_parsed : Args.parse r.schema args ≡ ok parsed
    pub no_help : parsed.help ≡ false
    pub no_dump : parsed.print_config ≡ false
    pub is_merged : merge files r.app r.schema parsed env ≡ ok values
    pub is_typed : r.from_values values ≡ ok t
    pub is_permitted : PermittedUnder (r.deployment t) values

  -- What `finish` has checked.
  record IsFinished (show_config : Bool) (v : Values) (t : T) : Type 0 where
    shown : show_config ≡ false
    typed : r.from_values v ≡ ok t
    enforced : enforce v (r.deployment t) ≡ ok tt

  finish-IsFinished :
      (show_config : Bool) (v : Values) (t : T)
      → finish files r show_config v ≡ ok (config t)
      → IsFinished show_config v t
  unfolding finish
  finish-IsFinished true v t h = cc
  finish-IsFinished false v t h =
      let (t', typed, later) = bind-eq-ok (r.from_values v) _ h in
      let (_, passed, done) = bind-eq-ok (enforce v (r.deployment t')) _ later in
      let same : t' ≡ t = cc in record { shown = refl; typed = cc; enforced = rw (← same) passed }

  enforce-PermittedUnder : (v : Values) (d : Deployment) → enforce v d ≡ ok tt → PermittedUnder d v
  enforce-PermittedUnder v dev h = tt
  enforce-PermittedUnder v prod h = (enforce_iff v).0 h

  -- `load_from` returns a configuration only if it is loaded in that sense.
  pub load_from-IsLoaded : (t : T) → load_from files r args env ≡ ok (config t) → IsLoaded t
  unfolding load_from after_args finish
  load_from-IsLoaded t h =
      let (p, parsed, later) =
        bind-eq-ok (lift (Args.parse r.schema args)) (after_args files r env) h in
      let no_help : p.help ≡ false = ground (arith, later) in
      let (v, merged, finished) =
        bind-eq-ok (lift (merge files r.app r.schema p env)) (finish files r p.print_config)
          (rw (no_help, after_args) at later) in
      let f = finish-IsFinished p.print_config v t finished in
      record {
        parsed = p;
        values = v;
        is_parsed = lift-eq-ok _ parsed;
        no_help = no_help;
        no_dump = f.shown;
        is_merged = lift-eq-ok _ merged;
        is_typed = f.typed;
        is_permitted = enforce-PermittedUnder v (r.deployment t) f.enforced;
      }
