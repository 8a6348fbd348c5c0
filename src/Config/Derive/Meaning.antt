-- ===== src/Config/Derive/Meaning.antt =====
-- crates/config-derive/src/lib.rs: what the generated code does, statement by statement of the two
-- functions of the impl. The impls of nested types and the types that are parsed are parameters, as
-- is the type of the values that the fields hold.
use common_rust.Prelude.{Bool, Option, none, some, List, [], ◌∷◌, ◌++◌}
use common_rust.Prelude.Result.{Result, ok, ◌>>=◌}
use common_rust.Prelude.Text.{Text}
use common_rust.Config.Path.{FieldPath, root, child, path_eq}
use common_rust.Config.Schema.{Field}
use common_rust.Config.Values
use common_rust.Config.Values.{Values, Fault}
use common_rust.Config.Class.{Deployment}
use common_rust.Config.Load.{Root}
use common_rust.Config.Derive.Rules.{Shape}
use common_rust.Config.Derive.Expand.{Leaf, Item, nested, leaf}
use common_rust.Macros.{Ty}

-- An impl of the trait `Config`.
pub record Impl (V : Type 0) : Type 0 where
  pub schema : FieldPath → List Field
  pub from_values : Values → FieldPath → Result Fault V

pub record Types (V : Type 0) : Type 0 where
  pub of_bool : Bool → V
  pub of_option : Option V → V
  pub from_str : Ty → Text → Result Text V
  pub type_name : Ty → Text
  pub impl_of : Ty → Impl V

abbrev map_option : {A B : Type 0} → (A → B) → Option A → Option B
map_option f none = none
map_option f (some a) = some (f a)

module _ {V : Type 0} (types : Types V) where
  abbrev pub field_of : Leaf → FieldPath → Field
  field_of l path = record {
    path = path;
    help = l.help;
    presence = l.presence;
    class = l.class;
    secret = l.secret;
    kind = l.kind;
    env = l.env;
  }

  abbrev pub item_schema : Item → FieldPath → List Field
  item_schema (nested name ty) prefix = (types.impl_of ty).schema (child prefix name)
  item_schema (leaf name l) prefix = field_of l (child prefix name) ∷ []

  unfoldable pub schema : List Item → FieldPath → List Field
  schema [] prefix = []
  schema (item ∷ items) prefix = item_schema item prefix ++ schema items prefix

  unfoldable pub read_leaf : Shape → Option Text → Values → FieldPath → Result Fault V
  unfolding Values.bool Values.bool_opt Values.leaf_value Values.leaf_opt
  read_leaf Shape.bool accepted v path = Values.bool v path >>= λ b. ok (types.of_bool b)
  read_leaf Shape.opt_bool accepted v path =
      Values.bool_opt v path >>= λ b. ok (types.of_option (map_option types.of_bool b))
  read_leaf (Shape.plain ty) accepted v path =
      Values.leaf_value (types.from_str ty) (types.type_name ty) v path accepted
  read_leaf (Shape.opt ty) accepted v path =
      Values.leaf_opt (types.from_str ty) (types.type_name ty) v path accepted >>= λ t.
      ok (types.of_option t)

  abbrev pub item_value : Item → Values → FieldPath → Result Fault (Text × V)
  item_value (nested name ty) v prefix =
      (types.impl_of ty).from_values v (child prefix name) >>= λ t. ok (name, t)
  item_value (leaf name l) v prefix =
      read_leaf l.shape l.accepted v (child prefix name) >>= λ t. ok (name, t)

  unfoldable pub from_values : List Item → Values → FieldPath → Result Fault (List (Text × V))
  unfolding read_leaf
  from_values [] v prefix = ok []
  from_values (item ∷ items) v prefix = do
    t ← item_value item v prefix
    ts ← from_values items v prefix
    ok (t ∷ ts)

  -- The impl of `Root`; `deployment` is the read of the struct's own field.
  unfoldable pub root_of :
      Text × Text → (List (Text × V) → Deployment) → List Item → Root (List (Text × V))
  unfolding schema from_values
  root_of (app, bin) deployment items = record {
    app = app;
    bin = bin;
    schema = schema items root;
    from_values = λ v. from_values items v root;
    deployment = deployment;
  }
