-- ===== src/Config/Derive/Expand.antt =====
-- crates/config-derive/src/lib.rs: what `#[derive(Config)]` makes of a struct. The items stand for the
-- statements of the generated `schema` and the fields of the generated `from_values`.
use common_rust.Prelude.{
  Bool, true, false, ◌&&◌, ◌||◌, Option, none, some, List, [], ◌∷◌, ◌++◌, ◌==◌, list_eq, nat_eq,
  if◌then◌else◌, map,
}
use common_rust.Prelude.Result.{Result, ok, err, ◌>>=◌}
use common_rust.Prelude.Text.{Text, codes, is_empty, is_some, trim, join, ascii_lower}
use common_rust.Config.Schema.{Presence, Class, Kind}
use common_rust.Config.Class.{deployment_variable, deployment_accepted}
use common_rust.Macros.{
  Ty, Attribute, keyed, doc, SynField, SynData, named_struct, other_data, DeriveInput, MacroError,
  refused,
}
use common_rust.Config.Derive.Attrs.{RootAttrs, FieldAttrs, root_attrs, field_attrs}
use common_rust.Config.Derive.Rules.{Shape, shape, class, presence}

abbrev with_line : Text → List Text → List Text
with_line line lines = if is_empty (trim line) then lines else trim line ∷ lines

unfoldable pub doc_lines : List Attribute → List Text
unfolding trim
doc_lines [] = []
doc_lines (doc (some t) ∷ attrs) = with_line t (doc_lines attrs)
doc_lines (doc none ∷ attrs) = doc_lines attrs
doc_lines (keyed name ms ∷ attrs) = doc_lines attrs

abbrev pub doc_text : List Attribute → Text
doc_text attrs = join (codes " ") (doc_lines attrs)

-- What a field becomes: a call of the inner type's code, or a field of the schema with its read.
pub record Leaf : Type 0 where
  pub help : Text
  pub presence : Presence
  pub class : Class
  pub secret : Bool
  pub kind : Kind
  pub env : Option Text
  pub shape : Shape
  pub accepted : Option Text

pub data Item : Type 0 where
  nested : Text → Ty → Item
  leaf : Text → Leaf → Item

pub record Expansion : Type 0 where
  pub items : List Item
  pub root : Option (Text × Text)

abbrev pub kind_of : Shape → Kind
kind_of Shape.bool = Kind.bool
kind_of Shape.opt_bool = Kind.bool
kind_of (Shape.opt t) = Kind.text
kind_of (Shape.plain t) = Kind.text

abbrev pub has_other_key : FieldAttrs → Bool
has_other_key a =
    is_some a.default
    || (a.required || (a.secret || (a.prod_required || (a.dev_only || is_some a.accepted))))

abbrev pub nested_item : SynField → FieldAttrs → Result MacroError Item
nested_item f a =
    if has_other_key a
    then err (
        refused (
          codes
            "#[config(nested)] takes no other #[config] key: the inner struct declares its own"))
    else ok (nested f.ident f.ty)

abbrev pub deployment_help : Text
deployment_help =
    codes "Deployment class: prod or dev. Sets the default log verbosity; which options are "
    ++ codes "prod-required or dev-only is the binary's own rule."

abbrev help_or : Text → Bool → Text
help_or [] true = deployment_help
help_or [] false = []
help_or (c ∷ s) is_deployment = c ∷ s

abbrev pub leaf_of : SynField → FieldAttrs → Bool → Presence → Class → Leaf
leaf_of f a is_deployment p c = record {
  help = help_or (doc_text f.attrs) is_deployment;
  presence = p;
  class = c;
  secret = a.secret;
  kind = kind_of (shape f.ty);
  env = a.env;
  shape = shape f.ty;
  accepted = if is_deployment then some deployment_accepted else a.accepted;
}

abbrev pub leaf_item : SynField → FieldAttrs → Bool → Result MacroError Item
leaf_item f a is_deployment = do
  p ← presence (shape f.ty) a
  c ← class (shape f.ty) a
  ok (leaf f.ident (leaf_of f a is_deployment p c))

abbrev pub deployment_item : SynField → FieldAttrs → Result MacroError Item
deployment_item f a =
    if is_some a.default || is_some a.accepted
    then err (
        refused (
          codes "a root's `deployment` field is spelled by common-config (DEPLOYMENT_TYPE, "
          ++ codes "required): it takes no default or accepted"))
    else leaf_item f (record a { required = true; env = some deployment_variable }) true

abbrev pub is_deployment_field : Bool → Text → Bool
is_deployment_field is_root ident = is_root && (ident == codes "deployment")

abbrev pub item_as : Bool → Bool → SynField → FieldAttrs → Result MacroError Item
item_as true is_deployment f a = nested_item f a
item_as false true f a = deployment_item f a
item_as false false f a = leaf_item f a false

-- the body of the loop over the fields
unfoldable pub item_of : Bool → SynField → FieldAttrs → Result MacroError Item
unfolding shape presence class doc_lines join
item_of is_root f a = item_as a.nested (is_deployment_field is_root f.ident) f a

unfoldable pub items_of : Bool → List SynField → Result MacroError (List Item)
unfolding item_of field_attrs
items_of is_root [] = ok []
items_of is_root (f ∷ fs) = do
  a ← field_attrs f.attrs
  item ← item_of is_root f a
  items ← items_of is_root fs
  ok (item ∷ items)

abbrev pub is_deployment_item : Item → Bool
is_deployment_item (nested name ty) = false
is_deployment_item (leaf name l) = name == codes "deployment"

unfoldable pub has_deployment : List Item → Bool
has_deployment [] = false
has_deployment (item ∷ items) = is_deployment_item item || has_deployment items

abbrev pub bin_or : Text → Option Text → Text
bin_or app (some bin) = bin
bin_or app none = map ascii_lower app

abbrev pub rooted : RootAttrs → List Item → Option Text → Result MacroError Expansion
rooted r items none = ok (record { items = items; root = none })
rooted r items (some app) =
    if has_deployment items
    then ok (record { items = items; root = some (app, bin_or app r.bin) })
    else err
        (refused (codes "#[config(app = …)] needs a `deployment: common_config::Deployment` field"))

abbrev pub fields_of : SynData → Result MacroError (List SynField)
fields_of (named_struct fields) = ok fields
fields_of other_data = err (refused (codes "#[derive(Config)] needs a struct with named fields"))

unfoldable pub expand : DeriveInput → Result MacroError Expansion
unfolding root_attrs items_of has_deployment ascii_lower
expand input = do
  r ← root_attrs input.attrs
  fields ← fields_of input.items
  items ← items_of (is_some r.app) fields
  rooted r items r.app
