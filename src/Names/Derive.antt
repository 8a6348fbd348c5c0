-- ===== src/Names/Derive.antt =====
-- crates/names-derive/src/lib.rs: what `#[derive(NameColumns)]` makes of a struct, the table of the
-- columns that hold names.
pub mod Marked
pub mod Marks
mod Tests
use common_rust.Prelude.{
  Option, none, some, List, [], ◌∷◌, ◌++◌, ◌==◌, list_eq, nat_eq, if◌then◌else◌,
}
use common_rust.Prelude.Result.{Result, ok, err, ◌>>=◌, ◌>>◌}
use common_rust.Prelude.Text.{Text, codes}
use common_rust.Macros.{
  Attribute, keyed, doc, Meta, SynField, SynData, named_struct, other_data, DeriveInput, MacroError,
  refused, fold_attrs, text_value, no_value,
}
use common_rust.Names.Deltas.{NameKind, user, group, NameTarget}

abbrev pub table_meta : Meta → Option Text → Result MacroError (Option Text)
table_meta m table =
    if m.key == codes "table"
    then text_value m.value >>= (λ t. ok (some t))
    else err (refused (codes "unknown #[names] key on a struct: expected `table`"))

abbrev pub table_or_refuse : Option Text → Result MacroError Text
table_or_refuse none =
    err
      (refused (codes "#[derive(NameColumns)] needs #[names(table = \"…\")] naming the SQL table"))
table_or_refuse (some t) = ok t

unfoldable pub table_attr : List Attribute → Result MacroError Text
unfolding fold_attrs
table_attr attrs = fold_attrs (codes "names") table_meta attrs none >>= table_or_refuse

abbrev pub kind_meta : Meta → Option NameKind → Result MacroError (Option NameKind)
kind_meta m kind =
    if m.key == codes "user"
    then no_value m.value >> ok (some user)
    else if m.key == codes "group"
    then no_value m.value >> ok (some group)
    else err (refused (codes "unknown #[name] kind on a field: expected `user` or `group`"))

unfoldable pub field_kind : List Attribute → Result MacroError (Option NameKind)
unfolding fold_attrs
field_kind attrs = fold_attrs (codes "name") kind_meta attrs none

abbrev pub with_target : Text → Text → Option NameKind → List NameTarget → List NameTarget
with_target table column none targets = targets
with_target table column (some kind) targets =
    (record { table = table; column = column; kind = kind }) ∷ targets

-- the loop over the fields
unfoldable pub targets_of : Text → List SynField → Result MacroError (List NameTarget)
unfolding field_kind
targets_of table [] = ok []
targets_of table (f ∷ fs) = do
  kind ← field_kind f.attrs
  targets ← targets_of table fs
  ok (with_target table f.ident kind targets)

abbrev pub fields_of : SynData → Result MacroError (List SynField)
fields_of (named_struct fields) = ok fields
fields_of other_data =
    err (refused (codes "#[derive(NameColumns)] needs a struct with named fields"))

-- What the generated `name_targets` returns.
unfoldable pub name_targets : DeriveInput → Result MacroError (List NameTarget)
unfolding table_attr targets_of
name_targets input = do
  table ← table_attr input.attrs
  fields ← fields_of input.items
  targets_of table fields
