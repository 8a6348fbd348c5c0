-- ===== src/Names/Derive/Tests.antt =====
-- A row of documents, the columns of it that hold names, and the theorem on them applied.
use common_rust.Prelude.{some, List, [], ◌∷◌, list_eq, nat_eq, list_beq, ◌≡◌, ◌↔◌, refl, Elem}
use common_rust.Prelude.Result.{ok}
use common_rust.Prelude.Text.{Text, codes}
use common_rust.Macros.{Ty, flag, literal, keyed, SynField, named_struct, DeriveInput}
use common_rust.Names.Deltas.{NameKind, NameTarget}
use common_rust.Names.Derive.{name_targets}
use common_rust.Names.Derive.Marks.{HasTable}
use common_rust.Names.Derive.Marked.{IsMarked, name_targets-IsMarked}

abbrev docs_input : DeriveInput
docs_input = record {
  ident = codes "Doc";
  attrs =
      keyed (codes "names")
        (some (record { key = codes "table"; value = literal (codes "docs") } ∷ []))
      ∷ [];
  items = named_struct (
      record { ident = codes "id"; ty = Ty.other (codes "i64"); attrs = [] }
      ∷ record {
        ident = codes "owner";
        ty = Ty.other (codes "String");
        attrs = keyed (codes "name") (some (record { key = codes "user"; value = flag } ∷ [])) ∷ [];
      }
      ∷ []);
}

abbrev docs_targets : List NameTarget
docs_targets = record { table = codes "docs"; column = codes "owner"; kind = NameKind.user } ∷ []

docs_name_targets : name_targets docs_input ≡ ok docs_targets
unfolding name_targets list_beq
docs_name_targets = refl

name_targets-IsMarked_example :
    (table : Text) × (fields : List SynField) × HasTable docs_input.attrs table
    × (docs_input.items ≡ named_struct fields)
    × ((t : NameTarget) → Elem t docs_targets ↔ IsMarked table fields t)
name_targets-IsMarked_example = name_targets-IsMarked docs_input docs_name_targets
