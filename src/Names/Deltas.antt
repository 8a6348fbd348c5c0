-- ===== src/Names/Deltas.antt =====
-- crates/names/src/feed.rs and lib.rs: renames, and the columns that hold names.
use common_rust.Prelude.{Bool, List, ◌&&◌}
use common_rust.Prelude.Text.{Text, is_empty}

pub record Rename : Type 0 where
  pub old : Text
  pub current : Text

pub record NameDeltas : Type 0 where
  pub now : Text
  pub users : List Rename
  pub groups : List Rename

-- `NameDeltas::is_empty`
unfoldable pub has_none : NameDeltas → Bool
has_none d = is_empty d.users && is_empty d.groups

pub data NameKind : Type 0 where
  user group : NameKind

pub record NameTarget : Type 0 where
  pub table : Text
  pub column : Text
  pub kind : NameKind
