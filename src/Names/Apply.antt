-- ===== src/Names/Apply.antt =====
-- crates/names/src/apply.rs: renames applied to columns. The `UPDATE` of one column, on the
-- database that the transaction sees, is a function: it gives the rows changed, or an error.
pub mod Frame
use common_rust.Prelude.{ℕ, ◌+◌, Bool, List, [], ◌∷◌, ◌++◌, if◌then◌else◌}
use Prim.Native.Nat.{◌%◌}
use common_rust.Prelude.Result.{Result, ok, err, ◌>>=◌}
use common_rust.Prelude.Text.{Text, codes, is_empty}
use common_rust.Names.Deltas.{Rename, NameDeltas, NameKind, user, group, NameTarget}

-- `u64`
abbrev pub word : ℕ
word = 0x10000000000000000

abbrev pub renames_of : NameKind → NameDeltas → List Rename
renames_of user d = d.users
renames_of group d = d.groups

module _ {D : Type 0} (update : Text → Text → Text → Text → D → Result Text (ℕ × D)) where
  abbrev pub with_context : NameTarget → Rename → Result Text (ℕ × D) → Result Text (ℕ × D)
  with_context t r (ok x) = ok x
  with_context t r (err e) = err (
      codes "renaming "
      ++ (t.table
          ++ (codes "."
              ++ (t.column
                  ++ (codes " "
                      ++ (r.old ++ (codes " -> " ++ (r.current ++ (codes ": " ++ e)))))))))

  -- the loop over the renames
  unfoldable pub apply_renames : NameTarget → List Rename → ℕ → D → Result Text (ℕ × D)
  apply_renames t [] changed d = ok (changed, d)
  apply_renames t (r ∷ rs) changed d = do
    (n, next) ← with_context t r (update t.table t.column r.current r.old d)
    apply_renames t rs ((changed + n) % word) next

  -- the loop over the targets
  unfoldable pub apply_targets : List NameTarget → NameDeltas → ℕ → D → Result Text (ℕ × D)
  unfolding apply_renames
  apply_targets [] deltas changed d = ok (changed, d)
  apply_targets (t ∷ ts) deltas changed d = do
    (n, next) ←
        if is_empty (renames_of t.kind deltas)
        then ok (changed, d)
        else apply_renames t (renames_of t.kind deltas) changed d
    apply_targets ts deltas n next

  unfoldable pub apply_column_renames : List NameTarget → NameDeltas → D → Result Text (ℕ × D)
  unfolding apply_targets
  apply_column_renames targets deltas d = apply_targets targets deltas 0 d
