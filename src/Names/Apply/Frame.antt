-- ===== src/Names/Apply/Frame.antt =====
-- What renames leave alone.
use common_rust.Prelude.{ℕ, ◌+◌, List, [], ◌∷◌, if◌then◌else◌, ◌≡◌, ◌∙◌, ◌⊎◌, inl, inr, All}
use Prim.Native.Nat.{◌%◌}
use common_rust.Prelude.Result.{Result, ok, err, bind-eq-ok}
use common_rust.Prelude.Text.{Text, is_empty}
use common_rust.Names.Deltas.{NameKind, user, group, Rename, NameDeltas, NameTarget}
use common_rust.Names.Apply.{
  word, renames_of, with_context, apply_renames, apply_targets, apply_column_renames,
}

-- No renames of a kind: what the feed holds of people, or what it holds of groups, is empty.
abbrev pub NoRenames : NameKind → NameDeltas → Type 0
NoRenames user deltas = deltas.users ≡ []
NoRenames group deltas = deltas.groups ≡ []

renames_of-NoRenames :
    (kind : NameKind) (deltas : NameDeltas) → NoRenames kind deltas → renames_of kind deltas ≡ []
renames_of-NoRenames user deltas h = h
renames_of-NoRenames group deltas h = h

module _ {D V : Type 0} (update : Text → Text → Text → Text → D → Result Text (ℕ × D))
    (view : D → V) where
  -- An update of the column of the target leaves the view, whatever the names.
  abbrev pub Keeps : NameTarget → Type 0
  Keeps t =
      (current old : Text) (d : D) (n : ℕ) (next : D)
      → update t.table t.column current old d ≡ ok (n, next)
      → view next ≡ view d

  -- Updates of the target's column leave the view, or there are no renames of its kind.
  abbrev pub Spares : NameDeltas → NameTarget → Type 0
  Spares deltas t = Keeps t ⊎ NoRenames t.kind deltas

  with_context-eq-ok :
      (t : NameTarget) (r : Rename) (m : Result Text (ℕ × D)) {x : ℕ × D}
      → with_context update t r m ≡ ok x
      → m ≡ ok x
  with_context-eq-ok t r (ok x) h = h
  with_context-eq-ok t r (err e) h = cc

  renames_frame :
      (t : NameTarget) (rs : List Rename) (changed : ℕ) (d : D) {n : ℕ} {next : D}
      → Keeps t
      → apply_renames update t rs changed d ≡ ok (n, next)
      → view next ≡ view d
  unfolding apply_renames
  renames_frame t [] changed d away h = cc h
  renames_frame t (r ∷ rs) changed d away h =
      let ((n, mid), done, later) = bind-eq-ok _ _ h in
      let one = away r.current r.old d n mid (with_context-eq-ok t r _ done) in
      renames_frame t rs ((changed + n) % word) mid away later ∙ one

  target_frame :
      (t : NameTarget) (rs : List Rename) (changed : ℕ) (d : D) {n : ℕ} {next : D}
      → Keeps t ⊎ (rs ≡ [])
      → (if is_empty rs then ok (changed, d) else apply_renames update t rs changed d)
        ≡ ok (n, next)
      → view next ≡ view d
  target_frame t [] changed d spares h = cc h
  target_frame t (r ∷ rs) changed d (inl away) h = renames_frame t (r ∷ rs) changed d away h
  target_frame t (r ∷ rs) changed d (inr none_) h = absurd (cc none_)

  by_renames :
      (t : NameTarget) (deltas : NameDeltas)
      → Spares deltas t
      → Keeps t ⊎ (renames_of t.kind deltas ≡ [])
  by_renames t deltas (inl keeps) = inl keeps
  by_renames t deltas (inr none_) = inr (renames_of-NoRenames t.kind deltas none_)

  targets_frame :
      (ts : List NameTarget) (deltas : NameDeltas) (changed : ℕ) (d : D) {n : ℕ} {next : D}
      → All (Spares deltas) ts
      → apply_targets update ts deltas changed d ≡ ok (n, next)
      → view next ≡ view d
  unfolding apply_targets
  targets_frame [] deltas changed d spares h = cc h
  targets_frame (t ∷ ts) deltas changed d (s, ss) h =
      let ((n, mid), done, later) = bind-eq-ok _ _ h in
      targets_frame ts deltas n mid ss later
      ∙ target_frame t (renames_of t.kind deltas) changed d (by_renames t deltas s) done

  -- Renames that succeed leave a view of the database, when for each of their targets, updates of
  -- its column leave the view or the feed has no renames of its kind.
  pub apply_column_renames_frame :
      (targets : List NameTarget) (deltas : NameDeltas) (d : D) (n : ℕ) (next : D)
      → All (Spares deltas) targets
      → apply_column_renames update targets deltas d ≡ ok (n, next)
      → view next ≡ view d
  unfolding apply_column_renames
  apply_column_renames_frame targets deltas d n next spares h =
      targets_frame targets deltas 0 d spares h
