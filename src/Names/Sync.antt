-- ===== src/Names/Sync.antt =====
-- crates/names/src/sync.rs: one cycle of the background loop. The database's statements, the feed
-- and the time library are functions in records. A statement of a transaction changes what the
-- transaction sees, and a commit stores that.
pub mod Cycle
use common_rust.Prelude.{ℕ, ◌*◌, Option, none, some, if◌then◌else◌}
use common_rust.Prelude.Result.{Result, ok, err, ◌>>=◌}
use common_rust.Prelude.Text.{Text}
use common_rust.Names.Deltas.{NameDeltas, has_none}

-- Seconds.
abbrev pub overlap : ℕ
overlap = 5 * 60

pub record Database (D : Type 0) : Type 0 where
  pub ensure_cursor_table : D → Result Text D
  pub load_cursor : D → Result Text (Option Text)
  pub store_cursor : Text → D → Result Text D
  pub begin : D → Result Text D
  pub commit : D → Result Text D

-- A transaction that is open: the database as it is stored, and as the transaction sees it.
pub record Open (D : Type 0) : Type 0 where
  pub stored : D
  pub tx : D

pub record Feed (W : Type 0) : Type 0 where
  pub changes_since : Option Text → W → Result Text NameDeltas × W

pub record Rfc3339 (T : Type 0) : Type 0 where
  pub parse : Text → Option T
  pub back : ℕ → T → T
  pub format : T → Option Text

abbrev format_back : {T : Type 0} → Rfc3339 T → Option T → Option Text
format_back time none = none
format_back time (some at) = time.format (time.back overlap at)

unfoldable pub overlapped : {T : Type 0} → Rfc3339 T → Text → Option Text
overlapped time cursor = format_back time (time.parse cursor)

abbrev earlier_or : Option Text → Text → Text
earlier_or none cursor = cursor
earlier_or (some earlier) cursor = earlier

-- What the feed is asked with.
unfoldable pub since_of : {T : Type 0} → Rfc3339 T → Option Text → Option Text
unfolding overlapped
since_of time none = none
since_of time (some cursor) = some (earlier_or (overlapped time cursor) cursor)

module _ {D : Type 0} (database : Database D) (apply : NameDeltas → D → Result Text D) where
  abbrev pub applied : NameDeltas → D → Result Text D
  applied deltas tx = if has_none deltas then ok tx else apply deltas tx

  -- A statement on the transaction, which the stored database does not see.
  abbrev ran : Result Text D → Open D → Result Text (Unit {0}) × Open D
  ran (err e) s = (err e, s)
  ran (ok next) s = (ok tt, record s { tx = next })

  abbrev pub in_tx : (D → Result Text D) → Open D → Result Text (Unit {0}) × Open D
  in_tx statement s = ran (statement s.tx) s

  -- `tx.commit()`: what the transaction holds is stored.
  abbrev committed : Result Text D → Open D → Result Text (Unit {0}) × Open D
  committed (err e) s = (err e, s)
  committed (ok next) s = (ok tt, record { stored = next; tx = next })

  abbrev pub commit : Open D → Result Text (Unit {0}) × Open D
  commit s = committed (database.commit s.tx) s

  -- `?`: the next step, unless this one failed.
  abbrev pub then_step :
      Result Text (Unit {0}) × Open D
      → (Open D → Result Text (Unit {0}) × Open D)
      → Result Text (Unit {0}) × Open D
  then_step (err e, s) next = (err e, s)
  then_step (ok _, s) next = next s

  unfoldable pub transaction : NameDeltas → Open D → Result Text (Unit {0}) × Open D
  unfolding has_none
  transaction deltas s =
      then_step (then_step (in_tx (applied deltas) s) (in_tx (database.store_cursor deltas.now)))
        commit

  -- However the function returns, the transaction is dropped, and what is stored is left.
  abbrev pub dropped : Result Text (Unit {0}) × Open D → Result Text (Unit {0}) × D
  dropped (r, s) = (r, s.stored)

  abbrev pub with_tx : Result Text D → NameDeltas → D → Result Text (Unit {0}) × D
  with_tx (err e) deltas d = (err e, d)
  with_tx (ok tx) deltas d = dropped (transaction deltas (record { stored = d; tx = tx }))

  unfoldable pub commit_cycle : NameDeltas → D → Result Text (Unit {0}) × D
  unfolding transaction
  commit_cycle deltas d = with_tx (database.begin d) deltas d

  module _ {W T : Type 0} (feed : Feed W) (time : Rfc3339 T) where
    abbrev pub with_deltas : Result Text NameDeltas × W → D → Result Text (Unit {0}) × (D × W)
    with_deltas (err e, w) d = (err e, (d, w))
    with_deltas (ok deltas, w) d = let (r, next) = commit_cycle deltas d in (r, (next, w))

    abbrev pub with_cursor : Result Text (Option Text) → D → W → Result Text (Unit {0}) × (D × W)
    with_cursor (err e) d w = (err e, (d, w))
    with_cursor (ok cursor) d w = with_deltas (feed.changes_since (since_of time cursor) w) d

    abbrev pub with_table : Result Text D → D → W → Result Text (Unit {0}) × (D × W)
    with_table (err e) d w = (err e, (d, w))
    with_table (ok ready) d w = with_cursor (database.load_cursor ready) ready w

    unfoldable pub run_cycle : D × W → Result Text (Unit {0}) × (D × W)
    unfolding commit_cycle since_of
    run_cycle (d, w) = with_table (database.ensure_cursor_table d) d w
