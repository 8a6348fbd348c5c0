-- ===== src/Names/Sync/Cycle.antt =====
-- What a cycle leaves behind, when it succeeds and when it fails.
use common_rust.Prelude.{
  true, Bool-cases, List, [], ◌∷◌, Option, some, ◌≡◌, refl, ◌∙◌, ◌⊎◌, inl, inr,
}
use common_rust.Prelude.Result.{Result, ok, err, Result-cases}
use common_rust.Prelude.Text.{Text, is_empty}
use common_rust.Names.Deltas.{NameDeltas, has_none}
use common_rust.Names.Sync.{
  Database, Feed, Rfc3339, since_of, applied, transaction, commit_cycle, with_tx, dropped,
  with_deltas, with_cursor, with_table, run_cycle,
}

-- The consumer's tables are rewritten by all of the answer, or the answer says nothing to rewrite.
abbrev pub IsApplied : {D : Type 0} → (NameDeltas → D → Result Text D) → NameDeltas → D → D → Type 0
IsApplied apply deltas tx changed =
    (apply deltas tx ≡ ok changed) ⊎ ((deltas.users ≡ []) × (deltas.groups ≡ []) × (changed ≡ tx))

is_empty-eq-true : {A : Type 0} (l : List A) → is_empty l ≡ true → l ≡ []
is_empty-eq-true [] h = refl
is_empty-eq-true (x ∷ l) h = cc

has_none-eq-true :
    (deltas : NameDeltas) → has_none deltas ≡ true → (deltas.users ≡ []) × (deltas.groups ≡ [])
unfolding has_none
has_none-eq-true deltas h = elim (Bool-cases (is_empty deltas.users)) [
  | inl u ↦ (is_empty-eq-true deltas.users u, is_empty-eq-true deltas.groups (rw u at h))
  | inr u ↦ absurd (cc (rw u at h))
]

module _ {D W T R : Type 0} (database : Database D) (apply : NameDeltas → D → Result Text D)
    (feed : Feed W) (time : Rfc3339 T) (rows : D → R) where
  -- The table is there, the feed answered what it was asked with for the stored cursor, all of the
  -- answer was applied in a transaction, the rows that this left are stored, and the answer's time
  -- is the cursor now.
  pub record IsAdvanced (d : D) (w : W) (next : D) : Type 0 where
    pub ready : D
    pub cursor : Option Text
    pub deltas : NameDeltas
    pub tx : D
    pub changed : D
    pub is_ready : database.ensure_cursor_table d ≡ ok ready
    pub is_cursor : database.load_cursor ready ≡ ok cursor
    pub is_answer : (feed.changes_since (since_of time cursor) w).0 ≡ ok deltas
    pub is_begun : database.begin ready ≡ ok tx
    pub is_applied : IsApplied apply deltas tx changed
    pub keeps_rows : rows next ≡ rows changed
    pub is_stored : database.load_cursor next ≡ ok (some deltas.now)

  -- The database is as it was, but for the table of the cursor.
  abbrev pub IsKept : D → D → Type 0
  IsKept d next = (next ≡ d) ⊎ (database.ensure_cursor_table d ≡ ok next)

  applied-IsApplied :
      (deltas : NameDeltas) (tx : D) {changed : D}
      → applied database apply deltas tx ≡ ok changed
      → IsApplied apply deltas tx changed
  applied-IsApplied deltas tx h = elim (Bool-cases (has_none deltas)) [
    | inl none_there ↦
        let (users, groups) = has_none-eq-true deltas none_there in
        inr (users, groups, (cc (rw none_there at h)))
    | inr some_there ↦ inl (rw some_there at h)
  ]

  module _
      (stores : (cursor : Text) (d next : D)
        → database.store_cursor cursor d ≡ ok next
        → (database.load_cursor next ≡ ok (some cursor)) × (rows next ≡ rows d))
      (commits : (d next : D)
        → database.commit d ≡ ok next
        → (database.load_cursor next ≡ database.load_cursor d) × (rows next ≡ rows d))
      (d : D) (w : W) where
    abbrev Outcome : Result Text (Unit {0}) × (D × W) → Type 0
    Outcome (ok _, (next, _)) = IsAdvanced d w next
    Outcome (err _, (next, _)) = IsKept d next

    abbrev outcome_of : W → Result Text (Unit {0}) × D → Result Text (Unit {0}) × (D × W)
    outcome_of u (r, next) = (r, (next, u))

    module _ (ready : D) (cursor : Option Text) (deltas : NameDeltas) (u : W)
        (t : database.ensure_cursor_table d ≡ ok ready) (c : database.load_cursor ready ≡ ok cursor)
        (f : (feed.changes_since (since_of time cursor) w).0 ≡ ok deltas) where
      tx_step :
          (tx : D)
          → database.begin ready ≡ ok tx
          → Outcome (
              outcome_of u (
                dropped database apply
                  (transaction database apply deltas (record { stored = ready; tx = tx }))))
      unfolding transaction
      tx_step tx begun = elim (Result-cases (applied database apply deltas tx)) [
        | inr (e, a) ↦ rw a (inr t)
        | inl (changed, a) ↦ elim (Result-cases (database.store_cursor deltas.now changed)) [
          | inr (e, s) ↦ rw (a, s) (inr t)
          | inl (stored, s) ↦ elim (Result-cases (database.commit stored)) [
            | inr (e, k) ↦ rw (a, s, k) (inr t)
            | inl (next, k) ↦
                let (cursor_stored, rows_stored) = stores deltas.now changed stored s in
                let (cursor_kept, rows_kept) = commits stored next k in
                rw (a, s, k)
                  (record {
                    ready = ready;
                    cursor = cursor;
                    deltas = deltas;
                    tx = tx;
                    changed = changed;
                    is_ready = t;
                    is_cursor = c;
                    is_answer = f;
                    is_begun = begun;
                    is_applied = applied-IsApplied deltas tx a;
                    keeps_rows = rows_kept ∙ rows_stored;
                    is_stored = cursor_kept ∙ cursor_stored;
                  })
          ]
        ]
      ]

      commit_step :
          (begun : Result Text D)
          → database.begin ready ≡ begun
          → Outcome (outcome_of u (with_tx database apply begun deltas ready))
      commit_step (err e) b = inr t
      commit_step (ok tx) b = tx_step tx b

    deltas_step :
        (ready : D) (cursor : Option Text) (answer : Result Text NameDeltas) (u : W)
        → database.ensure_cursor_table d ≡ ok ready
        → database.load_cursor ready ≡ ok cursor
        → (feed.changes_since (since_of time cursor) w).0 ≡ answer
        → Outcome (with_deltas database apply feed time (answer, u) ready)
    unfolding commit_cycle
    deltas_step ready cursor (err e) u t c f = inr t
    deltas_step ready cursor (ok deltas) u t c f =
        commit_step ready cursor deltas u t c f (database.begin ready) refl

    cursor_step :
        (ready : D) (loaded : Result Text (Option Text))
        → database.ensure_cursor_table d ≡ ok ready
        → database.load_cursor ready ≡ loaded
        → Outcome (with_cursor database apply feed time loaded ready w)
    cursor_step ready (err e) t c = inr t
    cursor_step ready (ok cursor) t c =
        let answer = feed.changes_since (since_of time cursor) w in
        deltas_step ready cursor answer.0 answer.1 t c refl

    table_step :
        (made : Result Text D)
        → database.ensure_cursor_table d ≡ made
        → Outcome (with_table database apply feed time made d w)
    table_step (err e) t = inl refl
    table_step (ok ready) t = cursor_step ready (database.load_cursor ready) t refl

    cycle : Outcome (run_cycle database apply feed time (d, w))
    unfolding run_cycle
    cycle = table_step (database.ensure_cursor_table d) refl

    at_result :
        (r : Result Text (Unit {0}) × (D × W))
        → Outcome r
        → ((r.0 ≡ ok tt) × IsAdvanced d w r.1.0) ⊎ ((e : Text) × (r.0 ≡ err e) × IsKept d r.1.0)
    at_result (ok tt, s) h = inl (refl, h)
    at_result (err e, s) h = inr (e, refl, h)

    -- If a stored cursor is what is loaded next and changes no rows of the consumer, and a commit
    -- keeps both, then a cycle is all or nothing: it succeeds, all of the feed's answer is applied in
    -- a transaction, the rows that this leaves are stored, and the cursor is the answer's time; or it
    -- fails, at whatever step, and the database is as it was, but for the table of the cursor.
    pub run_cycle_atomic :
        (((run_cycle database apply feed time (d, w)).0 ≡ ok tt)
          × IsAdvanced d w (run_cycle database apply feed time (d, w)).1.0)
        ⊎ ((e : Text) × ((run_cycle database apply feed time (d, w)).0 ≡ err e)
            × IsKept d (run_cycle database apply feed time (d, w)).1.0)
    run_cycle_atomic = at_result _ cycle
