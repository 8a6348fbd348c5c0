-- ===== src/Names/Tests.antt =====
-- A database with two columns and a cursor, and the theorems on renames applied to it.
use common_rust.Prelude.{
  ℕ, suc, ◌-◌, Option, none, some, List, [], ◌∷◌, ◌==◌, list_eq, nat_eq, list_beq, if◌then◌else◌,
  ◌≡◌, refl, arith, ◌⊎◌, inl, inr, All,
}
use common_rust.Prelude.Result.{Result, ok, err}
use common_rust.Prelude.Text.{Text, codes}
use common_rust.Names.Deltas.{NameDeltas, user, group, NameTarget}
use common_rust.Names.Apply.{apply_column_renames}
use common_rust.Names.Apply.Frame.{Spares, apply_column_renames_frame}
use common_rust.Names.Sync.{Database, Feed, Rfc3339, run_cycle}
use common_rust.Names.Sync.Cycle.{IsAdvanced, IsKept, run_cycle_atomic}

pub record Tables : Type 0 where
  pub owner : Text
  pub team : Text
  pub cursor : Option Text

abbrev team_of : Tables → Text
team_of d = d.team

-- `UPDATE` of `docs.owner`; every other column is empty.
abbrev update : Text → Text → Text → Text → Tables → Result Text (ℕ × Tables)
update table column current old d =
    if (table == codes "docs")
    then ok (1, record d { owner = if d.owner == old then current else d.owner })
    else ok (0, d)

abbrev sample_deltas : NameDeltas
sample_deltas = record {
  now = codes "2024-01-01T00:00:00Z";
  users = record { old = codes "ada"; current = codes "lovelace" } ∷ [];
  groups = [];
}

abbrev sample_targets : List NameTarget
sample_targets =
    record { table = codes "docs"; column = codes "owner"; kind = user }
    ∷ record { table = codes "docs"; column = codes "team"; kind = group }
    ∷ []

abbrev sample_tables : Tables
sample_tables = record { owner = codes "ada"; team = codes "ada"; cursor = none }

-- Renames of owners leave the teams.
sample-Keeps :
    (current old : Text) (d : Tables) (n : ℕ) (next : Tables)
    → update (codes "docs") (codes "owner") current old d ≡ ok (n, next)
    → next.team ≡ d.team
unfolding list_beq
sample-Keeps current old d n next h = ground (arith, h)

sample-Spares : All (Spares update team_of sample_deltas) sample_targets
sample-Spares = (inl sample-Keeps, (inr refl, tt))

sample_apply :
    apply_column_renames update sample_targets sample_deltas sample_tables
    ≡ ok (1, record sample_tables { owner = codes "lovelace" })
unfolding apply_column_renames list_beq
sample_apply = refl

abbrev renamed_tables : Tables
renamed_tables = record sample_tables { owner = codes "lovelace" }

apply_column_renames_frame_example : renamed_tables.team ≡ sample_tables.team
apply_column_renames_frame_example =
    apply_column_renames_frame update team_of sample_targets sample_deltas sample_tables 1
      (record sample_tables { owner = codes "lovelace" }) sample-Spares sample_apply

abbrev sample_database : Database Tables
sample_database = record {
  ensure_cursor_table = ok;
  load_cursor = λ d. ok d.cursor;
  store_cursor = λ cursor d. ok (record d { cursor = some cursor });
  begin = ok;
  commit = ok;
}

abbrev sample_feed : Feed ℕ
sample_feed = record { changes_since = λ since w. (ok sample_deltas, suc w) }

abbrev sample_time : Rfc3339 ℕ
sample_time = record { parse = λ _. none; back = λ s t. t - s; format = λ _. none }

abbrev rename : NameDeltas → Tables → Result Text Tables
rename deltas d = ok (record d { owner = codes "lovelace" })

abbrev owner_of : Tables → Text
owner_of d = d.owner

run_cycle_atomic_example :
    (((run_cycle sample_database rename sample_feed sample_time (sample_tables, 0)).0 ≡ ok tt)
      × IsAdvanced sample_database rename sample_feed sample_time owner_of sample_tables 0
          (run_cycle sample_database rename sample_feed sample_time (sample_tables, 0)).1.0)
    ⊎ ((e : Text) × ((run_cycle sample_database rename sample_feed sample_time (sample_tables, 0)).0
          ≡ err e)
        × IsKept sample_database rename sample_feed sample_time owner_of sample_tables
            (run_cycle sample_database rename sample_feed sample_time (sample_tables, 0)).1.0)
run_cycle_atomic_example =
    run_cycle_atomic sample_database rename sample_feed sample_time owner_of
      (λ cursor d next h. (cc h, cc h)) (λ d next h. (cc h, cc h)) sample_tables 0
