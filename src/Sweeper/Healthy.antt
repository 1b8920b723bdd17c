-- ===== src/Sweeper/Healthy.antt =====
-- The sweeper over the SQL store and the transactional purge: its calls do not fail while the
-- database carries every call out.
use native.Mathlib.Omega.{arith}
use mattermost_plugin_messag.Base.{ℕ, ◌≡◌, refl, ◌∙◌, some, List, [], ◌∷◌, length, Text, ok}
use mattermost_plugin_messag.Int64.{ℤ, ◌≤ℤ◌}
use mattermost_plugin_messag.Database.{Entry, Table, Db, table, change, query}
use mattermost_plugin_messag.ExpireStore.{
  OrderBy, new_sql_store, get_expired, delete_by_post_ids, delete_rows, expired_rows,
}
use mattermost_plugin_messag.ExpireStore.Contract.{sql_store-IsLawful}
use mattermost_plugin_messag.Purge.{
  Footprint, footprint, delete_all, delete_from, purge, PurgeError,
}
use mattermost_plugin_messag.Purge.Atomic.{expire-purge}
use mattermost_plugin_messag.Sweeper.{Sweeper, SweepLog, Logger, new}
use mattermost_plugin_messag.Sweeper.Ticks.{IsLawfulSweeper}
use mattermost_plugin_messag.Sweeper.Drain.{NeverFails}

-- The index exists, and every call to come is done.
pub record IsHealthy {Row : Type 0} (db : Db Row) : Type 0 where
  pub no_faults : db.outcomes ≡ []
  pub rows : Table
  pub migrated : db.expire ≡ some rows

module _ {Row : Type 0} (column : Text → Row → Text) (order : OrderBy) where
  get_expired-IsHealthy :
      (now : ℤ) (n : ℕ) (db : Db Row)
      → IsHealthy db
      → ((l : List Entry) × ((get_expired order now n db).0 ≡ ok l))
        × IsHealthy (get_expired order now n db).1
  unfolding get_expired query
  get_expired-IsHealthy now n db h = (
    (expired_rows order now n h.rows, ground arith),
    record { no_faults = ground arith; rows = h.rows; migrated = ground arith },
  )

  delete-IsHealthy :
      (ids : List Text) (db : Db Row)
      → IsHealthy db
      → ((delete_by_post_ids order ids db).0 ≡ ok tt)
        × IsHealthy (delete_by_post_ids order ids db).1
  unfolding delete_by_post_ids change
  delete-IsHealthy [] db h = (refl, h)
  delete-IsHealthy (id ∷ ids) db h = (
    ground arith,
    record {
      no_faults = ground arith;
      rows = delete_rows (id ∷ ids) h.rows;
      migrated = ground arith;
    },
  )

  delete_all_healthy :
      (fs : List Footprint) (ids : List Text) (tx : Db Row)
      → tx.outcomes ≡ []
      → ((delete_all column fs ids tx).0 ≡ ok tt) × ((delete_all column fs ids tx).1.outcomes ≡ [])
  unfolding delete_all
  delete_all_healthy [] ids tx h = (refl, h)
  delete_all_healthy (f ∷ fs) ids tx h =
      let deleted : Db Row = record tx { rows = delete_from column f ids tx.rows } in
      ground (arith, delete_all_healthy fs ids deleted)

  purge-IsHealthy :
      (ids : List Text) (db : Db Row)
      → IsHealthy db
      → ((n : ℕ) × ((purge column ids db).0 ≡ ok n)) × IsHealthy (purge column ids db).1
  unfolding purge
  purge-IsHealthy [] db h = ((0, refl), h)
  purge-IsHealthy (id ∷ ids) db h =
      let all_done = delete_all_healthy footprint (id ∷ ids) db h.no_faults in
      (
        (length (id ∷ ids), ground arith),
        record {
          no_faults = ground arith;
          rows = h.rows;
          migrated = expire-purge column (id ∷ ids) db ∙ h.migrated;
        },
      )

  module _ (log_error : Logger (Db Row) PurgeError) (size : ℤ) (now : Db Row → ℤ) where
    abbrev pub sql_sweeper : Sweeper (Db Row) PurgeError
    sql_sweeper = new (new_sql_store order) (purge column) log_error size now

    pub sql_sweeper-IsLawful :
        ((m : SweepLog PurgeError) (db : Db Row) → table (log_error m db) ≡ table db)
        → IsLawfulSweeper sql_sweeper table
    sql_sweeper-IsLawful quiet = record {
      index = sql_store-IsLawful order;
      purge_keeps = λ ids db. ground (arith, expire-purge column ids db);
      log_keeps = quiet;
    }

    pub sql_sweeper-NeverFails :
        (t : ℤ) → ((db : Db Row) → IsHealthy db → t ≤ℤ now db) → NeverFails sql_sweeper t IsHealthy
    sql_sweeper-NeverFails t late = record {
      late = late;
      reads = get_expired-IsHealthy;
      purges = purge-IsHealthy;
      deletes = delete-IsHealthy;
    }
