-- ===== src/Tests/Deletion.antt =====
-- The theorems about purges and sweeps at concrete data.
use native.Mathlib.Omega.{arith}
use mattermost_plugin_messag.Base.{
  ℕ, ◌*◌, ◌≤◌, ◌≡◌, ◌⊎◌, refl, Bool, true, some, List, [], ◌∷◌, keep, Text, text, text_eq,
  text_eq_iff, ok, err,
}
use mattermost_plugin_messag.Int64.{pos}
use mattermost_plugin_messag.Database.{DbError, Db, Outcome, done, refused, table}
use mattermost_plugin_messag.Purge.{
  PurgeError, commit_failed, delete_failed, purge, footprint, delete_all,
}
use mattermost_plugin_messag.Purge.Atomic.{Untouched, Erased, purge_ok, purge_err}
use mattermost_plugin_messag.Configuration.{Configuration}
use mattermost_plugin_messag.PurgerSwitch.{
  Purger, SwitchApi, SwitchError, schema_skipped, hard_failed, hard_purge_skipped, soft_delete,
}
use mattermost_plugin_messag.PurgerSwitch
use mattermost_plugin_messag.PurgerSwitch.Routes.{MayHardPurge, purge_never_hard}
use mattermost_plugin_messag.ExpireStore.{new_sql_store, find_row, count, is_expired}
use mattermost_plugin_messag.ExpireStore.Counts.{IsKeyed}
use mattermost_plugin_messag.ExpireStore.Contract.{sql_store-IsLawful}
use mattermost_plugin_messag.Sweeper.{Sweeper, new, run, effective_batch_size}
use mattermost_plugin_messag.Sweeper.Ticks.{IsLawfulSweeper, run_keeps_alive}
use mattermost_plugin_messag.Sweeper.Healthy.{
  IsHealthy, sql_sweeper, sql_sweeper-IsLawful, sql_sweeper-NeverFails,
}
use mattermost_plugin_messag.Sweeper.Drain.{NeverFails, ticks, ticks_drain}
use mattermost_plugin_messag.Tests.{by_time, column, entry_at}

abbrev a : Text
a = b'a' ∷ []

abbrev b : Text
b = b'b' ∷ []

-- Every server table has a row for each of two posts; the row of `a` has expired at 100.
abbrev database : List Outcome → Db Text
database outcomes = record {
  expire = some (entry_at b b 500 ∷ entry_at a a 100 ∷ []);
  rows = λ t. a ∷ b ∷ [];
  outcomes = outcomes;
}

purged : (purge column (a ∷ []) (database [])).0 ≡ ok 1
unfolding purge delete_all footprint
purged = refl

purge_ok_example :
    (◌≡◌ {A = ℕ} 1 1) × Erased column (a ∷ []) (database []) (purge column (a ∷ []) (database [])).1
purge_ok_example = purge_ok column (a ∷ []) (database []) 1 purged

-- The third deletion is refused: the transaction is rolled back.
abbrev failing : List Outcome
failing = done ∷ done ∷ done ∷ refused a ∷ []

abbrev third_failed : PurgeError
third_failed = delete_failed (text "reactions") (text "post_id") a

not_purged : (purge column (a ∷ []) (database failing)).0 ≡ err third_failed
unfolding purge delete_all footprint
not_purged = refl

abbrev failed : Db Text
failed = (purge column (a ∷ []) (database failing)).1

purge_err_example :
    Untouched column (database failing) failed
    ⊎ (((x : DbError) × (third_failed ≡ commit_failed x))
        × Erased column (a ∷ []) (database failing) failed)
purge_err_example = purge_err column (a ∷ []) (database failing) third_failed not_purged

-- A server of version `ab` whose license depends on `licensed`; soft deletes and the log are not
-- kept.
abbrev server : Bool → SwitchApi (Db Text)
server licensed = record {
  delete_post = λ id db. (ok tt, db);
  get_server_version = λ db. b'a' ∷ b'b' ∷ [];
  has_license = λ db. licensed;
  log_error = λ m db. db;
}

abbrev config : Db Text → Configuration
config db = record { enable_purge = true; purge_schema_allowlist_raw = a }

abbrev hard : Purger (Db Text) PurgeError
hard = purge column

licensed_may_not : ¬ MayHardPurge (server true) config (database [])
licensed_may_not m = cc (m.unlicensed)

purge_never_hard_example :
    PurgerSwitch.purge (server true) config hard (a ∷ []) (database [])
    ≡ PurgerSwitch.purge
        (server true)
        config
        (λ ids db. (ok 7, database failing))
        (a ∷ [])
        (database [])
purge_never_hard_example =
    purge_never_hard (server true) config (database []) hard (λ ids db. (ok 7, database failing))
      (a ∷ []) licensed_may_not

-- The sweeper at the time 200, over the SQL store and the hard purge.
abbrev sweeper : Sweeper (Db Text) PurgeError
sweeper = sql_sweeper column by_time (λ m db. db) (pos 500) (λ db. pos 200)

sweeper-IsLawful : IsLawfulSweeper sweeper table
sweeper-IsLawful =
    sql_sweeper-IsLawful column by_time (λ m db. db) (pos 500) (λ db. pos 200) (λ m db. refl)

database-IsKeyed : IsKeyed (table (database failing))
unfolding keep
database-IsKeyed j = ground (arith, text_eq_iff a j, text_eq_iff b j)

b_found : find_row b (table (database failing)) ≡ some (entry_at b b 500)
unfolding find_row text_eq
b_found = refl

run_keeps_alive_example :
    find_row b (table (run sweeper (database failing))) ≡ some (entry_at b b 500)
run_keeps_alive_example =
    run_keeps_alive sweeper table sweeper-IsLawful (database failing) b (entry_at b b 500)
      database-IsKeyed b_found refl

-- With a purger that never succeeds.
abbrev stuck : Sweeper (Db Text) PurgeError
stuck =
    new (new_sql_store by_time) (λ ids db. (err third_failed, db)) (λ m db. db) (pos 500)
      (λ db. pos 200)

stuck-IsLawful : IsLawfulSweeper stuck table
stuck-IsLawful = record {
  index = sql_store-IsLawful by_time;
  purge_keeps = λ ids db. refl;
  log_keeps = λ m db. refl;
}

sweeper-NeverFails : NeverFails sweeper (pos 150) IsHealthy
sweeper-NeverFails =
    sql_sweeper-NeverFails column by_time (λ m db. db) (pos 500) (λ db. pos 200) (pos 150)
      (λ db h. refl)

few_expired :
    count (is_expired (pos 150)) (table (database [])) ≤ 1 * effective_batch_size (pos 500)
unfolding keep effective_batch_size
few_expired = omega arith

ticks_drain_example : count (is_expired (pos 150)) (table (ticks sweeper 1 (database []))) ≡ 0
ticks_drain_example =
    ticks_drain sweeper table sweeper-IsLawful (pos 150) IsHealthy sweeper-NeverFails 1
      (database [])
      (record {
        no_faults = refl;
        rows = entry_at b b 500 ∷ entry_at a a 100 ∷ [];
        migrated = refl;
      })
      few_expired
