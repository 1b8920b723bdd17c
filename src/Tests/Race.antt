-- ===== src/Tests/Race.antt =====
-- The theorems about the calls of a tick, at a thread whose root has expired.
use native.Mathlib.Omega.{arith}
use mattermost_plugin_messag.Base.{
  ◌≡◌, refl, true, some, none, [], ◌∷◌, contains, any, keep, Text, text_eq, ok,
}
use mattermost_plugin_messag.Int64.{pos}
use mattermost_plugin_messag.Database.{Db, table, change, query}
use mattermost_plugin_messag.ExpireStore.{
  find_row, upsert, update_expire_by_root, get_expired, expired_rows, delete_by_post_ids,
}
use mattermost_plugin_messag.ExpireStore.Contract.{sql_store-IsLawful}
use mattermost_plugin_messag.Purge.{PurgeError, purge, delete_all, footprint}
use mattermost_plugin_messag.ExpiryService.{deadline, on_post_created}
use mattermost_plugin_messag.Sweeper.{Sweeper, effective_batch_size}
use mattermost_plugin_messag.Sweeper.Steps.{Phase, idle, chosen, purged, tick_step}
use mattermost_plugin_messag.Sweeper.Interleaved.{TickReach, Since, IsDue, batch_of, batch-IsDue}
use mattermost_plugin_messag.Sweeper.Races.{late_reply_lost}
use mattermost_plugin_messag.Sweeper.Healthy.{sql_sweeper, sql_sweeper-IsLawful}
use mattermost_plugin_messag.Sweeper.Ticks.{IsLawfulSweeper}
use mattermost_plugin_messag.Tests.{by_time, column, entry_at}
use mattermost_plugin_messag.Tests.Index.{root, reply, reader, five_minutes}

-- The root has expired at 900, and the clock stands at 1000.
abbrev before : Db Text
before = record {
  expire = some (entry_at root root 900 ∷ []);
  rows = λ t. root ∷ [];
  outcomes = [];
}

abbrev sweeper : Sweeper (Db Text) PurgeError
sweeper = sql_sweeper column by_time (λ m db. db) (pos 500) (λ db. pos 1000)

sweeper-IsLawful : IsLawfulSweeper sweeper table
sweeper-IsLawful =
    sql_sweeper-IsLawful column by_time (λ m db. db) (pos 500) (λ db. pos 1000) (λ m db. refl)

abbrev Nothing : Db Text → Db Text → Type 0
Nothing db db' = ⊥

-- the phase after the query
abbrev queried : Phase
queried = (tick_step sweeper idle before).0

root_listed : contains (batch_of queried) root ≡ true
unfolding contains any text_eq tick_step effective_batch_size get_expired expired_rows query keep
    by_time
root_listed = refl

batch-IsDue_example :
    (u : Db Text) × (TickReach sweeper Nothing idle before idle u
      × (Since sweeper Nothing u queried (tick_step sweeper idle before).1
          × IsDue sweeper Nothing table (sql_store-IsLawful by_time) root u))
batch-IsDue_example =
    batch-IsDue sweeper Nothing table (sql_store-IsLawful by_time) before queried
      (tick_step sweeper idle before).1 root (TickReach.called TickReach.start) root_listed

-- the phase and the state after the purge
abbrev after_purge : Phase × Db Text
after_purge = tick_step sweeper queried (tick_step sweeper idle before).1

-- the state after the query and the reply
abbrev replied : Db Text
replied = (on_post_created sweeper.store reader sweeper.now reply before).1

reply_fine : (on_post_created sweeper.store reader sweeper.now reply before).0 ≡ ok tt
unfolding on_post_created upsert update_expire_by_root change
reply_fine = refl

found_root : find_row root (table before) ≡ some (entry_at root root 900)
unfolding find_row text_eq
found_root = refl

purge_fine : (sweeper.purger (root ∷ []) replied).0 ≡ ok 1
unfolding purge delete_all footprint on_post_created upsert update_expire_by_root change
purge_fine = refl

delete_fine :
    (sweeper.store.delete_by_post_ids
      (root ∷ [])
      (tick_step sweeper (chosen (root ∷ [])) replied).1).0
    ≡ ok tt
unfolding tick_step delete_by_post_ids purge delete_all footprint on_post_created upsert
    update_expire_by_root change
delete_fine = refl

-- The root is due at 301000, and is purged at 1000.
late_reply_lost_example :
    (find_row root (table replied)
      ≡ some (record (entry_at root root 900) { expire_at = deadline reply five_minutes }))
    × (tick_step sweeper (chosen (root ∷ [])) replied
        ≡ (purged (root ∷ []), (sweeper.purger (root ∷ []) replied).1))
    × (find_row root (
          table
            (tick_step sweeper
              (purged (root ∷ []))
              (tick_step sweeper (chosen (root ∷ [])) replied).1).1)
        ≡ none)
unfolding contains any text_eq
late_reply_lost_example =
    late_reply_lost sweeper table sweeper-IsLawful reader sweeper.now (λ c db. refl) (root ∷ [])
      reply before five_minutes root (entry_at root root 900) 1 refl reply_fine refl (λ e. cc)
      (λ e. ground arith) found_root refl purge_fine delete_fine
