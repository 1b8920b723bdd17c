-- ===== src/Tests/Crowd.antt =====
-- The hooks of two replies in one thread, of which the later one updates the thread first.
use native.Mathlib.Omega.{arith}
use mattermost_plugin_messag.Base.{◌≡◌, refl, any, false, List, [], ◌∷◌, Text, text_eq, some}
use mattermost_plugin_messag.Int64.{ℤ, pos}
use mattermost_plugin_messag.Database.{Db, table, change}
use mattermost_plugin_messag.ExpireStore.{
  ExpireIndexStore, find_row, new_sql_store, upsert, update_expire_by_root,
}
use mattermost_plugin_messag.ExpireStore.Contract.{sql_store-IsLawful}
use mattermost_plugin_messag.ExpiryService.{Post, thread_root}
use mattermost_plugin_messag.ExpiryService.Steps.{
  Handling, handled, HookReach, handle_at, handle_step,
}
use mattermost_plugin_messag.ExpiryService.Bumps.{OneDeadline}
use mattermost_plugin_messag.ExpiryService.Settles.{is_open, threads_settle}
use mattermost_plugin_messag.Tests.{town, by_time, entry_at}
use mattermost_plugin_messag.Tests.Index.{root, reply, reader}

abbrev index : ExpireIndexStore (Db Text)
index = new_sql_store by_time

abbrev now : Db Text → ℤ
now db = pos 1000

abbrev second_reply : Post
second_reply = record { id = b'q' ∷ []; channel_id = town; root_id = root; create_at = pos 2000 }

abbrev start : Db Text
start = record { expire = some (entry_at root root 300000 ∷ []); rows = λ t. []; outcomes = [] }

-- Nothing else happens.
data Nothing : Db Text → Db Text → Type 0 where

abbrev Reach : List Handling → Db Text → Type 0
Reach = HookReach index reader now Nothing (reply ∷ second_reply ∷ []) start

-- Both read the TTL, both write their rows, and the second reply updates the thread before the first.
abbrev Ends : Type 0
Ends =
    (hs : List Handling) × (db : Db Text) × Reach hs db
    × (hs ≡ handled reply ∷ handled second_reply ∷ [])

ends : Ends
unfolding handle_at handle_step thread_root upsert update_expire_by_root change
ends =
    let read = HookReach.called 1 (HookReach.called 0 HookReach.started) in
    let written = HookReach.called 1 (HookReach.called 0 read) in
    (_, _, HookReach.called 0 (HookReach.called 1 written), refl)

start-OneDeadline : OneDeadline root (table start)
unfolding find_row text_eq
start-OneDeadline i j r s p q a b = ground arith

ends_closed : any (is_open root) ends.0 ≡ false
unfolding any
ends_closed = rw ends.3 refl

threads_settle_example : OneDeadline root (table ends.1)
threads_settle_example =
    threads_settle root index table (sql_store-IsLawful by_time) reader now (λ c db. refl) Nothing
      (λ w w' o. elim o [ ]) (reply ∷ second_reply ∷ [])
      ((λ e. ground arith), ((λ e. ground arith), tt)) start ends.0 ends.1 start-OneDeadline ends.2
      ends_closed
