-- ===== src/Tests/Index.antt =====
-- The theorems about the expire index at concrete data: a thread in a channel with a TTL.
use native.Mathlib.Omega.{arith}
use mattermost_plugin_messag.Base.{
  ◌*◌, ◌≡◌, ◌≢◌, ◌⊎◌, refl, true, Option, none, some, [], ◌∷◌, Text, text_eq, ok,
}
use mattermost_plugin_messag.Int64.{ℤ, pos, ltb_ℤ}
use mattermost_plugin_messag.Duration.{Duration, second}
use mattermost_plugin_messag.Database.{Entry, Table, Db, table, change}
use mattermost_plugin_messag.ExpireStore.{
  ExpireIndexStore, find_row, upsert, update_expire_by_root, new_sql_store,
}
use mattermost_plugin_messag.ExpireStore.Contract.{IsLawfulIndex, sql_store-IsLawful}
use mattermost_plugin_messag.ExpiryService.{Post, TtlReader, thread_root, deadline, on_post_created}
use mattermost_plugin_messag.ExpiryService.Moved.{IsReply}
use mattermost_plugin_messag.ExpiryService.Threads.{on_post_created_deadlines, reply_shortens}
use mattermost_plugin_messag.Tests.{town, by_time, entry_at}

abbrev pub root : Text
root = b'r' ∷ []

abbrev other : Text
other = b'o' ∷ []

abbrev pub reply_id : Text
reply_id = b'p' ∷ []

-- Two posts of other threads and a root that expires late.
abbrev rows_before : Table
rows_before = entry_at root root 900000 ∷ entry_at other other 400000 ∷ []

abbrev before : Db Text
before = record { expire = some rows_before; rows = λ t. []; outcomes = [] }

-- Every channel has a TTL of five minutes.
abbrev pub five_minutes : Duration
five_minutes = pos (300 * second)

abbrev pub reader : TtlReader (Db Text)
reader c db = (ok (some five_minutes), db)

abbrev now : Db Text → ℤ
now db = pos 1000

-- A reply to `root` at the time 1000, due at 301000.
abbrev pub reply : Post
reply = record { id = reply_id; channel_id = town; root_id = root; create_at = pos 1000 }

abbrev index : ExpireIndexStore (Db Text)
index = new_sql_store by_time

index-IsLawful : IsLawfulIndex index table
index-IsLawful = sql_store-IsLawful by_time

sql_store-IsLawful_example : IsLawfulIndex index table
sql_store-IsLawful_example = sql_store-IsLawful by_time

reply_fine : (on_post_created index reader now reply before).0 ≡ ok tt
unfolding on_post_created upsert update_expire_by_root change
reply_fine = refl

abbrev after : Table
after = table (on_post_created index reader now reply before).1

on_post_created_deadlines_example :
    (◌≡◌ {A = Option Duration} (some five_minutes) none → after ≡ rows_before)
    × ((d : Duration)
        → some five_minutes ≡ some d
        → (r : Entry) × (find_row reply_id after ≡ some r)
          × (r.channel_id ≡ town)
          × (r.root_id ≡ thread_root reply)
          × (r.expire_at ≡ deadline reply d))
    × ((d : Duration) (j : Text) (r : Entry)
        → some five_minutes ≡ some d
        → IsReply reply
        → j ≢ reply_id
        → find_row j rows_before ≡ some r
        → r.root_id ≡ root
        → find_row j after ≡ some (record r { expire_at = deadline reply d }))
    × ((d : Duration) (j : Text) (r : Entry)
        → some five_minutes ≡ some d
        → find_row j after ≡ some r
        → (j ≡ reply_id) ⊎ (IsReply reply × (r.root_id ≡ root))
        → r.expire_at ≡ deadline reply d)
    × ((j : Text) (r : Entry)
        → find_row j rows_before ≡ some r
        → j ≢ reply_id
        → (◌≡◌ {A = Text} root []) ⊎ (r.root_id ≢ root)
        → find_row j after ≡ some r)
on_post_created_deadlines_example =
    on_post_created_deadlines index table index-IsLawful reader now (λ c db. refl) reply before
      reply_fine (some five_minutes) refl

due_earlier : ltb_ℤ (deadline reply five_minutes) (pos 900000) ≡ true
unfolding deadline
due_earlier = refl

root_found : find_row root rows_before ≡ some (entry_at root root 900000)
unfolding find_row text_eq
root_found = refl

-- The reply brings the root forward from 900000 to 301000.
reply_shortens_example :
    (r' : Entry) × (find_row root after ≡ some r') × (ltb_ℤ r'.expire_at (pos 900000) ≡ true)
reply_shortens_example =
    reply_shortens index table index-IsLawful reader now (λ c db. refl) reply before reply_fine
      five_minutes root (entry_at root root 900000) refl (λ e. cc) (λ e. ground arith) root_found
      refl due_earlier
