-- ===== src/Sweeper/Races.antt =====
-- A reply that comes between the query of a tick and its purge.
use native.Mathlib.Omega.{arith}
use mattermost_plugin_messag.Base.{ℕ, ◌≡◌, ◌≢◌, refl, true, none, some, List, contains, Text, ok}
use mattermost_plugin_messag.Int64.{ℤ}
use mattermost_plugin_messag.Duration.{Duration}
use mattermost_plugin_messag.Database.{Entry, Table}
use mattermost_plugin_messag.ExpireStore.{find_row, delete_rows}
use mattermost_plugin_messag.ExpireStore.Rows.{find-delete_rows}
use mattermost_plugin_messag.ExpiryService.{Post, TtlReader, deadline, on_post_created}
use mattermost_plugin_messag.ExpiryService.Moved.{IsReply}
use mattermost_plugin_messag.ExpiryService.Threads.{reply_moves}
use mattermost_plugin_messag.Sweeper.{Sweeper}
use mattermost_plugin_messag.Sweeper.Ticks.{IsLawfulSweeper}
use mattermost_plugin_messag.Sweeper.Steps.{chosen, purged, tick_step}

module _ {W E : Type 0} (s : Sweeper W E) (rows : W → Table) (L : IsLawfulSweeper s rows)
    (get_ttl : TtlReader W) (now : W → ℤ)
    (get_ttl_keeps : (c : Text) (w : W) → rows (get_ttl c w).1 ≡ rows w) where
  purge_call_ok :
      (ids : List Text) (w : W) (n : ℕ)
      → (s.purger ids w).0 ≡ ok n
      → tick_step s (chosen ids) w ≡ (purged ids, (s.purger ids w).1)
  unfolding tick_step
  purge_call_ok ids w n fine = rw (fine, tick_step) refl

  rows-prune_call :
      (ids : List Text) (w : W)
      → (s.store.delete_by_post_ids ids w).0 ≡ ok tt
      → rows (tick_step s (purged ids) w).1 ≡ delete_rows ids (rows w)
  unfolding tick_step
  rows-prune_call ids w fine = rw (fine, tick_step) (L.index.delete_writes ids w fine)

  -- Over a lawful index, purger and log and a TTL reader that does not write to the index: a tick has
  -- chosen a batch with the post `j`, and before its purge a reply in the thread of `j` is handled
  -- without error, in a channel with a TTL. Then the row of `j` has the deadline of the reply when the
  -- purge begins, whatever that is; and if the calls of the tick that follow succeed, it has purged the
  -- batch with `j` nevertheless, and the row of `j` is gone from the index.
  pub late_reply_lost :
      (ids : List Text) (post : Post) (w : W) (d : Duration) (j : Text) (r : Entry) (n : ℕ)
      → let u = (on_post_created s.store get_ttl now post w).1 in
        let after_purge = (tick_step s (chosen ids) u).1 in
        contains ids j ≡ true
        → (on_post_created s.store get_ttl now post w).0 ≡ ok tt
        → (get_ttl post.channel_id w).0 ≡ ok (some d)
        → IsReply post
        → j ≢ post.id
        → find_row j (rows w) ≡ some r
        → r.root_id ≡ post.root_id
        → (s.purger ids u).0 ≡ ok n
        → (s.store.delete_by_post_ids ids after_purge).0 ≡ ok tt
        → (find_row j (rows u) ≡ some (record r { expire_at = deadline post d }))
          × (tick_step s (chosen ids) u ≡ (purged ids, (s.purger ids u).1))
          × (find_row j (rows (tick_step s (purged ids) after_purge).1) ≡ none)
  late_reply_lost ids post w d j r n listed fine read reply other found same purge_fine
        delete_fine =
      let u = (on_post_created s.store get_ttl now post w).1 in
      (
        reply_moves s.store rows L.index get_ttl now get_ttl_keeps post w fine d j r read reply
            other found same,
        purge_call_ok ids u n purge_fine,
        rw (rows-prune_call ids (tick_step s (chosen ids) u).1 delete_fine)
            (ground (arith, find-delete_rows ids j (rows (tick_step s (chosen ids) u).1))),
      )
