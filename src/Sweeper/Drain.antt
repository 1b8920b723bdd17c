-- ===== src/Sweeper/Drain.antt =====
-- While nothing fails, the ticks remove every expired row.
use native.Mathlib.Omega.{arith}
use Prim.Native.Nat.{min}
use native.Mathlib.Nat.{le_trans}
use mattermost_plugin_messag.Base.{
  ℕ, zero, suc, ◌+◌, ◌*◌, ◌≤◌, ◌<◌, ◌≡◌, ap, ◌∙◌, sym, Bool, List, [], ◌∷◌, Text, ok,
}
use mattermost_plugin_messag.Int64.{ℤ, pos, negsuc, ◌≤ℤ◌}
use mattermost_plugin_messag.Database.{Entry, Table}
use mattermost_plugin_messag.ExpireStore.{delete_rows, is_expired, count}
use mattermost_plugin_messag.ExpireStore.Rows.{delete_rows-nil}
use mattermost_plugin_messag.ExpireStore.Counts.{ids_of, count-delete_rows, count-keep-le}
use mattermost_plugin_messag.ExpireStore.Contract.{IsBatch}
use mattermost_plugin_messag.Sweeper.{Sweeper, effective_batch_size, prune, sweep, run}
use mattermost_plugin_messag.Sweeper.Ticks.{IsLawfulSweeper}

pub effective_batch_size_pos : (n : ℤ) → 0 < effective_batch_size n
unfolding effective_batch_size
effective_batch_size_pos (pos zero) = omega arith
effective_batch_size_pos (pos (suc n)) = omega arith
effective_batch_size_pos (negsuc n) = omega arith

-- In a `Healthy` state no call of a tick fails, the clock has passed `t`, and what a call leaves is
-- healthy again.
pub record NeverFails {W E : Type 0} (s : Sweeper W E) (t : ℤ) (Healthy : W → Type 0) : Type 0 where
  pub late : (w : W) → Healthy w → t ≤ℤ s.now w
  pub reads :
      (now : ℤ) (n : ℕ) (w : W)
      → Healthy w
      → ((l : List Entry) × ((s.store.get_expired now n w).0 ≡ ok l))
        × Healthy (s.store.get_expired now n w).1
  pub purges :
      (ids : List Text) (w : W)
      → Healthy w
      → ((n : ℕ) × ((s.purger ids w).0 ≡ ok n)) × Healthy (s.purger ids w).1
  pub deletes :
      (ids : List Text) (w : W)
      → Healthy w
      → ((s.store.delete_by_post_ids ids w).0 ≡ ok tt)
        × Healthy (s.store.delete_by_post_ids ids w).1

-- the state after some ticks
unfoldable pub ticks : {W E : Type 0} → Sweeper W E → ℕ → W → W
ticks s zero w = w
ticks s (suc k) w = ticks s k (run s w)

prune_ok :
    {W E : Type 0} (s : Sweeper W E) (ids : List Text) (n : ℕ) (w : W)
    → (s.store.delete_by_post_ids ids w).0 ≡ ok tt
    → prune s ids (ok n) w ≡ (s.store.delete_by_post_ids ids w).1
unfolding prune
prune_ok s ids n w h = ground arith

module _ {W E : Type 0} (s : Sweeper W E) (rows : W → Table) (L : IsLawfulSweeper s rows) (t : ℤ)
    (Healthy : W → Type 0) (N : NeverFails s t Healthy) where
  rows-sweep :
      (batch : List Entry) (w : W)
      → Healthy w
      → (rows (sweep s batch w) ≡ delete_rows (ids_of batch) (rows w)) × Healthy (sweep s batch w)
  unfolding sweep
  rows-sweep [] w h = (sym (delete_rows-nil (rows w)), h)
  rows-sweep (e ∷ es) w h =
      let ids = ids_of (e ∷ es) in
      let w' = (s.purger ids w).1 in
      let ((n, purged), h') = N.purges ids w h in
      let (deleted, h'') = N.deletes ids w' h' in
      (
        ground
            (arith, prune_ok s ids n w' deleted, L.index.delete_writes ids w', L.purge_keeps ids w),
        rw (purged, sweep) (rw (prune_ok s ids n w' deleted) h''),
      )

  -- A tick in a healthy state deletes the rows of a batch.
  rows-run :
      (w : W)
      → Healthy w
      → ((batch : List Entry) × IsBatch (s.now w) s.batch_size (rows w) batch
          × (rows (run s w) ≡ delete_rows (ids_of batch) (rows w)))
        × Healthy (run s w)
  unfolding run
  rows-run w h =
      let now = s.now w in
      let w' = (s.store.get_expired now s.batch_size w).1 in
      let kept = L.index.get_expired_keeps now s.batch_size w in
      let ((batch, fine), h') = N.reads now s.batch_size w h in
      let (deleted, h'') = rows-sweep batch w' h' in
      (
        (
          batch,
          L.index.get_expired_reads now s.batch_size w batch fine,
          rw (fine, run) (deleted ∙ ap (delete_rows (ids_of batch)) kept),
        ),
        rw (fine, run) h'',
      )

  -- Of the rows that have expired at `t` a tick removes a whole batch, or all.
  count-run :
      (w : W)
      → Healthy w
      → count (is_expired t) (rows (run s w)) + min s.batch_size (count (is_expired t) (rows w))
        ≤ count (is_expired t) (rows w)
  count-run w h =
      let ((batch, B, deleted), _) = rows-run w h in
      let within = λ (q : Entry → Bool).
        le_trans (B.within q) (count-keep-le q (is_expired (s.now w)) (rows w)) in
      rw deleted (
        omega
          (arith, count-delete_rows (is_expired t) batch (rows w) within, B.oldest t (N.late w h)))

  -- With a lawful index, purger and log, a batch size above 0, and calls that never fail in a
  -- healthy state, where the clock has passed `t`: from a healthy state `k` ticks remove every row
  -- that has expired at `t`, if there are at most `k` batches of them.
  pub ticks_drain :
      (k : ℕ) (w : W)
      → Healthy w
      → count (is_expired t) (rows w) ≤ k * s.batch_size
      → count (is_expired t) (rows (ticks s k w)) ≡ 0
  unfolding ticks
  ticks_drain zero w h few = omega arith
  ticks_drain (suc k) w h few =
      ticks_drain k (run s w) (rows-run w h).1 (omega (arith, count-run w h))
