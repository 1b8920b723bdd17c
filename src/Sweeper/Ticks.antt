-- ===== src/Sweeper/Ticks.antt =====
-- What one tick does to the index.
use native.Mathlib.Omega.{arith}
use mattermost_plugin_messag.Base.{
  ℕ, ◌≡◌, ◌≢◌, refl, ◌⊎◌, inl, inr, false, some, List, [], ◌∷◌, contains, Text, ok, err,
  Result-cases, Bool-cases,
}
use mattermost_plugin_messag.Database.{Entry, Table}
use mattermost_plugin_messag.ExpireStore.{find_row, delete_rows, is_expired}
use mattermost_plugin_messag.ExpireStore.Rows.{find-delete_rows}
use mattermost_plugin_messag.ExpireStore.Counts.{
  ids_of, IsKeyed, of_post, find_row-count, contains-count,
}
use mattermost_plugin_messag.ExpireStore.Contract.{IsLawfulIndex, IsBatch}
use mattermost_plugin_messag.Sweeper.{
  Sweeper, SweepLog, prune_failed, query_failed, prune, sweep, run,
}

-- What a tick relies on: an index that keeps its contract, and a purger and a log that do not
-- write to the index.
pub record IsLawfulSweeper {W E : Type 0} (s : Sweeper W E) (rows : W → Table) : Type 0 where
  pub index : IsLawfulIndex s.store rows
  pub purge_keeps : (ids : List Text) (w : W) → rows (s.purger ids w).1 ≡ rows w
  pub log_keeps : (m : SweepLog E) (w : W) → rows (s.log_error m w) ≡ rows w

module _ {W E : Type 0} (s : Sweeper W E) (rows : W → Table) (L : IsLawfulSweeper s rows) where
  -- A pruned batch: the rows that GetExpired may give, whose purge returned no error, are deleted.
  pub record Pruned (w : W) : Type 0 where
    pub batch : List Entry
    pub some_post : batch ≢ []
    pub is_batch : IsBatch (s.now w) s.batch_size (rows w) batch
    pub at : W
    pub number : ℕ
    pub purged : (s.purger (ids_of batch) at).0 ≡ ok number
    pub deleted : rows (run s w) ≡ delete_rows (ids_of batch) (rows w)

  rows-prune_err : (ids : List Text) (e : E) (w : W) → rows (prune s ids (err e) w) ≡ rows w
  unfolding prune
  rows-prune_err ids e w = L.log_keeps _ w

  rows-prune :
      (ids : List Text) (n : ℕ) (w : W)
      → (rows (prune s ids (ok n) w) ≡ rows w)
        ⊎ (rows (prune s ids (ok n) w) ≡ delete_rows ids (rows w))
  unfolding prune
  rows-prune ids n w =
      let w' = (s.store.delete_by_post_ids ids w).1 in
      elim (Result-cases (s.store.delete_by_post_ids ids w).0) [
        | inl (tt, fine) ↦ inr (rw (fine, prune) (L.index.delete_writes ids w fine))
        | inr (e, failed) ↦
            ground (arith, L.index.delete_fails ids w e failed, L.log_keeps (prune_failed e) w')
      ]

  -- the two outcomes for the rows, once the batch is read
  swept :
      (batch : List Entry) (w : W)
      → (rows (sweep s batch w) ≡ rows w)
        ⊎ ((n : ℕ) × (batch ≢ [])
            × ((s.purger (ids_of batch) w).0 ≡ ok n)
            × (rows (sweep s batch w) ≡ delete_rows (ids_of batch) (rows w)))
  unfolding sweep
  swept [] w = inl refl
  swept (e ∷ es) w =
      let ids = ids_of (e ∷ es) in
      let w' = (s.purger ids w).1 in
      elim (Result-cases (s.purger ids w).0) [
        | inr (x, failed) ↦ inl (ground (arith, rows-prune_err ids x w', L.purge_keeps ids w))
        | inl (n, fine) ↦ elim (rows-prune ids n w') [
          | inl same ↦ inl (ground (arith, L.purge_keeps ids w))
          | inr less ↦ inr (n, (λ x. cc), fine, ground (arith, L.purge_keeps ids w))
        ]
      ]

  -- With a lawful index, purger and log, a tick leaves the index as it was, or it deletes exactly
  -- the rows of a non-empty batch that GetExpired may give, after a purge of the batch's posts that
  -- returned no error.
  pub run_cases : (w : W) → (rows (run s w) ≡ rows w) ⊎ Pruned w
  unfolding run
  run_cases w =
      let w' = (s.store.get_expired (s.now w) s.batch_size w).1 in
      let kept = L.index.get_expired_keeps (s.now w) s.batch_size w in
      elim (Result-cases (s.store.get_expired (s.now w) s.batch_size w).0) [
        | inr (e, failed) ↦ inl (ground (arith, L.log_keeps (query_failed e) w'))
        | inl (batch, fine) ↦ elim (swept batch w') [
          | inl same ↦ inl (ground arith)
          | inr (n, some_post, purged, less) ↦ inr (record {
            batch = batch;
            some_post = some_post;
            is_batch = L.index.get_expired_reads (s.now w) s.batch_size w batch fine;
            at = w';
            number = n;
            purged = purged;
            deleted = ground arith;
          })
        ]
      ]

  -- No post with an expired row is in the batch if the row that is found for it has not expired.
  not_in_batch :
      (w : W) (p : Pruned w) (j : Text) (r : Entry)
      → IsKeyed (rows w)
      → find_row j (rows w) ≡ some r
      → is_expired (s.now w) r ≡ false
      → contains (ids_of p.batch) j ≡ false
  not_in_batch w p j r keyed found alive = elim (Bool-cases (contains (ids_of p.batch) j)) [
    | inr absent ↦ absent
    | inl listed ↦ absurd (
        omega (
          arith,
          keyed j,
          contains-count j p.batch listed,
          p.is_batch.within (of_post j),
          find_row-count (is_expired (s.now w)) j (rows w) r found alive,
        ))
  ]

  -- With a lawful index, purger and log, and one row per post in the index: a row that has not
  -- expired is still there after a tick, whichever query, purge or deletion fails.
  pub run_keeps_alive :
      (w : W) (j : Text) (r : Entry)
      → IsKeyed (rows w)
      → find_row j (rows w) ≡ some r
      → is_expired (s.now w) r ≡ false
      → find_row j (rows (run s w)) ≡ some r
  run_keeps_alive w j r keyed found alive = elim (run_cases w) [
    | inl same ↦ rw same found
    | inr p ↦ rw (p.deleted, find-delete_rows, not_in_batch w p j r keyed found alive) found
  ]

  fails_on :
      (batch : List Entry) (w : W)
      → batch ≢ []
      → ((id : Text) (ids : List Text) (w' : W) → (e : E) × ((s.purger (id ∷ ids) w').0 ≡ err e))
      → (e : E) × ((s.purger (ids_of batch) w).0 ≡ err e)
  fails_on [] w h fails = absurd (h refl)
  fails_on (r ∷ batch) w h fails = fails r.post_id (ids_of batch) w

  -- With a lawful index, purger and log: if every purge of at least one post returns an error, a
  -- tick leaves the index as it was.
  pub run_purge_fails :
      (w : W)
      → ((id : Text) (ids : List Text) (w' : W) → (e : E) × ((s.purger (id ∷ ids) w').0 ≡ err e))
      → rows (run s w) ≡ rows w
  run_purge_fails w fails = elim (run_cases w) [
    | inl same ↦ same
    | inr p ↦ let (e, failed) = fails_on p.batch p.at p.some_post fails in cc (p.purged, failed)
  ]
