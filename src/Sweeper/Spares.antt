-- ===== src/Sweeper/Spares.antt =====
-- Which posts a tick can delete: those with a row that has expired.
use native.Mathlib.Omega.{arith}
use mattermost_plugin_messag.Base.{
  ℕ, ◌≡◌, refl, inl, inr, Bool, false, ◌&&◌, List, [], ◌∷◌, keep, contains, Text, Result, ok, err,
  Result-cases, Bool-cases,
}
use mattermost_plugin_messag.Database.{Entry, Table}
use mattermost_plugin_messag.ExpireStore.{count, is_expired}
use mattermost_plugin_messag.ExpireStore.Counts.{ids_of, of_post, contains-count}
use mattermost_plugin_messag.ExpireStore.Contract.{IsLawfulIndex, IsBatch}
use mattermost_plugin_messag.Sweeper.{
  Sweeper, SweepLog, query_failed, prune_failed, prune, sweep, run,
}

-- `P` is a fact about the state that outlives the calls of a tick, purges of `Spared` lists of posts
-- among them.
pub record Outlives {W E : Type 0} (s : Sweeper W E) (Spared : List Text → Type 0) (P : W → Type 0)
    : Type 0 where
  pub purges : (ids : List Text) (w : W) → Spared ids → P w → P (s.purger ids w).1
  pub queries : (w : W) → P w → P (s.store.get_expired (s.now w) s.batch_size w).1
  pub deletes : (ids : List Text) (w : W) → P w → P (s.store.delete_by_post_ids ids w).1
  pub logs : (m : SweepLog E) (w : W) → P w → P (s.log_error m w)

pub count-keep-and :
    (p q : Entry → Bool) (l : Table) → count p (keep q l) ≡ count (λ r. p r && q r) l
unfolding keep
count-keep-and p q [] = refl
count-keep-and p q (r ∷ l) = ground (arith, count-keep-and p q l)

module _ {W E : Type 0} (s : Sweeper W E) (Spared : List Text → Type 0) (P : W → Type 0)
    (O : Outlives s Spared P) where
  prune-outlives : (ids : List Text) (r : Result E ℕ) (w : W) → P w → P (prune s ids r w)
  unfolding prune
  prune-outlives ids (err e) w h = O.logs _ w h
  prune-outlives ids (ok n) w h =
      let h' = O.deletes ids w h in
      elim (Result-cases (s.store.delete_by_post_ids ids w).0) [
        | inl (a, fine) ↦ rw (fine, prune) h'
        | inr (e, failed) ↦ rw (failed, prune) (O.logs (prune_failed e) _ h')
      ]

  sweep-outlives : (batch : List Entry) (w : W) → Spared (ids_of batch) → P w → P (sweep s batch w)
  unfolding sweep
  sweep-outlives [] w spared h = h
  sweep-outlives (e ∷ es) w spared h =
      let ids = ids_of (e ∷ es) in
      prune-outlives ids (s.purger ids w).0 (s.purger ids w).1 (O.purges ids w spared h)

  -- A tick keeps `P`, if it finds a batch of spared posts.
  pub run-outlives :
      (w : W)
      → ((batch : List Entry)
          → (s.store.get_expired (s.now w) s.batch_size w).0 ≡ ok batch
          → Spared (ids_of batch))
      → P w
      → P (run s w)
  unfolding run
  run-outlives w spared h =
      let h' = O.queries w h in
      elim (Result-cases (s.store.get_expired (s.now w) s.batch_size w).0) [
        | inr (e, failed) ↦ rw (failed, run) (O.logs (query_failed e) _ h')
        | inl (batch, fine) ↦ rw (fine, run) (sweep-outlives batch _ (spared batch fine) h')
      ]

module _ {W E : Type 0} (s : Sweeper W E) (j : Text) (P : W → Type 0)
    (O : Outlives s (λ ids. contains ids j ≡ false) P) (rows : W → Table)
    (L : IsLawfulIndex s.store rows) where
  absent_from :
      (w : W) (batch : List Entry)
      → IsBatch (s.now w) s.batch_size (rows w) batch
      → count (λ r. of_post j r && is_expired (s.now w) r) (rows w) ≡ 0
      → contains (ids_of batch) j ≡ false
  absent_from w batch B none_due = elim (Bool-cases (contains (ids_of batch) j)) [
    | inr absent ↦ absent
    | inl listed ↦ absurd (
        omega (
          arith,
          contains-count j batch listed,
          B.within (of_post j),
          count-keep-and (of_post j) (is_expired (s.now w)) (rows w),
        ))
  ]

  -- With a lawful index, and for a fact about the state that only a purge of the post `j` may end:
  -- if the index has no expired row of `j`, the fact still holds after a tick, whatever fails.
  pub run_spares :
      (w : W) → count (λ r. of_post j r && is_expired (s.now w) r) (rows w) ≡ 0 → P w → P (run s w)
  run_spares w none_due =
      run-outlives s (λ ids. contains ids j ≡ false) P O w
        (λ batch fine.
          absent_from w batch (L.get_expired_reads (s.now w) s.batch_size w batch fine) none_due)
