-- ===== src/Sweeper/Steps.antt =====
-- A tick of the sweeper in its three calls, between which the server goes on: the query, the purge and
-- the deletion of the index rows.
use native.Mathlib.Omega.{arith}
use mattermost_plugin_messag.Base.{
  ◌≡◌, inl, inr, List, [], ◌∷◌, map, length, Text, ok, err, Result-cases,
}
use mattermost_plugin_messag.Database.{Entry}
use mattermost_plugin_messag.Sweeper.{
  Sweeper, query_failed, prune_failed, purge_failed, prune, sweep, run,
}

-- Where a tick stands: before its query, or with the posts of its batch, before or after the purge.
pub data Phase : Type 0 where
  idle : Phase
  chosen purged : List Text → Phase

-- the phase after the query
abbrev pub after_query : List Entry → Phase
after_query [] = idle
after_query (e ∷ es) = chosen (map (λ r. r.post_id) (e ∷ es))

module _ {W E : Type 0} (s : Sweeper W E) where
  -- the next call of a tick, with what it writes to the log
  unfoldable pub tick_step : Phase → W → Phase × W
  tick_step idle w =
      let (r, w') = s.store.get_expired (s.now w) s.batch_size w in
      elim r [
        | err e ↦ (idle, s.log_error (query_failed e) w')
        | ok entries ↦ (after_query entries, w')
      ]
  tick_step (chosen ids) w =
      let (r, w') = s.purger ids w in
      elim r [
        | err e ↦ (idle, s.log_error (purge_failed (length ids) e) w')
        | ok n ↦ (purged ids, w')
      ]
  tick_step (purged ids) w =
      let (r, w') = s.store.delete_by_post_ids ids w in
      elim r [ ok _ ↦ (idle, w') | err e ↦ (idle, s.log_error (prune_failed e) w') ]

  -- the last call of a tick, unless its purge has failed
  abbrev last_call : Phase × W → W
  last_call (idle, w) = w
  last_call (chosen ids, w) = w
  last_call (purged ids, w) = (tick_step (purged ids) w).1

  -- the calls up to the end of the tick that is under way
  unfoldable pub finish : Phase × W → W
  unfolding tick_step
  finish (idle, w) = w
  finish (chosen ids, w) = last_call (tick_step (chosen ids) w)
  finish (purged ids, w) = last_call (purged ids, w)

  -- A tick whose calls follow each other with nothing in between does what Run does.
  pub finish-tick_step : (w : W) → finish (tick_step idle w) ≡ run s w
  unfolding tick_step finish run sweep prune
  finish-tick_step w = elim (Result-cases (s.store.get_expired (s.now w) s.batch_size w).0) [
    | inr (e, failed) ↦ ground arith
    | inl ([], none) ↦ ground arith
    | inl (e ∷ es, found) ↦
        let w' = (s.store.get_expired (s.now w) s.batch_size w).1 in
        let ids = map (λ r. r.post_id) (e ∷ es) in
        elim (Result-cases (s.purger ids w').0) [
          | inr (x, failed) ↦ ground arith
          | inl (n, done) ↦
              elim (Result-cases (s.store.delete_by_post_ids ids (s.purger ids w').1).0) [
                | inr (x, failed) ↦ ground arith
                | inl (u, deleted) ↦ ground arith
              ]
        ]
  ]
