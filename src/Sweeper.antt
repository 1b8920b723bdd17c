-- ===== src/Sweeper.antt =====
-- server/sweeper/sweeper.go: a tick purges a batch of expired posts and prunes their index rows.
-- The index, the purger and the log are interfaces over the state `W` of the server.
pub mod Ticks
pub mod Drain
pub mod Healthy
pub mod Spares
pub mod Steps
pub mod Interleaved
pub mod Races
pub mod Pruned
use mattermost_plugin_messag.Base.{
  ℕ, zero, suc, List, [], ◌∷◌, map, length, Text, Result, ok, err, Exec,
}
use mattermost_plugin_messag.Int64.{ℤ, pos, negsuc}
use mattermost_plugin_messag.Database.{Entry}
use mattermost_plugin_messag.ExpireStore.{StoreError, ExpireIndexStore}
use mattermost_plugin_messag.PurgerSwitch.{Purger}

-- what a tick writes to the log
pub data SweepLog (E : Type 0) : Type 0 where
  query_failed prune_failed : StoreError → SweepLog E
  purge_failed : ℕ → E → SweepLog E

-- Logger
abbrev pub Logger : Type 0 → Type 0 → Type 0
Logger W E = SweepLog E → W → W

-- defaultBatchSize
abbrev pub default_batch_size : ℕ
default_batch_size = 500

-- the batch size that New keeps
unfoldable pub effective_batch_size : ℤ → ℕ
effective_batch_size (pos zero) = default_batch_size
effective_batch_size (pos (suc n)) = suc n
effective_batch_size (negsuc n) = default_batch_size

-- Sweeper
pub record Sweeper (W E : Type 0) : Type 0 where
  pub store : ExpireIndexStore W
  pub purger : Purger W E
  pub log_error : Logger W E
  pub batch_size : ℕ
  pub now : W → ℤ

-- New
abbrev pub new :
    {W E : Type 0} → ExpireIndexStore W → Purger W E → Logger W E → ℤ → (W → ℤ) → Sweeper W E
new store purger log_error batch_size now = record {
  store = store;
  purger = purger;
  log_error = log_error;
  batch_size = effective_batch_size batch_size;
  now = now;
}

module _ {W E : Type 0} (s : Sweeper W E) where
  -- the end of a tick, after the purge of `ids`
  unfoldable pub prune : List Text → Result E ℕ → W → W
  prune ids (err e) w = s.log_error (purge_failed (length ids) e) w
  prune ids (ok n) w =
      let (r, w') = s.store.delete_by_post_ids ids w in
      elim r [ ok _ ↦ w' | err e ↦ s.log_error (prune_failed e) w' ]

  -- the tick after its query
  unfoldable pub sweep : List Entry → W → W
  sweep [] w = w
  sweep (e ∷ es) w =
      let ids = map (λ r. r.post_id) (e ∷ es) in let (r, w') = s.purger ids w in prune ids r w'

  -- Sweeper.Run
  unfoldable pub run : W → W
  run w =
      let (r, w') = s.store.get_expired (s.now w) s.batch_size w in
      elim r [ err e ↦ s.log_error (query_failed e) w' | ok entries ↦ sweep entries w' ]
