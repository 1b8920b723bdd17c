-- ===== src/Sweeper/Pruned.antt =====
-- Which rows of the index a tick deletes, while the server goes on between its calls.
use mattermost_plugin_messag.Base.{ℕ, ◌≡◌, List, Text, ok}
use mattermost_plugin_messag.Sweeper.{Sweeper}
use mattermost_plugin_messag.Sweeper.Steps.{idle, chosen}
use mattermost_plugin_messag.Sweeper.Interleaved.{TickReach}

module _ {W E : Type 0} (s : Sweeper W E) (Other : W → W → Type 0) (w0 : W) where
  -- A state before, in which a batch was purged without error.
  abbrev pub WasPurged : List Text → Type 0
  WasPurged ids =
      (u : W) × (TickReach s Other idle w0 (chosen ids) u × ((n : ℕ) × ((s.purger ids u).0 ≡ ok n)))
