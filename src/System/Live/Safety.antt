-- ===== src/System/Live/Safety.antt =====
-- Which posts a tick deletes while everything else goes on.
use native.Mathlib.Omega.{arith}
use mattermost_plugin_messag.Base.{
  ℕ, ◌+◌, ◌<◌, ◌≡◌, refl, inl, inr, false, contains, Text, Bool-cases,
}
use mattermost_plugin_messag.Configuration.{get}
use mattermost_plugin_messag.Database.{Db}
use mattermost_plugin_messag.TtlStore.{Bytes}
use mattermost_plugin_messag.Sweeper.Steps.{tick_step}
use mattermost_plugin_messag.Sweeper.Interleaved.{batch_of, tick_step-outlives}
use mattermost_plugin_messag.System.Parts.{Parts}
use mattermost_plugin_messag.System.Posts.{post_rows, SparesPosts, posts_outlive}
use mattermost_plugin_messag.System.Invariant.{Relies}
use mattermost_plugin_messag.System.Live.{Live, LiveReach, sweeper_of}
use mattermost_plugin_messag.System.Live.Invariant.{
  ReliesOnHooks, IsClock, LiveAged, LiveReach-LiveAged,
}

module _ {K Row : Type 0} (p : Parts K Row) (stored : K → Text → Bytes) (born : Text → ℕ)
    (Elsewhere : K × Db Row → K × Db Row → Type 0) (R : Relies p stored born Elsewhere)
    (H : ReliesOnHooks p stored born) (time : K × Db Row → ℕ)
    (C : IsClock p stored born Elsewhere time) where
  -- For a server whose key-value store gives what it holds, to which every writer writes only settings
  -- in bounds, whose JSON decodes what it encoded, where events, logs, soft deletes and the calls of the
  -- hooks touch neither settings nor index, where a post comes with its time, below 2 ^ 62 milliseconds,
  -- and a reply not earlier than the posts of its thread, where what else happens keeps these facts,
  -- and whose clock does not run back; and for soft deletes that touch no other post than their own and
  -- logs that touch none: in every state that is reached from a sound one, whatever came between the
  -- query of the tick and its purge, the next call of the tick leaves alone the rows of the table posts
  -- that hold a post younger than a minute.
  pub live_spares_young :
      (l l' : Live K Row) (j : Text)
      → LiveAged p stored born time l
      → LiveReach p born Elsewhere l l'
      → SparesPosts p j
      → time l'.world < born j + 60000
      → post_rows p.column j (tick_step (sweeper_of p l'.plugin) l'.phase l'.world).1.1
        ≡ post_rows p.column j l'.world.1
  live_spares_young l l' j s reach spares young =
      let s' = LiveReach-LiveAged p stored born Elsewhere R H time C l l' reach s in
      tick_step-outlives (sweeper_of p l'.plugin) Elsewhere (λ ids. contains ids j ≡ false)
        (λ u. post_rows p.column j u.1 ≡ post_rows p.column j l'.world.1)
        (posts_outlive p j spares (λ w. get l'.plugin.cfg) (post_rows p.column j l'.world.1))
        l'.phase l'.world
        (elim (Bool-cases (contains (batch_of l'.phase) j)) [
          | inr absent ↦ absent
          | inl listed ↦ absurd (omega (arith, s'.old j listed))
        ])
        refl
