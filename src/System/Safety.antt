-- ===== src/System/Safety.antt =====
-- What holds after any steps of the system.
use mattermost_plugin_messag.Base.{ℕ, ◌+◌, ◌<◌, ◌≡◌, refl, ◌&&◌, Text}
use mattermost_plugin_messag.Int64.{pos}
use mattermost_plugin_messag.Database.{Db, table}
use mattermost_plugin_messag.TtlStore.{Bytes}
use mattermost_plugin_messag.ExpireStore.{count, is_expired}
use mattermost_plugin_messag.ExpireStore.Contract.{IsLawfulIndex, sql_store-IsLawful}
use mattermost_plugin_messag.ExpireStore.Counts.{of_post}
use mattermost_plugin_messag.ExpireStore.Every.{none_due}
use mattermost_plugin_messag.Configuration.{Configuration}
use mattermost_plugin_messag.Handler.Keeps.{serve_http-Keeps}
use mattermost_plugin_messag.Command.Keeps.{execute_command-Keeps}
use mattermost_plugin_messag.Sweeper.{run}
use mattermost_plugin_messag.Sweeper.Spares.{run-outlives, run_spares}
use mattermost_plugin_messag.System.Posts.{post_rows, SparesPosts, posts_outlive}
use mattermost_plugin_messag.System.Parts.{Parts, api_handler, expire_store, plugin_sweeper}
use mattermost_plugin_messag.System.Step.{Step, Reach}
use mattermost_plugin_messag.System.Ages.{IsAged, IsAged-young}
use mattermost_plugin_messag.System.Invariant.{IsSound, Relies, handler_keeps, tick_outlives}
use mattermost_plugin_messag.System.Posted.{posted-IsSound}

-- The index of the system keeps its contract, as the SQL store does.
pub expire_store-IsLawful :
    {K Row : Type 0} (p : Parts K Row) → IsLawfulIndex (expire_store p) (λ w. table w.1)
expire_store-IsLawful {Row} p =
    let L = sql_store-IsLawful {Row = Row} p.order in
    record {
      upsert_writes = λ e w. L.upsert_writes e w.1;
      bump_writes = λ root t w. L.bump_writes root t w.1;
      get_expired_keeps = λ now limit w. L.get_expired_keeps now limit w.1;
      get_expired_reads = λ now limit w. L.get_expired_reads now limit w.1;
      delete_writes = λ ids w. L.delete_writes ids w.1;
      upsert_fails = λ e w. L.upsert_fails e w.1;
      bump_fails = λ root t w. L.bump_fails root t w.1;
      delete_fails = λ ids w. L.delete_fails ids w.1;
    }

module _ {K Row : Type 0} (p : Parts K Row) (stored : K → Text → Bytes) (born : Text → ℕ)
    (Elsewhere : K × Db Row → K × Db Row → Type 0) (R : Relies p stored born Elsewhere) where
  abbrev Sound : K × Db Row → Type 0
  Sound = IsSound p stored born

  Step-IsSound : (w w' : K × Db Row) → Step p born Elsewhere w w' → Sound w → Sound w'
  Step-IsSound w w' (Step.request r _) s =
      serve_http-Keeps (api_handler p) Sound (handler_keeps p stored born Elsewhere R) p.mux r w s
  Step-IsSound w w' (Step.command args _) s =
      execute_command-Keeps (api_handler p) p.parse_duration Sound
        (handler_keeps p stored born Elsewhere R) args w s
  Step-IsSound w w' (Step.posted plugin post _ timely) s =
      posted-IsSound p stored born Elsewhere R plugin post w timely s
  Step-IsSound w w' (Step.tick config _) s =
      run-outlives (plugin_sweeper p config) (λ ids. Unit {0}) Sound
        (tick_outlives p stored born Elsewhere R config) w (λ batch read. tt) s
  Step-IsSound w w' (Step.elsewhere _ _ e) s = R.on_elsewhere w w' e s

  -- For a server whose key-value store gives what it holds, to which every writer writes only settings
  -- in bounds, whose JSON decodes what it encoded, where events, logs and soft deletes touch neither
  -- settings nor index, where a post comes with its time, below 2 ^ 62 milliseconds, and a reply not
  -- earlier than the posts of its thread, and where what else happens keeps the following facts. After
  -- any requests, commands, posts and ticks, failing or not: every channel's setting is one of 60 to
  -- 31536000 seconds, no post has two rows in the index, and no row expires within a minute of its
  -- post's creation, if it was so before.
  pub Reach-IsSound : (w w' : K × Db Row) → Reach p born Elsewhere w w' → Sound w → Sound w'
  Reach-IsSound w _ Reach.here s = s
  Reach-IsSound w w' (Reach.later {u} r step) s = Step-IsSound u w' step (Reach-IsSound w u r s)

  -- In a sound state a post that is younger than a minute is not due.
  pub young_not_due :
      (w : K × Db Row) (j : Text) (n : ℕ)
      → Sound w
      → p.now w ≡ pos n
      → n < born j + 60000
      → count (λ r. of_post j r && is_expired (p.now w) r) (table w.1) ≡ 0
  young_not_due w j n s at young = rw at (
      none_due (IsAged born) j (pos n) (table w.1)
        (λ r aged same. IsAged-young born r n aged (rw same young)) s.aged)

  -- In every state that is reached from a sound one, a tick leaves alone the rows of the table posts that hold a post younger than a minute, if soft
  -- deletes touch no other post than their own and logs none: whatever the configuration says and
  -- whatever fails.
  pub tick_spares_young :
      (config : K × Db Row → Configuration) (w w' : K × Db Row) (j : Text) (n : ℕ)
      → Sound w
      → Reach p born Elsewhere w w'
      → SparesPosts p j
      → p.now w' ≡ pos n
      → n < born j + 60000
      → post_rows p.column j (run (plugin_sweeper p config) w').1 ≡ post_rows p.column j w'.1
  tick_spares_young config w w' j n s r spares at young =
      run_spares (plugin_sweeper p config) j
        (λ u. post_rows p.column j u.1 ≡ post_rows p.column j w'.1)
        (posts_outlive p j spares config (post_rows p.column j w'.1)) (λ u. table u.1)
        (expire_store-IsLawful p) w' (young_not_due w' j n (Reach-IsSound w w' r s) at young) refl
