-- ===== src/System/Live/Invariant.antt =====
-- What holds in every state of the plugin and its server, between any two calls of a tick.
use native.Mathlib.Decide.{dec_le}
use native.Mathlib.Omega.{arith}
use mattermost_plugin_messag.Base.{ℕ, ◌+◌, ◌≤◌, ◌≡◌, true, contains, Text}
use mattermost_plugin_messag.Int64.{pos}
use mattermost_plugin_messag.Configuration.{get}
use mattermost_plugin_messag.Database.{Db, table}
use mattermost_plugin_messag.ExpireStore.{migrate}
use mattermost_plugin_messag.ExpireStore.PrimaryKey.{migrates}
use mattermost_plugin_messag.TtlStore.{Bytes}
use mattermost_plugin_messag.Handler.Keeps.{serve_http-Keeps}
use mattermost_plugin_messag.Command.Keeps.{execute_command-Keeps}
use mattermost_plugin_messag.Plugin.{Plugin, disappear_command}
use mattermost_plugin_messag.Plugin.Keeps.{
  HooksKeep, on_activate-Keeps, on_deactivate-Keeps, on_configuration_change-Keeps,
}
use mattermost_plugin_messag.Sweeper.Steps.{Phase, idle, chosen, purged, tick_step}
use mattermost_plugin_messag.Sweeper.Interleaved.{
  batch_of, batch_of-call, query-IsDue, tick_step-outlives,
}
use mattermost_plugin_messag.System.Parts.{Parts, api_handler, expire_store}
use mattermost_plugin_messag.System.Invariant.{
  IsSound, LooksSame, LooksSame-IsSound, Relies, handler_keeps, tick_outlives, database_keeps,
}
use mattermost_plugin_messag.System.Posted.{posted-IsSound}
use mattermost_plugin_messag.System.Safety.{young_not_due, expire_store-IsLawful}
use mattermost_plugin_messag.System.Live.{
  Live, LiveStep, LiveReach, sweeper_of, activated, deactivated, configured, requested, commanded,
  posted, ticked, elsewhere, here, later,
}

module _ {K Row : Type 0} (p : Parts K Row) (stored : K → Text → Bytes) (born : Text → ℕ) where
  -- The calls of the hooks touch neither the settings nor the index.
  pub record ReliesOnHooks : Type 0 where
    pub on_load : (w : K × Db Row) → LooksSame p stored born w (p.api.load_configuration w).1
    pub on_register :
        (w : K × Db Row) → LooksSame p stored born w (p.api.register_command disappear_command w).1
    pub on_master_db : (w : K × Db Row) → LooksSame p stored born w (p.api.get_master_db w).1
    pub on_schedule : (w : K × Db Row) → LooksSame p stored born w (p.api.schedule w).1
    pub on_close : (w : K × Db Row) → LooksSame p stored born w (p.api.close_job w).1
    pub on_info : (w : K × Db Row) → LooksSame p stored born w (p.api.log_info w)

  -- The clock, in unix milliseconds, does not run back.
  pub record IsClock (Elsewhere : K × Db Row → K × Db Row → Type 0) (time : K × Db Row → ℕ)
      : Type 0 where
    pub reads : (w : K × Db Row) → p.now w ≡ pos (time w)
    pub forward :
        (l l' : Live K Row) → LiveStep p born Elsewhere l l' → time l.world ≤ time l'.world

  -- The server is sound, and the posts of the batch are a minute old.
  pub record LiveAged (time : K × Db Row → ℕ) (l : Live K Row) : Type 0 where
    pub sound : IsSound p stored born l.world
    pub old : (j : Text) → contains (batch_of l.phase) j ≡ true → born j + 60000 ≤ time l.world

  module _ (Elsewhere : K × Db Row → K × Db Row → Type 0) (R : Relies p stored born Elsewhere)
      (H : ReliesOnHooks) where
    abbrev Sound : K × Db Row → Type 0
    Sound = IsSound p stored born

    table-migrate : (d : Db Row) → table (migrate p.order d).1 ≡ table d
    unfolding migrate
    table-migrate d = ground arith

    hooks_keep : HooksKeep p.api (expire_store p) Sound
    hooks_keep = record {
      on_load = λ w s. LooksSame-IsSound p stored born _ _ (H.on_load w) s;
      on_register = λ w s. LooksSame-IsSound p stored born _ _ (H.on_register w) s;
      on_master_db = λ w s. LooksSame-IsSound p stored born _ _ (H.on_master_db w) s;
      on_schedule = λ w s. LooksSame-IsSound p stored born _ _ (H.on_schedule w) s;
      on_close = λ w s. LooksSame-IsSound p stored born _ _ (H.on_close w) s;
      on_info = λ w s. LooksSame-IsSound p stored born _ _ (H.on_info w) s;
      on_error = λ m w s. LooksSame-IsSound p stored born _ _ (R.on_api_log m w) s;
      on_migrate = λ w s.
          database_keeps p stored born Elsewhere R w _ (migrates w.1)
            (rw (table-migrate w.1) s.aged) s;
    }

    step-IsSound :
        (l l' : Live K Row) → LiveStep p born Elsewhere l l' → Sound l.world → Sound l'.world
    step-IsSound l _ (activated _) s =
        on_activate-Keeps p.api (expire_store p) Sound hooks_keep l.plugin l.world s
    step-IsSound l _ (deactivated _) s =
        on_deactivate-Keeps p.api (expire_store p) Sound hooks_keep l.plugin l.world s
    step-IsSound l _ (configured _) s =
        on_configuration_change-Keeps p.api (expire_store p) Sound hooks_keep l.plugin l.world s
    step-IsSound l _ (requested r _) s =
        serve_http-Keeps (api_handler p) Sound (handler_keeps p stored born Elsewhere R) p.mux r
          l.world s
    step-IsSound l _ (commanded args _) s =
        execute_command-Keeps (api_handler p) p.parse_duration Sound
          (handler_keeps p stored born Elsewhere R) args l.world s
    step-IsSound l _ (posted post _ timely) s =
        posted-IsSound p stored born Elsewhere R l.plugin post l.world timely s
    step-IsSound l _ (ticked _ scheduled) s =
        tick_step-outlives (sweeper_of p l.plugin) Elsewhere (λ ids. Unit {0}) Sound
          (tick_outlives p stored born Elsewhere R (λ w. get l.plugin.cfg)) l.phase l.world tt s
    step-IsSound l _ (elsewhere _ w e) s = R.on_elsewhere l.world w e s

    module _ (time : K × Db Row → ℕ) (C : IsClock Elsewhere time) where
      -- A post that a query chooses is a minute old.
      query_old :
          (q : Plugin) (w : K × Db Row) (j : Text)
          → Sound w
          → contains (batch_of (tick_step (sweeper_of p q) idle w).0) j ≡ true
          → born j + 60000 ≤ time w
      query_old q w j s listed = elim (dec_le (born j + 60000) (time w)) [
        | yes aged ↦ aged
        | no young ↦ absurd (
            omega (
              arith,
              query-IsDue (sweeper_of p q) Elsewhere (λ u. table u.1) (expire_store-IsLawful p) w j
                  listed,
              young_not_due p stored born Elsewhere R w j (time w) s (C.reads w) (omega arith),
            ))
      ]

      call_old :
          (q : Plugin) (ph : Phase) (w : K × Db Row) (j : Text)
          → Sound w
          → (contains (batch_of ph) j ≡ true → born j + 60000 ≤ time w)
          → contains (batch_of (tick_step (sweeper_of p q) ph w).0) j ≡ true
          → born j + 60000 ≤ time w
      call_old q idle w j s old listed = query_old q w j s listed
      call_old q (chosen ids) w j s old listed =
          old (batch_of-call (sweeper_of p q) Elsewhere (chosen ids) w j (λ e. cc) listed)
      call_old q (purged ids) w j s old listed =
          old (batch_of-call (sweeper_of p q) Elsewhere (purged ids) w j (λ e. cc) listed)

      step_old :
          (l l' : Live K Row) (j : Text)
          → LiveStep p born Elsewhere l l'
          → LiveAged time l
          → contains (batch_of l'.phase) j ≡ true
          → born j + 60000 ≤ time l.world
      step_old l _ j (activated _) s listed = s.old j listed
      step_old l _ j (deactivated _) s listed = s.old j listed
      step_old l _ j (configured _) s listed = s.old j listed
      step_old l _ j (requested r _) s listed = s.old j listed
      step_old l _ j (commanded args _) s listed = s.old j listed
      step_old l _ j (posted post _ timely) s listed = s.old j listed
      step_old l _ j (ticked _ scheduled) s listed =
          call_old l.plugin l.phase l.world j s.sound (s.old j) listed
      step_old l _ j (elsewhere _ w e) s listed = s.old j listed

      LiveStep-LiveAged :
          (l l' : Live K Row) → LiveStep p born Elsewhere l l' → LiveAged time l → LiveAged time l'
      LiveStep-LiveAged l l' step s = record {
        sound = step-IsSound l l' step s.sound;
        old = λ j listed. omega (arith, step_old l l' j step s listed, C.forward l l' step);
      }

      -- After any hooks, requests, commands, posts, calls of ticks and what else happens, in any order
      -- and failing or not, these facts hold if they did before.
      pub LiveReach-LiveAged :
          (l l' : Live K Row) → LiveReach p born Elsewhere l l' → LiveAged time l → LiveAged time l'
      LiveReach-LiveAged l _ here s = s
      LiveReach-LiveAged l l' (later {u} r step) s =
          LiveStep-LiveAged u l' step (LiveReach-LiveAged l u r s)
