-- ===== src/System/Live/Migrated.antt =====
-- The invariant of the plugin and its server, with the parts that run only after the migration.
use native.Mathlib.Omega.{arith}
use mattermost_plugin_messag.Base.{ℕ, ◌≡◌, true, List, Text}
use mattermost_plugin_messag.Configuration.{get}
use mattermost_plugin_messag.Database.{Db}
use mattermost_plugin_messag.ExpireStore.Existing.{
  HasIndex, migrate_makes, migrate-HasIndex, upsert-HasIndex, bump-HasIndex, get_expired-HasIndex,
  delete-HasIndex,
}
use mattermost_plugin_messag.ExpiryService.Keeps.{IndexKeeps}
use mattermost_plugin_messag.TtlStore.{Bytes}
use mattermost_plugin_messag.TtlService
use mattermost_plugin_messag.TtlService.Keeps.{
  StoreKeeps, set_ttl-Keeps, get_ttl-Keeps, clear_ttl-Keeps,
}
use mattermost_plugin_messag.Handler.{TtlChanged}
use mattermost_plugin_messag.Handler.Keeps.{HandlerKeeps, serve_http-Keeps}
use mattermost_plugin_messag.Command.Keeps.{execute_command-Keeps}
use mattermost_plugin_messag.Plugin.{Plugin, disappear_command, PluginLog}
use mattermost_plugin_messag.Plugin.Live.{
  IsOrdered, hook-IsOrdered, activates, deactivates, configures,
}
use mattermost_plugin_messag.Plugin.Keeps.{HooksKeep, message_has_been_posted-Keeps}
use mattermost_plugin_messag.Plugin.Migrated.{
  on_activate-ReadyIf, on_deactivate-ReadyIf, on_configuration_change-ReadyIf,
}
use mattermost_plugin_messag.Purge
use mattermost_plugin_messag.Purge.{PurgeError}
use mattermost_plugin_messag.Purge.Atomic.{expire-purge}
use mattermost_plugin_messag.PurgerSwitch.{SwitchLog, SwitchError}
use mattermost_plugin_messag.PurgerSwitch.Keeps.{purge-Keeps}
use mattermost_plugin_messag.Sweeper.{SweepLog}
use mattermost_plugin_messag.Sweeper.Spares.{Outlives}
use mattermost_plugin_messag.Sweeper.Interleaved.{tick_step-outlives}
use mattermost_plugin_messag.System.Parts.{
  Parts, settings_store, api_handler, expire_store, ttl_reader, sql_purger,
}
use mattermost_plugin_messag.System.Invariant.{Relies}
use mattermost_plugin_messag.System.Live.{
  Live, LiveStep, LiveReach, sweeper_of, activated, deactivated, configured, requested, commanded,
  posted, ticked, elsewhere, here, later,
}
use mattermost_plugin_messag.System.Live.Invariant.{
  ReliesOnHooks, IsClock, LiveAged, LiveReach-LiveAged,
}

module _ {K Row : Type 0} (p : Parts K Row) where
  abbrev pub Indexed : K × Db Row → Type 0
  Indexed w = HasIndex w.1

  -- The expiry service is there only over a table that exists.
  abbrev pub IsReady : Live K Row → Type 0
  IsReady l = l.plugin.expiry_service ≡ true → Indexed l.world

  -- The server is sound, the posts of the batch are a minute old, the sweeper has a job only with
  -- the expiry service, and this service is there only over a table that exists.
  pub record LiveSound (stored : K → Text → Bytes) (born : Text → ℕ) (time : K × Db Row → ℕ)
      (l : Live K Row) : Type 0 where
    pub aged : LiveAged p stored born time l
    pub ordered : IsOrdered l.plugin
    pub ready : IsReady l

  -- Nobody drops the table mpmd_expire.
  pub record IndexStays (Elsewhere : K × Db Row → K × Db Row → Type 0) : Type 0 where
    pub on_publish : (e : TtlChanged) (w : K × Db Row) → Indexed w → Indexed (p.publish e w)
    pub on_soft_delete :
        (id : Text) (w : K × Db Row) → Indexed w → Indexed (p.switch.delete_post id w).1
    pub on_switch_log :
        (m : SwitchLog) (w : K × Db Row) → Indexed w → Indexed (p.switch.log_error m w)
    pub on_sweep_log :
        (m : SweepLog (SwitchError PurgeError)) (w : K × Db Row)
        → Indexed w
        → Indexed (p.sweep_log m w)
    pub on_load : (w : K × Db Row) → Indexed w → Indexed (p.api.load_configuration w).1
    pub on_register :
        (w : K × Db Row) → Indexed w → Indexed (p.api.register_command disappear_command w).1
    pub on_master_db : (w : K × Db Row) → Indexed w → Indexed (p.api.get_master_db w).1
    pub on_schedule : (w : K × Db Row) → Indexed w → Indexed (p.api.schedule w).1
    pub on_close : (w : K × Db Row) → Indexed w → Indexed (p.api.close_job w).1
    pub on_info : (w : K × Db Row) → Indexed w → Indexed (p.api.log_info w)
    pub on_error : (m : PluginLog) (w : K × Db Row) → Indexed w → Indexed (p.api.log_error m w)
    pub on_elsewhere : (w w' : K × Db Row) → Elsewhere w w' → Indexed w → Indexed w'

  store_keeps : StoreKeeps (settings_store p) Indexed
  store_keeps = record { on_get = λ c w h. h; on_set = λ c t w inside h. h; on_clear = λ c w h. h }

  index_keeps : IndexKeeps (expire_store p) (ttl_reader p) Indexed
  index_keeps = record {
    on_read = λ c w h. get_ttl-Keeps (settings_store p) p.permissions Indexed store_keeps c w h;
    on_upsert = λ e w h. upsert-HasIndex p.order e w.1 h;
    on_bump = λ root t w h. bump-HasIndex p.order root t w.1 h;
  }

  purge-HasIndex :
      (ids : List Text) (d : Db Row) → HasIndex d → HasIndex (Purge.purge p.column ids d).1
  purge-HasIndex ids d h = ground (arith, expire-purge p.column ids d)

  module _ (Elsewhere : K × Db Row → K × Db Row → Type 0) (S : IndexStays Elsewhere) where
    handler_keeps : HandlerKeeps (api_handler p) Indexed
    unfolding TtlService.get_setting
    handler_keeps = record {
      on_set = λ actor c d at w h.
          set_ttl-Keeps (settings_store p) p.permissions Indexed store_keeps actor c d at w h;
      on_get = λ c w h. h;
      on_clear = λ actor c w h.
          clear_ttl-Keeps (settings_store p) p.permissions Indexed store_keeps actor c w h;
      on_publish = S.on_publish;
    }

    hooks_keep : HooksKeep p.api (expire_store p) Indexed
    hooks_keep = record {
      on_load = S.on_load;
      on_register = S.on_register;
      on_master_db = S.on_master_db;
      on_schedule = S.on_schedule;
      on_close = S.on_close;
      on_info = S.on_info;
      on_error = S.on_error;
      on_migrate = λ w h. migrate-HasIndex p.order w.1 h;
    }

    tick_outlives : (q : Plugin) → Outlives (sweeper_of p q) (λ ids. Unit {0}) Indexed
    tick_outlives q = record {
      purges = λ ids w u h.
          purge-Keeps p.switch Indexed S.on_soft_delete S.on_switch_log (λ _. get q.cfg)
            (sql_purger p) (λ ids w h. purge-HasIndex ids w.1 h) ids w h;
      queries = λ w h. get_expired-HasIndex p.order (p.now w) _ w.1 h;
      deletes = λ ids w h. delete-HasIndex p.order ids w.1 h;
      logs = S.on_sweep_log;
    }

    step-IsReady :
        (born : Text → ℕ) (l l' : Live K Row)
        → LiveStep p born Elsewhere l l'
        → IsReady l
        → IsReady l'
    step-IsReady born l _ (activated _) h =
        on_activate-ReadyIf p.api (expire_store p) Indexed hooks_keep
          (λ w fine. migrate_makes p.order w.1 fine) l.plugin l.world h
    step-IsReady born l _ (deactivated _) h =
        on_deactivate-ReadyIf p.api (expire_store p) Indexed hooks_keep
          (λ w fine. migrate_makes p.order w.1 fine) l.plugin l.world h
    step-IsReady born l _ (configured _) h =
        on_configuration_change-ReadyIf p.api (expire_store p) Indexed hooks_keep
          (λ w fine. migrate_makes p.order w.1 fine) l.plugin l.world h
    step-IsReady born l _ (requested r _) h =
        λ on. serve_http-Keeps (api_handler p) Indexed handler_keeps p.mux r l.world (h on)
    step-IsReady born l _ (commanded args _) h = λ on.
        execute_command-Keeps (api_handler p) p.parse_duration Indexed handler_keeps args l.world
          (h on)
    step-IsReady born l _ (posted post _ timely) h = λ on.
        message_has_been_posted-Keeps p.api (expire_store p) Indexed hooks_keep (ttl_reader p) p.now
          index_keeps l.plugin post l.world (h on)
    step-IsReady born l _ (ticked _ scheduled) h = λ on.
        tick_step-outlives (sweeper_of p l.plugin) Elsewhere (λ ids. Unit {0}) Indexed
          (tick_outlives l.plugin) l.phase l.world tt (h on)
    step-IsReady born l _ (elsewhere _ w e) h = λ on. S.on_elsewhere l.world w e (h on)

    module _ (stored : K → Text → Bytes) (born : Text → ℕ) where
      step-IsOrdered :
          (l l' : Live K Row)
          → LiveStep p born Elsewhere l l'
          → IsOrdered l.plugin
          → IsOrdered l'.plugin
      step-IsOrdered l _ (activated _) o =
          hook-IsOrdered p.api (expire_store p) l.plugin _ (activates l.plugin l.world) o
      step-IsOrdered l _ (deactivated _) o =
          hook-IsOrdered p.api (expire_store p) l.plugin _ (deactivates l.plugin l.world) o
      step-IsOrdered l _ (configured _) o =
          hook-IsOrdered p.api (expire_store p) l.plugin _ (configures l.plugin l.world) o
      step-IsOrdered l _ (requested r _) o = o
      step-IsOrdered l _ (commanded args _) o = o
      step-IsOrdered l _ (posted post _ timely) o = o
      step-IsOrdered l _ (ticked _ scheduled) o = o
      step-IsOrdered l _ (elsewhere _ w e) o = o

      module _ (R : Relies p stored born Elsewhere) (H : ReliesOnHooks p stored born)
          (time : K × Db Row → ℕ) (C : IsClock p stored born Elsewhere time) where
        reached_ready :
            (l l' : Live K Row)
            → LiveReach p born Elsewhere l l'
            → IsOrdered l.plugin × IsReady l
            → IsOrdered l'.plugin × IsReady l'
        reached_ready l _ here h = h
        reached_ready l l' (later {u} reach step) h =
            let (o, r) = reached_ready l u reach h in
            (step-IsOrdered u l' step o, step-IsReady born u l' step r)

        -- For a server whose key-value store gives what it holds, to which every writer writes only
        -- settings in bounds, whose JSON decodes what it encoded, where events, logs, soft deletes and the
        -- calls of the hooks touch neither settings nor index, where nobody drops the table mpmd_expire, where a post comes with its time, below
        -- 2 ^ 62 milliseconds, and a reply not earlier than the posts of its thread, where what else
        -- happens keeps the facts below, and whose clock does not run back. After any hooks, requests,
        -- commands, posts, calls of ticks and what else happens, in any order and failing or not: all
        -- settings are in bounds, no post has two index rows, no row expires within a minute of its post's
        -- creation, every post of the batch that a tick holds is at least a minute old, the sweeper has
        -- a job only together with the expiry service, and the expiry service is there only if the table
        -- mpmd_expire exists, if it was so before.
        pub LiveReach-LiveSound :
            (l l' : Live K Row)
            → LiveReach p born Elsewhere l l'
            → LiveSound stored born time l
            → LiveSound stored born time l'
        LiveReach-LiveSound l l' reach s =
            let (o, r) = reached_ready l l' reach (s.ordered, s.ready) in
            record {
              aged = LiveReach-LiveAged p stored born Elsewhere R H time C l l' reach s.aged;
              ordered = o;
              ready = r;
            }
