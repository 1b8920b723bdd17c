-- ===== src/System/Live/FailSafe.antt =====
-- When the plugin deletes nothing from the server's tables itself.
use mattermost_plugin_messag.Base.{ℕ, ◌≡◌, inl, inr, List, [], ◌∷◌, Text, ok, Result-cases}
use mattermost_plugin_messag.Configuration.{Configuration, get}
use mattermost_plugin_messag.Database.{Db}
use mattermost_plugin_messag.ExpireStore.Tables.{
  rows-migrate, rows-upsert, rows-update_expire_by_root, rows-get_expired, rows-delete_by_post_ids,
}
use mattermost_plugin_messag.ExpiryService.Keeps.{IndexKeeps}
use mattermost_plugin_messag.TtlService
use mattermost_plugin_messag.TtlService.Keeps.{
  StoreKeeps, set_ttl-Keeps, get_ttl-Keeps, clear_ttl-Keeps,
}
use mattermost_plugin_messag.Handler.{TtlChanged}
use mattermost_plugin_messag.Handler.Keeps.{HandlerKeeps, serve_http-Keeps}
use mattermost_plugin_messag.Command.Keeps.{execute_command-Keeps}
use mattermost_plugin_messag.Plugin.{Plugin, disappear_command, PluginLog}
use mattermost_plugin_messag.Plugin.Live.{activates, deactivates, configures}
use mattermost_plugin_messag.Plugin.Loaded.{hook-Allowed}
use mattermost_plugin_messag.Plugin.Keeps.{
  HooksKeep, on_activate-Keeps, on_deactivate-Keeps, on_configuration_change-Keeps,
  message_has_been_posted-Keeps,
}
use mattermost_plugin_messag.Purge.{PurgeError}
use mattermost_plugin_messag.PurgerSwitch.{
  SwitchLog, SwitchError, soft_delete_post, soft_delete, mode,
}
use mattermost_plugin_messag.PurgerSwitch
use mattermost_plugin_messag.PurgerSwitch.Routes.{MayHardPurge, PurgeMode-cases, purge_never_hard}
use mattermost_plugin_messag.Sweeper.{SweepLog}
use mattermost_plugin_messag.Sweeper.Spares.{Outlives}
use mattermost_plugin_messag.Sweeper.Interleaved.{tick_step-outlives}
use mattermost_plugin_messag.System.Parts.{
  Parts, settings_store, api_handler, expire_store, ttl_reader, sql_purger,
}
use mattermost_plugin_messag.System.Live.{
  Live, LiveStep, LiveReach, sweeper_of, activated, deactivated, configured, requested, commanded,
  posted, ticked, elsewhere, here, later,
}

module _ {K Row : Type 0} (p : Parts K Row) (T : (Text → List Row) → Type 0) where
  abbrev pub Kept : K × Db Row → Type 0
  Kept w = T w.1.rows

  -- The fact `T` about the server's tables outlives events, soft deletes, logs and the calls of the
  -- hooks, and what else happens.
  pub record TablesKeep (Elsewhere : K × Db Row → K × Db Row → Type 0) : Type 0 where
    pub on_publish : (e : TtlChanged) (w : K × Db Row) → Kept w → Kept (p.publish e w)
    pub on_soft_delete : (id : Text) (w : K × Db Row) → Kept w → Kept (p.switch.delete_post id w).1
    pub on_switch_log : (m : SwitchLog) (w : K × Db Row) → Kept w → Kept (p.switch.log_error m w)
    pub on_sweep_log :
        (m : SweepLog (SwitchError PurgeError)) (w : K × Db Row) → Kept w → Kept (p.sweep_log m w)
    pub on_load : (w : K × Db Row) → Kept w → Kept (p.api.load_configuration w).1
    pub on_register :
        (w : K × Db Row) → Kept w → Kept (p.api.register_command disappear_command w).1
    pub on_master_db : (w : K × Db Row) → Kept w → Kept (p.api.get_master_db w).1
    pub on_schedule : (w : K × Db Row) → Kept w → Kept (p.api.schedule w).1
    pub on_close : (w : K × Db Row) → Kept w → Kept (p.api.close_job w).1
    pub on_info : (w : K × Db Row) → Kept w → Kept (p.api.log_info w)
    pub on_error : (m : PluginLog) (w : K × Db Row) → Kept w → Kept (p.api.log_error m w)
    pub on_elsewhere : (w w' : K × Db Row) → Elsewhere w w' → Kept w → Kept w'

  -- The settings are not in the server's tables.
  store_keeps : StoreKeeps (settings_store p) Kept
  store_keeps = record { on_get = λ c w h. h; on_set = λ c t w inside h. h; on_clear = λ c w h. h }

  index_keeps : IndexKeeps (expire_store p) (ttl_reader p) Kept
  index_keeps = record {
    on_read = λ c w h. get_ttl-Keeps (settings_store p) p.permissions Kept store_keeps c w h;
    on_upsert = λ e w h. rw (rows-upsert p.order e w.1) h;
    on_bump = λ root t w h. rw (rows-update_expire_by_root p.order root t w.1) h;
  }

  module _ (Elsewhere : K × Db Row → K × Db Row → Type 0) (R : TablesKeep Elsewhere) where
    handler_keeps : HandlerKeeps (api_handler p) Kept
    unfolding TtlService.get_setting
    handler_keeps = record {
      on_set = λ actor c d at w h.
          set_ttl-Keeps (settings_store p) p.permissions Kept store_keeps actor c d at w h;
      on_get = λ c w h. h;
      on_clear = λ actor c w h.
          clear_ttl-Keeps (settings_store p) p.permissions Kept store_keeps actor c w h;
      on_publish = R.on_publish;
    }

    hooks_keep : HooksKeep p.api (expire_store p) Kept
    hooks_keep = record {
      on_load = R.on_load;
      on_register = R.on_register;
      on_master_db = R.on_master_db;
      on_schedule = R.on_schedule;
      on_close = R.on_close;
      on_info = R.on_info;
      on_error = R.on_error;
      on_migrate = λ w h. rw (rows-migrate p.order w.1) h;
    }

    soft_delete-Keeps :
        (ids : List Text) (w : K × Db Row) → Kept w → Kept (soft_delete p.switch ids w)
    unfolding soft_delete soft_delete_post
    soft_delete-Keeps [] w h = h
    soft_delete-Keeps (id ∷ ids) w h =
        let h' = R.on_soft_delete id w h in
        soft_delete-Keeps ids (soft_delete_post p.switch id w)
          (elim (Result-cases (p.switch.delete_post id w).0) [
            | inl (u, done) ↦ rw (done, soft_delete_post) h'
            | inr (e, failed) ↦ rw (failed, soft_delete_post) (R.on_switch_log _ _ h')
          ])

    -- A purge with a hard purge that does nothing keeps the tables.
    idle_purge-Keeps :
        (config : K × Db Row → Configuration) (ids : List Text) (w : K × Db Row)
        → Kept w
        → Kept (PurgerSwitch.purge p.switch {E = PurgeError} config (λ ids w'. (ok 0, w')) ids w).1
    unfolding PurgerSwitch.purge
    idle_purge-Keeps config [] w h = h
    idle_purge-Keeps config (id ∷ ids) w h = elim (PurgeMode-cases (mode p.switch config w)) [
      | inl hard ↦ rw (hard, PurgerSwitch.purge) h
      | inr (inl soft) ↦ rw (soft, PurgerSwitch.purge) (soft_delete-Keeps (id ∷ ids) w h)
      | inr (inr skip) ↦ rw (skip, PurgerSwitch.purge) (R.on_switch_log _ _ h)
    ]

    module _ (Allowed : Configuration → Type 0)
        (on_loaded : (w : K × Db Row) (c : Configuration)
          → (p.api.load_configuration w).0 ≡ ok c
          → Allowed c)
        (never : (w : K × Db Row) (c : Configuration)
          → Allowed c
          → ¬ MayHardPurge p.switch (λ _. c) w) where
      tick_outlives :
          (q : Plugin) → Allowed (get q.cfg) → Outlives (sweeper_of p q) (λ ids. Unit {0}) Kept
      tick_outlives q allowed = record {
        purges = λ ids w u h.
            rw
              (purge_never_hard p.switch (λ _. get q.cfg) w (sql_purger p) (λ ids w'. (ok 0, w'))
                ids (never w (get q.cfg) allowed))
              (idle_purge-Keeps (λ _. get q.cfg) ids w h);
        queries = λ w h. rw (rows-get_expired p.order (p.now w) _ w.1) h;
        deletes = λ ids w h. rw (rows-delete_by_post_ids p.order ids w.1) h;
        logs = R.on_sweep_log;
      }

      step-Allowed :
          (born : Text → ℕ) (l l' : Live K Row)
          → LiveStep p born Elsewhere l l'
          → Allowed (get l.plugin.cfg)
          → Allowed (get l'.plugin.cfg)
      step-Allowed born l _ (activated _) a =
          hook-Allowed p.api (expire_store p) Allowed on_loaded l.plugin _
            (activates l.plugin l.world) a
      step-Allowed born l _ (deactivated _) a =
          hook-Allowed p.api (expire_store p) Allowed on_loaded l.plugin _
            (deactivates l.plugin l.world) a
      step-Allowed born l _ (configured _) a =
          hook-Allowed p.api (expire_store p) Allowed on_loaded l.plugin _
            (configures l.plugin l.world) a
      step-Allowed born l _ (requested r _) a = a
      step-Allowed born l _ (commanded args _) a = a
      step-Allowed born l _ (posted post _ timely) a = a
      step-Allowed born l _ (ticked _ scheduled) a = a
      step-Allowed born l _ (elsewhere _ w e) a = a

      step-Kept :
          (born : Text → ℕ) (l l' : Live K Row)
          → LiveStep p born Elsewhere l l'
          → Allowed (get l.plugin.cfg)
          → Kept l.world
          → Kept l'.world
      step-Kept born l _ (activated _) a h =
          on_activate-Keeps p.api (expire_store p) Kept hooks_keep l.plugin l.world h
      step-Kept born l _ (deactivated _) a h =
          on_deactivate-Keeps p.api (expire_store p) Kept hooks_keep l.plugin l.world h
      step-Kept born l _ (configured _) a h =
          on_configuration_change-Keeps p.api (expire_store p) Kept hooks_keep l.plugin l.world h
      step-Kept born l _ (requested r _) a h =
          serve_http-Keeps (api_handler p) Kept handler_keeps p.mux r l.world h
      step-Kept born l _ (commanded args _) a h =
          execute_command-Keeps (api_handler p) p.parse_duration Kept handler_keeps args l.world h
      step-Kept born l _ (posted post _ timely) a h =
          message_has_been_posted-Keeps p.api (expire_store p) Kept hooks_keep (ttl_reader p) p.now
            index_keeps l.plugin post l.world h
      step-Kept born l _ (ticked _ scheduled) a h =
          tick_step-outlives (sweeper_of p l.plugin) Elsewhere (λ ids. Unit {0}) Kept
            (tick_outlives l.plugin a) l.phase l.world tt h
      step-Kept born l _ (elsewhere _ w e) a h = R.on_elsewhere l.world w e h

      -- For a fact about the server's tables that outlives soft deletes, events, logs, the calls of the
      -- hooks and what else happens, and configurations under which no state of the server permits a hard
      -- purge (the purge is disabled, the server has a license, or its version is not on the
      -- allowlist): if the plugin starts with such a configuration and the server gives it no other, the
      -- fact outlives every order of hooks, requests, commands, posts and calls of ticks, whatever fails.
      pub tables-Kept :
          (born : Text → ℕ) (l l' : Live K Row)
          → Allowed (get l.plugin.cfg)
          → LiveReach p born Elsewhere l l'
          → Kept l.world
          → Allowed (get l'.plugin.cfg) × Kept l'.world
      tables-Kept born l _ a here h = (a, h)
      tables-Kept born l l' a (later {u} r step) h =
          let (a', h') = tables-Kept born l u a r h in
          (step-Allowed born u l' step a', step-Kept born u l' step a' h')
