-- ===== src/Plugin/Keeps.antt =====
-- What outlives the hooks that keep state.
use mattermost_plugin_messag.Base.{
  some, not, ◌||◌, [], text_eq, inl, inr, Bool, true, false, Result-cases, Bool-cases, state-wrap,
  if◌then◌else◌,
}
use mattermost_plugin_messag.ExpireStore.{ExpireIndexStore}
use mattermost_plugin_messag.Int64.{ℤ}
use mattermost_plugin_messag.ExpiryService.{Post, TtlReader, on_post_created}
use mattermost_plugin_messag.ExpiryService.Keeps.{IndexKeeps, on_post_created-Keeps}
use mattermost_plugin_messag.Plugin.{
  disappear_command, message_has_been_posted, PluginApi, PluginLog, Plugin, load_config,
  init_expiry, init_sweeper, register, activate_expiry, on_activate, on_deactivate,
  on_configuration_change,
}

-- `P` outlives the calls that the hooks make.
pub record HooksKeep {W : Type 0} (api : PluginApi W) (store : ExpireIndexStore W) (P : W → Type 0)
    : Type 0 where
  pub on_load : (w : W) → P w → P (api.load_configuration w).1
  pub on_register : (w : W) → P w → P (api.register_command disappear_command w).1
  pub on_master_db : (w : W) → P w → P (api.get_master_db w).1
  pub on_schedule : (w : W) → P w → P (api.schedule w).1
  pub on_close : (w : W) → P w → P (api.close_job w).1
  pub on_info : (w : W) → P w → P (api.log_info w)
  pub on_error : (m : PluginLog) (w : W) → P w → P (api.log_error m w)
  pub on_migrate : (w : W) → P w → P (store.migrate w).1

module _ {W : Type 0} (api : PluginApi W) (store : ExpireIndexStore W) (P : W → Type 0)
    (K : HooksKeep api store P) where
  pub load_config-Keeps : (q : Plugin) (w : W) → P w → P (load_config api store q w).1
  unfolding load_config
  load_config-Keeps q w h =
      let h' = K.on_load w h in
      elim (Result-cases (api.load_configuration w).0) [
        | inl (c, loaded) ↦ rw (loaded, load_config) h'
        | inr (e, failed) ↦ rw (failed, load_config) (K.on_error _ _ h')
      ]

  init_expiry-Keeps : (w : W) → P w → P (init_expiry api store w).1
  unfolding init_expiry
  init_expiry-Keeps w h =
      let h' = K.on_master_db w h in
      elim (Result-cases (api.get_master_db w).0) [
        | inr (e, failed) ↦ rw (failed, init_expiry) h'
        | inl (u, there) ↦ rw (there, init_expiry) (rw state-wrap (K.on_migrate _ h'))
      ]

  pub init_sweeper-Keeps : (q : Plugin) (w : W) → P w → P (init_sweeper api store q w).1
  unfolding init_sweeper
  init_sweeper-Keeps q w h =
      let h' = K.on_schedule w h in
      elim (Result-cases (api.schedule w).0) [
        | inl (u, scheduled) ↦ rw (scheduled, init_sweeper) h'
        | inr (e, failed) ↦ rw (failed, init_sweeper) (K.on_error _ _ h')
      ]

  pub activate_expiry-Keeps : (q : Plugin) (w : W) → P w → P (activate_expiry api store q w).1
  unfolding activate_expiry
  activate_expiry-Keeps q w h =
      let h' = init_expiry-Keeps w h in
      elim (Result-cases (init_expiry api store w).0) [
        | inr (e, failed) ↦ rw (failed, activate_expiry) (K.on_error _ _ h')
        | inl (u, ready) ↦ rw (ready, activate_expiry) (init_sweeper-Keeps _ _ h')
      ]

  pub register-Keeps : (w : W) → P w → P (register api store w)
  unfolding register
  register-Keeps w h =
      let h' = K.on_register w h in
      elim (Result-cases (api.register_command disappear_command w).0) [
        | inl (u, registered) ↦ rw (registered, register) h'
        | inr (e, failed) ↦ rw (failed, register) (K.on_error _ _ h')
      ]

  if-Keeps : (b : Bool) (x y : Plugin × W) → P x.1 → P y.1 → P (if b then x else y).1
  if-Keeps true x y h h' = h
  if-Keeps false x y h h' = h'

  pub on_activate-Keeps : (q : Plugin) (w : W) → P w → P (on_activate api store q w).1
  unfolding on_activate
  on_activate-Keeps q w h =
      let q' = load_config api store q (api.log_info w) in
      let h' = register-Keeps q'.1 (load_config-Keeps q _ (K.on_info w h)) in
      if-Keeps api.has_driver (activate_expiry api store q'.0 (register api store q'.1))
        (q'.0, register api store q'.1) (activate_expiry-Keeps q'.0 _ h') h'

  pub on_deactivate-Keeps : (q : Plugin) (w : W) → P w → P (on_deactivate api store q w).1
  unfolding on_deactivate
  on_deactivate-Keeps q w h = elim (Bool-cases q.sweeper_job) [
    | inr none ↦ rw (none, on_deactivate) (K.on_info w h)
    | inl scheduled ↦
        let h' = K.on_close w h in
        elim (Result-cases (api.close_job w).0) [
          | inl (u, closed) ↦ rw (scheduled, closed, on_deactivate) (K.on_info _ h')
          | inr (e, failed) ↦
              rw (scheduled, failed, on_deactivate) (K.on_info _ (K.on_error _ _ h'))
        ]
  ]

  pub on_configuration_change-Keeps :
      (q : Plugin) (w : W) → P w → P (on_configuration_change api store q w).1
  unfolding on_configuration_change
  on_configuration_change-Keeps q w h = load_config-Keeps q w h

  pub message_has_been_posted-Keeps :
      (get_ttl : TtlReader W) (now : W → ℤ)
      → IndexKeeps store get_ttl P
      → (q : Plugin) (post : Post) (w : W) → P w
      → P (message_has_been_posted api store get_ttl now q (some post) w)
  unfolding message_has_been_posted
  message_has_been_posted-Keeps get_ttl now I q post w h =
      let h' = on_post_created-Keeps store get_ttl now P I post w h in
      elim (Bool-cases (not q.expiry_service || text_eq post.id [])) [
        | inl skipped ↦ rw (skipped, message_has_been_posted) h
        | inr handled ↦ elim (Result-cases (on_post_created store get_ttl now post w).0) [
          | inl (u, done) ↦ rw (handled, done, message_has_been_posted) h'
          | inr (e, failed) ↦ rw (handled, failed, message_has_been_posted) (K.on_error _ _ h')
        ]
      ]
