-- ===== src/Plugin/Migrated.antt =====
-- What holds of the state once a hook has turned the expiry service on, if the migration brings it about.
use native.Mathlib.Omega.{arith}
use mattermost_plugin_messag.Base.{
  ◌≡◌, inl, inr, Bool, true, false, ok, Result-cases, state-wrap, if◌then◌else◌,
}
use mattermost_plugin_messag.ExpireStore.{ExpireIndexStore}
use mattermost_plugin_messag.Plugin.{
  PluginApi, Plugin, load_config, init_expiry, init_sweeper, register, activate_expiry, on_activate,
  on_deactivate, on_configuration_change,
}
use mattermost_plugin_messag.Plugin.Live.{load_config-same}
use mattermost_plugin_messag.Plugin.Keeps.{
  HooksKeep, load_config-Keeps, init_sweeper-Keeps, register-Keeps, activate_expiry-Keeps,
  on_deactivate-Keeps,
}

module _ {W : Type 0} (api : PluginApi W) (store : ExpireIndexStore W) (P : W → Type 0)
    (K : HooksKeep api store P)
    (migrates : (w : W) → (store.migrate w).0 ≡ ok tt → P (store.migrate w).1) where
  -- The expiry service is there only with `P`.
  abbrev pub ReadyIf : Plugin → W → Type 0
  ReadyIf q w = q.expiry_service ≡ true → P w

  init_expiry-ready : (w : W) → (init_expiry api store w).0 ≡ ok tt → P (init_expiry api store w).1
  unfolding init_expiry
  init_expiry-ready w fine = elim (Result-cases (api.get_master_db w).0) [
    | inr (e, failed) ↦ ground arith
    | inl (u, there) ↦ elim (Result-cases (store.migrate (api.get_master_db w).1).0) [
      | inr (e, failed) ↦ ground arith
      | inl (v, done) ↦
          rw (there, init_expiry) (rw state-wrap (migrates (api.get_master_db w).1 done))
    ]
  ]

  same_service :
      (q : Plugin) (w : W) → (init_sweeper api store q w).0.expiry_service ≡ q.expiry_service
  unfolding init_sweeper
  same_service q w = ground arith

  activate_expiry-ReadyIf :
      (q : Plugin) (w : W)
      → ReadyIf q w
      → ReadyIf (activate_expiry api store q w).0 (activate_expiry api store q w).1
  unfolding activate_expiry
  activate_expiry-ReadyIf q w old on = elim (Result-cases (init_expiry api store w).0) [
    | inr (e, failed) ↦
        activate_expiry-Keeps api store P K q w (old (rw (failed, activate_expiry) at on))
    | inl (u, fine) ↦
        rw (fine, activate_expiry) (init_sweeper-Keeps api store P K _ _ (init_expiry-ready w fine))
  ]

  if-ReadyIf :
      (b : Bool) (x y : Plugin × W)
      → ReadyIf x.0 x.1
      → ReadyIf y.0 y.1
      → let z = if b then x else y in ReadyIf z.0 z.1
  if-ReadyIf true x y h h' = h
  if-ReadyIf false x y h h' = h'

  load_config-ReadyIf :
      (q : Plugin) (w : W)
      → ReadyIf q w
      → ReadyIf (load_config api store q w).0 (load_config api store q w).1
  load_config-ReadyIf q w old on =
      load_config-Keeps api store P K q w (old (rw (load_config-same api store q w).1 at on))

  pub on_activate-ReadyIf :
      (q : Plugin) (w : W)
      → ReadyIf q w
      → ReadyIf (on_activate api store q w).0 (on_activate api store q w).1
  unfolding on_activate
  on_activate-ReadyIf q w old =
      let c = load_config api store q (api.log_info w) in
      let loaded : ReadyIf c.0 (register api store c.1) = λ on.
        register-Keeps api store P K c.1
          (load_config-ReadyIf q (api.log_info w) (λ h. K.on_info w (old h)) on) in
      if-ReadyIf api.has_driver (activate_expiry api store c.0 (register api store c.1))
        (c.0, register api store c.1) (activate_expiry-ReadyIf c.0 (register api store c.1) loaded)
        loaded

  same_after_deactivate :
      (q : Plugin) (w : W) → (on_deactivate api store q w).0.expiry_service ≡ q.expiry_service
  unfolding on_deactivate
  same_after_deactivate q w = ground arith

  pub on_deactivate-ReadyIf :
      (q : Plugin) (w : W)
      → ReadyIf q w
      → ReadyIf (on_deactivate api store q w).0 (on_deactivate api store q w).1
  on_deactivate-ReadyIf q w old on =
      on_deactivate-Keeps api store P K q w (old (rw (same_after_deactivate q w) at on))

  pub on_configuration_change-ReadyIf :
      (q : Plugin) (w : W)
      → ReadyIf q w
      → ReadyIf (on_configuration_change api store q w).0 (on_configuration_change api store q w).1
  unfolding on_configuration_change
  on_configuration_change-ReadyIf q w old on = load_config-ReadyIf q w old on
