-- ===== src/Plugin/Loaded.antt =====
-- The configuration that the plugin holds: the zero value, or one that the server gave.
use native.Mathlib.Omega.{arith}
use mattermost_plugin_messag.Base.{
  ◌≡◌, inl, inr, Bool, true, false, ok, Result-cases, if◌then◌else◌,
}
use mattermost_plugin_messag.Configuration.{Configuration, get}
use mattermost_plugin_messag.ExpireStore.{ExpireIndexStore}
use mattermost_plugin_messag.Plugin.{
  PluginApi, Plugin, load_config, init_sweeper, register, activate_expiry, on_activate,
  on_deactivate, on_configuration_change,
}
use mattermost_plugin_messag.Plugin.Live.{HookStep, activates, deactivates, configures}

module _ {W : Type 0} (api : PluginApi W) (store : ExpireIndexStore W)
    (Allowed : Configuration → Type 0)
    (on_loaded : (w : W) (c : Configuration)
      → (api.load_configuration w).0 ≡ ok c
      → Allowed c) where
  load_config-Allowed :
      (q : Plugin) (w : W) → Allowed (get q.cfg) → Allowed (get (load_config api store q w).0.cfg)
  unfolding load_config
  load_config-Allowed q w a = elim (Result-cases (api.load_configuration w).0) [
    | inl (c, loaded) ↦ rw (loaded, load_config) (on_loaded w c loaded)
    | inr (e, failed) ↦ rw (failed, load_config) a
  ]

  cfg-activate_expiry : (q : Plugin) (w : W) → (activate_expiry api store q w).0.cfg ≡ q.cfg
  unfolding activate_expiry init_sweeper
  cfg-activate_expiry q w = ground arith

  if-Allowed :
      (b : Bool) (x y : Plugin × W)
      → Allowed (get x.0.cfg)
      → Allowed (get y.0.cfg)
      → Allowed (get (if b then x else y).0.cfg)
  if-Allowed true x y h h' = h
  if-Allowed false x y h h' = h'

  on_activate-Allowed :
      (q : Plugin) (w : W) → Allowed (get q.cfg) → Allowed (get (on_activate api store q w).0.cfg)
  unfolding on_activate
  on_activate-Allowed q w a =
      let q' = load_config api store q (api.log_info w) in
      let a' = load_config-Allowed q (api.log_info w) a in
      if-Allowed api.has_driver (activate_expiry api store q'.0 (register api store q'.1))
        (q'.0, register api store q'.1) (rw (cfg-activate_expiry q'.0 (register api store q'.1)) a')
        a'

  -- A hook leaves the plugin with the configuration that it had or with one that was loaded.
  pub hook-Allowed :
      (q q' : Plugin) → HookStep api store q q' → Allowed (get q.cfg) → Allowed (get q'.cfg)
  unfolding on_deactivate on_configuration_change
  hook-Allowed q q' (activates _ w) a = on_activate-Allowed q w a
  hook-Allowed q q' (deactivates _ w) a = ground arith
  hook-Allowed q q' (configures _ w) a = load_config-Allowed q w a
