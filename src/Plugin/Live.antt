-- ===== src/Plugin/Live.antt =====
-- Which parts are live after the hooks.
use native.Mathlib.Omega.{arith}
use mattermost_plugin_messag.Base.{◌≡◌, ◌⊎◌, true, false}
use mattermost_plugin_messag.ExpireStore.{ExpireIndexStore}
use mattermost_plugin_messag.Plugin.{
  PluginApi, Plugin, load_config, init_sweeper, register, activate_expiry, on_activate,
  on_deactivate, on_configuration_change,
}

-- The sweeper runs only over an index that was migrated.
abbrev pub IsOrdered : Plugin → Type 0
IsOrdered p = (p.sweeper_job ≡ false) ⊎ (p.expiry_service ≡ true)

module _ {W : Type 0} (api : PluginApi W) (store : ExpireIndexStore W) where
  -- The calls of one hook that keeps state.
  pub data HookStep : Plugin → Plugin → Type 0 where
    activates : (p : Plugin) (w : W) → HookStep p (on_activate api store p w).0
    deactivates : (p : Plugin) (w : W) → HookStep p (on_deactivate api store p w).0
    configures : (p : Plugin) (w : W) → HookStep p (on_configuration_change api store p w).0

  pub load_config-same :
      (p : Plugin) (w : W)
      → ((load_config api store p w).0.sweeper_job ≡ p.sweeper_job)
        × ((load_config api store p w).0.expiry_service ≡ p.expiry_service)
  unfolding load_config
  load_config-same p w = (ground arith, ground arith)

  activate_expiry-IsOrdered :
      (p : Plugin) (w : W) → IsOrdered p → IsOrdered (activate_expiry api store p w).0
  unfolding activate_expiry init_sweeper
  activate_expiry-IsOrdered p w h = ground arith

  on_activate-IsOrdered :
      (p : Plugin) (w : W) → IsOrdered p → IsOrdered (on_activate api store p w).0
  unfolding on_activate
  on_activate-IsOrdered p w h =
      let q = load_config api store p (api.log_info w) in
      ground (
        arith,
        load_config-same p (api.log_info w),
        activate_expiry-IsOrdered q.0 (register api store q.1),
      )

  -- If the sweeper's job is there only together with the expiry service, so it is after OnActivate,
  -- OnDeactivate and OnConfigurationChange, whichever of their calls fail.
  pub hook-IsOrdered : (p p' : Plugin) → HookStep p p' → IsOrdered p → IsOrdered p'
  unfolding on_deactivate on_configuration_change
  hook-IsOrdered p p' (activates _ w) h = on_activate-IsOrdered p w h
  hook-IsOrdered p p' (deactivates _ w) h = ground arith
  hook-IsOrdered p p' (configures _ w) h = ground (arith, load_config-same p w)
