-- ===== src/PurgerSwitch.antt =====
-- server/purger_switch.go: each purge goes to a soft delete, a skip or the hard purge, by the live
-- configuration and the server's license and version. `W` is the state of the server.
pub mod Routes
pub mod Keeps
use mattermost_plugin_messag.Base.{
  ℕ, Bool, Option, none, some, List, [], ◌∷◌, length, Text, Result, ok, err, Exec, wrap,
}
use mattermost_plugin_messag.Ttl.{AppError}
use mattermost_plugin_messag.Configuration.{
  Configuration, purge_schema_allowlist, PurgeMode, purge_soft, purge_skip, purge_hard,
  purge_decision,
}

-- purge.Purger, with the errors `E` of the implementation
abbrev pub Purger : Type 0 → Type 0 → Type 0
Purger W E = List Text → Exec W E ℕ

-- what the switch writes to the log
pub data SwitchLog : Type 0 where
  hard_purge_skipped : Text → SwitchLog
  soft_delete_failed : Text → AppError → SwitchLog

-- softDeleter and versionLogger, the plugin API's calls; `has_license` is `GetLicense() != nil`
pub record SwitchApi (W : Type 0) : Type 0 where
  pub delete_post : Text → Exec W AppError (Unit {0})
  pub get_server_version : W → Text
  pub has_license : W → Bool
  pub log_error : SwitchLog → W → W

-- errSchemaSkipped, or an error of the hard purge
pub data SwitchError (E : Type 0) : Type 0 where
  schema_skipped : SwitchError E
  hard_failed : E → SwitchError E

module _ {W : Type 0} (api : SwitchApi W) where
  -- one round of softDelete
  unfoldable pub soft_delete_post : Text → W → W
  soft_delete_post id w =
      let (r, w') = api.delete_post id w in
      elim r [ ok _ ↦ w' | err e ↦ api.log_error (soft_delete_failed id e) w' ]

  -- the loop of configPurger.softDelete
  unfoldable pub soft_delete : List Text → W → W
  unfolding soft_delete_post
  soft_delete [] w = w
  soft_delete (id ∷ ids) w = soft_delete ids (soft_delete_post id w)

  -- the mode that configPurger.Purge chooses in the state `w`
  unfoldable pub mode : (W → Configuration) → W → PurgeMode
  mode get_config w =
      let cfg = get_config w in
      purge_decision cfg.enable_purge (api.has_license w) (api.get_server_version w)
        (purge_schema_allowlist (some cfg))

  -- configPurger.Purge; `get_config` reads the configHolder
  unfoldable pub purge : {E : Type 0} → (W → Configuration) → Purger W E → Purger W (SwitchError E)
  purge get_config hard [] w = (ok 0, w)
  purge get_config hard (id ∷ ids) w = elim (mode get_config w) [
    | purge_soft ↦ (ok (length (id ∷ ids)), soft_delete (id ∷ ids) w)
    | purge_skip ↦
        (err schema_skipped, api.log_error (hard_purge_skipped (api.get_server_version w)) w)
    | purge_hard ↦ wrap hard_failed (hard (id ∷ ids) w)
  ]
