-- ===== src/Plugin.antt =====
-- server/plugin.go: the hooks of the plugin. Each returns no error to the server; what fails is
-- logged, and leaves the parts that depend on it off.
pub mod Live
pub mod Keeps
pub mod Loaded
pub mod Migrated
use mattermost_plugin_messag.Base.{
  Bool, true, false, not, ◌&&◌, ◌||◌, Option, none, some, [], Text, text, text_eq, Result, ok, err,
  if◌then◌else◌, Exec, wrap, ◌>>=◌, ◌>>◌,
}
use mattermost_plugin_messag.Int64.{ℤ}
use mattermost_plugin_messag.Ttl.{AppError}
use mattermost_plugin_messag.Command.{command_trigger}
use mattermost_plugin_messag.Configuration.{Configuration, ConfigHolder, set}
use mattermost_plugin_messag.ExpireStore.{StoreError, ExpireIndexStore}
use mattermost_plugin_messag.ExpiryService.{Post, ExpiryError, TtlReader, on_post_created}

-- An error of initExpiry, which is passed on as it is.
pub data InitError : Type 0 where
  no_master_db : AppError → InitError
  not_migrated : StoreError → InitError

-- what the hooks write to the log as errors
pub data PluginLog : Type 0 where
  not_loaded not_registered sweeper_disabled not_closed : AppError → PluginLog
  index_disabled : InitError → PluginLog
  not_indexed : Text → ExpiryError → PluginLog

-- A model.Command.
pub record SlashCommand : Type 0 where
  pub trigger : Text
  pub display_name : Text
  pub description : Text
  pub auto_complete : Bool
  pub auto_complete_desc : Text
  pub auto_complete_hint : Text

-- disappearCommand
unfoldable pub disappear_command : SlashCommand
unfolding text command_trigger
disappear_command = record {
  trigger = command_trigger;
  display_name = text "Disappearing Messages";
  description = text "Manage disappearing messages per channel";
  auto_complete = true;
  auto_complete_desc = text "Set, view or clear the channel's disappearing-message TTL";
  auto_complete_hint = text "[set <duration> | status | off]";
}

-- The calls of the plugin API and of the cluster job; `has_driver` is `p.Driver != nil`.
pub record PluginApi (W : Type 0) : Type 0 where
  pub has_driver : Bool
  pub load_configuration : Exec W AppError Configuration
  pub register_command : SlashCommand → Exec W AppError (Unit {0})
  pub get_master_db : Exec W AppError (Unit {0})
  pub schedule : Exec W AppError (Unit {0})
  pub close_job : Exec W AppError (Unit {0})
  pub log_info : W → W
  pub log_error : PluginLog → W → W

-- The fields of Plugin that hooks set: the live configuration, and whether expiryService and
-- sweeperJob are there.
pub record Plugin : Type 0 where
  pub cfg : ConfigHolder
  pub expiry_service : Bool
  pub sweeper_job : Bool

module _ {W : Type 0} (api : PluginApi W) (store : ExpireIndexStore W) where
  -- loadConfig
  unfoldable pub load_config : Plugin → W → Plugin × W
  load_config p w =
      let (r, w') = api.load_configuration w in
      elim r [
        | ok c ↦ (record p { cfg = set c p.cfg }, w')
        | err e ↦ (p, api.log_error (not_loaded e) w')
      ]

  -- initExpiry, without the assignments of its end
  unfoldable pub init_expiry : Exec W InitError (Unit {0})
  init_expiry = do
    λ w. wrap no_master_db (api.get_master_db w)
    λ w. wrap not_migrated (store.migrate w)

  -- initSweeper
  unfoldable pub init_sweeper : Plugin → W → Plugin × W
  init_sweeper p w =
      let (r, w') = api.schedule w in
      elim r [
        | ok _ ↦ (record p { sweeper_job = true }, w')
        | err e ↦ (p, api.log_error (sweeper_disabled e) w')
      ]

  -- the part of OnActivate that needs the driver
  unfoldable pub activate_expiry : Plugin → W → Plugin × W
  activate_expiry p w =
      let (r, w') = init_expiry w in
      elim r [
        | err e ↦ (p, api.log_error (index_disabled e) w')
        | ok _ ↦ init_sweeper (record p { expiry_service = true }) w'
      ]

  -- the registration of the command
  unfoldable pub register : W → W
  register w =
      let (r, w') = api.register_command disappear_command w in
      elim r [ ok _ ↦ w' | err e ↦ api.log_error (not_registered e) w' ]

  -- OnActivate
  unfoldable pub on_activate : Plugin → W → Plugin × W
  unfolding register activate_expiry
  on_activate p w =
      let (p', w') = load_config p (api.log_info w) in
      if api.has_driver then activate_expiry p' (register w') else (p', register w')

  -- OnDeactivate
  unfoldable pub on_deactivate : Plugin → W → Plugin × W
  on_deactivate p w = elim p.sweeper_job [
    | false ↦ (p, api.log_info w)
    | true ↦
        let (r, w') = api.close_job w in
        elim r [
          | ok _ ↦ (p, api.log_info w')
          | err e ↦ (p, api.log_info (api.log_error (not_closed e) w'))
        ]
  ]

  -- OnConfigurationChange
  unfoldable pub on_configuration_change : Plugin → W → Plugin × W
  unfolding load_config
  on_configuration_change p w = load_config p w

  -- MessageHasBeenPosted; `none` is a nil post
  unfoldable pub message_has_been_posted : TtlReader W → (W → ℤ) → Plugin → Option Post → W → W
  message_has_been_posted get_ttl now p none w = w
  message_has_been_posted get_ttl now p (some post) w =
      if not p.expiry_service || text_eq post.id []
      then w
      else let (r, w') = on_post_created store get_ttl now post w in
        elim r [ ok _ ↦ w' | err e ↦ api.log_error (not_indexed post.id e) w' ]
