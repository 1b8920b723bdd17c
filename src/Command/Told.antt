-- ===== src/Command/Told.antt =====
-- What the user reads after a set, and what then holds of the channel.
use mattermost_plugin_messag.Base.{◌≡◌, ap, true, has_prefix, Option, ◌++◌, Text, text, Result, ok}
use mattermost_plugin_messag.Int64.{ℤ}
use mattermost_plugin_messag.Duration.{Duration}
use mattermost_plugin_messag.Ttl.{TtlSetting}
use mattermost_plugin_messag.TtlStore.{TtlSettingStore}
use mattermost_plugin_messag.TtlStore.Contract.{IsLawfulStore}
use mattermost_plugin_messag.TtlService.{PermissionChecker}
use mattermost_plugin_messag.Handler.{Handler, SetTtlRequest, TtlChanged, manager_of}
use mattermost_plugin_messag.Command.{CommandArgs, parse_ttl_arg, execute_command}
use mattermost_plugin_messag.Command.Texts.{
  ephemeral, reply_text, enabled_prefix, reply_text_enabled,
}
use mattermost_plugin_messag.Command.Enabled.{Enabled, execute_command-Enabled}

module _ {W : Type 0} (store : TtlSettingStore W) (perm : PermissionChecker W)
    (setting : W → Text → Option TtlSetting) (L : IsLawfulStore store setting)
    (publish : TtlChanged → W → W)
    (publish_keeps : (e : TtlChanged) (w : W) (j : Text) → setting (publish e w) j ≡ setting w j)
    (now : W → ℤ) (decode : Text → Result Text SetTtlRequest)
    (parse_duration : Text → Result Text Duration) (duration_string : Duration → Text) where
  abbrev handler : Handler W
  handler = record { ttl = manager_of store perm; publish = publish; now = now; decode = decode }

  -- Over a lawful store and a publisher that leaves the settings alone: if the response to a command
  -- begins with ":hourglass_flowing_sand: Disappearing messages enabled — auto-delete after ", it goes
  -- on with an argument that stands for a duration in range, and a full stop; the user may manage
  -- the channel, the channel's setting is that duration in seconds, and one event was published, which
  -- tells exactly this setting.
  pub execute_command_told :
      (args : CommandArgs) (w : W)
      → let (r, after) = execute_command handler parse_duration args w in
        let told = (ephemeral duration_string r).text in
        has_prefix told enabled_prefix ≡ true
        → (arg : Text) × (told ≡ enabled_prefix ++ (arg ++ text "."))
          × ((d : Duration) × (parse_ttl_arg parse_duration arg ≡ ok d)
              × Enabled store perm setting publish now args w d after)
  unfolding ephemeral reply_text
  execute_command_told args w told =
      let r = (execute_command handler parse_duration args w).0.reply in
      let (arg, same) = reply_text_enabled duration_string r told in
      (
        arg,
        ap (reply_text duration_string) same,
        execute_command-Enabled store perm setting L publish publish_keeps now decode parse_duration
            args w arg same,
      )
