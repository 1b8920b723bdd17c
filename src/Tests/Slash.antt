-- ===== src/Tests/Slash.antt =====
-- The theorems about the slash command and the primary key at concrete data.
use mattermost_plugin_messag.Base.{
  fields, is_space, ◌≡◌, refl, true, has_prefix, ◌++◌, none, [], Text, text, text_eq, Result, ok,
  err,
}
use mattermost_plugin_messag.Int64.{pos}
use mattermost_plugin_messag.Duration.{Duration}
use mattermost_plugin_messag.Database.{Db, table}
use mattermost_plugin_messag.ExpireStore.{migrate, upsert}
use mattermost_plugin_messag.ExpireStore.Counts.{IsKeyed}
use mattermost_plugin_messag.ExpireStore.PrimaryKey.{
  Reachable, fresh, later, migrates, upserts, Reachable-IsKeyed,
}
use mattermost_plugin_messag.Ttl.{validate_ttl, preset_for_label}
use mattermost_plugin_messag.TtlService.{check_can_manage, set_ttl}
use mattermost_plugin_messag.Handler.{Handler, manager_of, SetTtlRequest, TtlChanged}
use mattermost_plugin_messag.Command.{
  CommandArgs, parse_ttl_arg, cmd_set, dispatch, execute_command,
}
use mattermost_plugin_messag.Command.Enabled.{Enabled}
use mattermost_plugin_messag.Command.Told.{execute_command_told}
use mattermost_plugin_messag.Command.Texts.{ephemeral, reply_text, enabled_prefix}
use mattermost_plugin_messag.Tests.{
  SettingsByChannel, memory_store, setting, memory_store-IsLawful, bob, town, permissions, by_time,
  column, entry_at,
}

abbrev nothing : SettingsByChannel
nothing c = none

-- Only presets are durations.
abbrev no_durations : Text → Result Text Duration
no_durations s = err []

abbrev no_requests : Text → Result Text SetTtlRequest
no_requests s = err []

abbrev silent : TtlChanged → SettingsByChannel → SettingsByChannel
silent e w = w

abbrev slash : Handler SettingsByChannel
slash = record {
  ttl = manager_of memory_store permissions;
  publish = silent;
  now = λ w. pos 5;
  decode = no_requests;
}

abbrev set_day : CommandArgs
set_day = record { command = text "/disappear set 1d"; user_id = bob; channel_id = town }

day_told :
    has_prefix
      (ephemeral (λ d. []) (execute_command slash no_durations set_day nothing).0).text
      enabled_prefix
    ≡ true
unfolding ephemeral reply_text enabled_prefix has_prefix execute_command fields is_space dispatch
    cmd_set parse_ttl_arg preset_for_label set_ttl check_can_manage validate_ttl text_eq text
day_told = refl

execute_command_told_example :
    let (r, after) = execute_command slash no_durations set_day nothing in
    (arg : Text) × ((ephemeral (λ d. []) r).text ≡ enabled_prefix ++ (arg ++ text "."))
    × ((d : Duration) × (parse_ttl_arg no_durations arg ≡ ok d)
        × Enabled memory_store permissions setting silent (λ w. pos 5) set_day nothing d after)
execute_command_told_example =
    execute_command_told memory_store permissions setting memory_store-IsLawful silent
      (λ e w j. refl) (λ w. pos 5) no_requests no_durations (λ d. []) set_day nothing day_told

-- A database after the migration and two posts with one id.
abbrev empty : Db Text
empty = record { expire = none; rows = λ t. []; outcomes = [] }

abbrev migrated : Db Text
migrated = (migrate by_time empty).1

abbrev posted : Db Text
posted = (upsert by_time (entry_at town town 100) migrated).1

abbrev posted_again : Db Text
posted_again = (upsert by_time (entry_at town bob 200) posted).1

posted_again-Reachable : Reachable by_time column posted_again
posted_again-Reachable =
    later posted posted_again
      (later migrated posted (later empty migrated (fresh empty refl) (migrates empty))
        (upserts (entry_at town town 100) migrated))
      (upserts (entry_at town bob 200) posted)

Reachable-IsKeyed_example : IsKeyed (table posted_again)
Reachable-IsKeyed_example = Reachable-IsKeyed by_time column posted_again posted_again-Reachable
