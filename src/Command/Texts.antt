-- ===== src/Command/Texts.antt =====
-- The texts of the command's responses, and what the first words of one tell. `time.Duration.String`
-- is a parameter.
use mattermost_plugin_messag.Base.{◌≡◌, refl, true, has_prefix, ◌++◌, Text, text}
use mattermost_plugin_messag.Duration.{Duration}
use mattermost_plugin_messag.Command.{
  Reply, UserMessage, help, unknown_subcommand, usage, not_a_duration, failed, enabled, disabled,
  is_off, is_on, ttl_out_of_bounds, no_permission, unknown_channel, went_wrong, CommandResponse,
}

-- helpText
unfoldable pub help_text : Text
help_text =
    text
      "`/disappear set <duration>` (5m, 1h, 8h, 1d, 1w, or custom 1m–1y) · `/disappear status` · `/disappear off`"

-- the texts of userMessage
unfoldable pub user_message_text : UserMessage → Text
user_message_text ttl_out_of_bounds = text "TTL must be between 1 minute and 1 year."
user_message_text no_permission =
    text "You don't have permission to change this channel's disappearing settings."
user_message_text unknown_channel = text "Channel not found."
user_message_text went_wrong = text "Something went wrong. Please try again."

-- what stands before the argument of a set that was done
unfoldable pub enabled_prefix : Text
enabled_prefix = text ":hourglass_flowing_sand: Disappearing messages enabled — auto-delete after "

-- A model.CommandResponse; its type is that of an ephemeral response.
pub record ModelResponse : Type 0 where
  pub response_type : Text
  pub text : Text
  pub channel_id : Text

module _ (duration_string : Duration → Text) where
  unfoldable pub reply_text : Reply → Text
  reply_text help = help_text
  reply_text unknown_subcommand = text "Unknown `/disappear` subcommand. " ++ help_text
  reply_text usage = text "Usage: `/disappear set <duration>` (e.g. 1h, 30s, 1d, 45m)"
  reply_text (not_a_duration s) =
      text "`" ++ (s ++ text "` is not a valid duration (try 1h, 30s, 1d, 45m)")
  reply_text (failed m) = user_message_text m
  reply_text (enabled arg) = enabled_prefix ++ (arg ++ text ".")
  reply_text disabled = text "Disappearing messages disabled for this channel."
  reply_text is_off = text "Disappearing messages are off for this channel."
  reply_text (is_on d) =
      text ":hourglass_flowing_sand: Disappearing messages on — auto-delete after "
      ++ (duration_string d ++ text ".")

  -- ephemeral
  unfoldable pub ephemeral : CommandResponse → ModelResponse
  ephemeral r = record {
    response_type = text "ephemeral";
    text = reply_text r.reply;
    channel_id = r.channel_id;
  }

  -- Only a set that was done has a text that begins like this.
  pub reply_text_enabled :
      (r : Reply)
      → has_prefix (reply_text r) enabled_prefix ≡ true
      → (arg : Text) × (r ≡ enabled arg)
  unfolding reply_text help_text user_message_text enabled_prefix text has_prefix
  reply_text_enabled help h = cc
  reply_text_enabled unknown_subcommand h = cc
  reply_text_enabled usage h = cc
  reply_text_enabled (not_a_duration s) h = cc
  reply_text_enabled (failed ttl_out_of_bounds) h = cc
  reply_text_enabled (failed no_permission) h = cc
  reply_text_enabled (failed unknown_channel) h = cc
  reply_text_enabled (failed went_wrong) h = cc
  reply_text_enabled (enabled arg) h = (arg, refl)
  reply_text_enabled disabled h = cc
  reply_text_enabled is_off h = cc
  reply_text_enabled (is_on d) h = cc
