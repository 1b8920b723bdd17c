-- ===== src/Command.antt =====
-- server/api/command.go: the slash command /disappear over the TTL service. `time.ParseDuration` is
-- a parameter.
pub mod Events
pub mod Enabled
pub mod Keeps
pub mod Texts
pub mod Told
use mattermost_plugin_messag.Base.{
  fields, ℕ, Bool, true, false, ◌≡◌, refl, Option, none, some, List, [], ◌∷◌, ◌++◌, Text, text,
  text_eq, Result, ok, err, if◌then◌else◌,
}
use mattermost_plugin_messag.Duration.{Duration, seconds, of_seconds}
use mattermost_plugin_messag.Ttl.{
  TtlError, TtlSetting, preset_for_label, sentinel, is_invalid_ttl, is_forbidden,
  is_channel_not_found, is_too_many_retries,
}
use mattermost_plugin_messag.Handler.{Handler, to_dto, broadcast}

-- CommandTrigger
unfoldable pub command_trigger : Text
command_trigger = text "disappear"

-- what the command reads of a model.CommandArgs
pub record CommandArgs : Type 0 where
  pub command : Text
  pub user_id : Text
  pub channel_id : Text

-- The texts of userMessage.
pub data UserMessage : Type 0 where
  ttl_out_of_bounds no_permission unknown_channel went_wrong : UserMessage

-- The texts of the command's responses, each with its arguments.
pub data Reply : Type 0 where
  help unknown_subcommand usage : Reply
  not_a_duration : Text → Reply
  failed : UserMessage → Reply
  enabled : Text → Reply
  disabled is_off : Reply
  is_on : Duration → Reply

-- ephemeral: a response to the requester only
pub record CommandResponse : Type 0 where
  pub channel_id : Text
  pub reply : Reply

-- userMessage
unfoldable pub user_message : TtlError → UserMessage
user_message e = elim (sentinel e) [
  | some is_invalid_ttl ↦ ttl_out_of_bounds
  | some is_forbidden ↦ no_permission
  | some is_channel_not_found ↦ unknown_channel
  | some is_too_many_retries ↦ went_wrong
  | none ↦ went_wrong
]

-- parseTTLArg, whose error is the text of its message
unfoldable pub parse_ttl_arg : (Text → Result Text Duration) → Text → Result Reply Duration
parse_ttl_arg parse_duration s = elim (preset_for_label s) [
  | some p ↦ ok p.duration
  | none ↦ elim (parse_duration s) [ ok d ↦ ok d | err _ ↦ err (not_a_duration s) ]
]

module _ {W : Type 0} (h : Handler W) (parse_duration : Text → Result Text Duration) where
  -- cmdSet, with the words after the subcommand
  unfoldable pub cmd_set : CommandArgs → List Text → W → Reply × W
  cmd_set args [] w = (usage, w)
  cmd_set args (arg ∷ rest) w = elim (parse_ttl_arg parse_duration arg) [
    | err message ↦ (message, w)
    | ok d ↦
        let now = h.now w in
        let (r, w') = h.ttl.set_ttl args.user_id args.channel_id d now w in
        elim r [
          | err e ↦ (failed (user_message e), w')
          | ok _ ↦
              let set =
                some
                  (record { duration_seconds = seconds d; set_by = args.user_id; set_at = now }) in
              (enabled arg, broadcast h args.channel_id (to_dto set) w')
        ]
  ]

  -- cmdOff
  unfoldable pub cmd_off : CommandArgs → W → Reply × W
  cmd_off args w =
      let (r, w') = h.ttl.clear_ttl args.user_id args.channel_id w in
      elim r [
        | err e ↦ (failed (user_message e), w')
        | ok _ ↦ (disabled, broadcast h args.channel_id none w')
      ]

  -- cmdStatus
  unfoldable pub cmd_status : CommandArgs → W → Reply × W
  cmd_status args w =
      let (r, w') = h.ttl.get_setting args.channel_id w in
      elim r [
        | err e ↦ (failed (user_message e), w')
        | ok none ↦ (is_off, w')
        | ok (some s) ↦ (is_on (of_seconds s.duration_seconds), w')
      ]

  -- the switch of ExecuteCommand, over the words of the command
  unfoldable pub dispatch : CommandArgs → List Text → W → Reply × W
  dispatch args [] w = (help, w)
  dispatch args (trigger ∷ []) w = (help, w)
  dispatch args (trigger ∷ sub ∷ rest) w =
      if text_eq sub (text "set")
      then cmd_set args rest w
      else if text_eq sub (text "off")
      then cmd_off args w
      else if text_eq sub (text "status")
      then cmd_status args w
      else (unknown_subcommand, w)

  -- ExecuteCommand
  unfoldable pub execute_command : CommandArgs → W → CommandResponse × W
  execute_command args w =
      let (reply, w') = dispatch args (fields args.command) w in
      (record { channel_id = args.channel_id; reply = reply }, w')
