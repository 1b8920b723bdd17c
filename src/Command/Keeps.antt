-- ===== src/Command/Keeps.antt =====
-- What outlives a slash command.
use mattermost_plugin_messag.Base.{
  fields, inl, inr, none, some, List, [], ◌∷◌, Text, text, text_eq, Result, Result-cases,
  Bool-cases,
}
use mattermost_plugin_messag.Duration.{Duration}
use mattermost_plugin_messag.Handler.{Handler}
use mattermost_plugin_messag.Handler.Keeps.{HandlerKeeps}
use mattermost_plugin_messag.Command.{
  CommandArgs, parse_ttl_arg, cmd_set, cmd_off, cmd_status, dispatch, execute_command,
}

module _ {W : Type 0} (h : Handler W) (parse_duration : Text → Result Text Duration)
    (P : W → Type 0) (K : HandlerKeeps h P) where
  cmd_set-Keeps :
      (args : CommandArgs) (rest : List Text) (w : W)
      → P w
      → P (cmd_set h parse_duration args rest w).1
  unfolding cmd_set
  cmd_set-Keeps args [] w p = p
  cmd_set-Keeps args (arg ∷ rest) w p = elim (Result-cases (parse_ttl_arg parse_duration arg)) [
    | inr (e, bad) ↦ rw (bad, cmd_set) p
    | inl (d, parsed) ↦
        let p' = K.on_set args.user_id args.channel_id d (h.now w) w p in
        elim (Result-cases (h.ttl.set_ttl args.user_id args.channel_id d (h.now w) w).0) [
          | inr (e, failed) ↦ rw (parsed, failed, cmd_set) p'
          | inl (tt, done) ↦ rw (parsed, done, cmd_set) (K.on_publish _ _ p')
        ]
  ]

  cmd_off-Keeps : (args : CommandArgs) (w : W) → P w → P (cmd_off h parse_duration args w).1
  unfolding cmd_off
  cmd_off-Keeps args w p =
      let p' = K.on_clear args.user_id args.channel_id w p in
      elim (Result-cases (h.ttl.clear_ttl args.user_id args.channel_id w).0) [
        | inr (e, failed) ↦ rw (failed, cmd_off) p'
        | inl (tt, done) ↦ rw (done, cmd_off) (K.on_publish _ _ p')
      ]

  cmd_status-Keeps : (args : CommandArgs) (w : W) → P w → P (cmd_status h parse_duration args w).1
  unfolding cmd_status
  cmd_status-Keeps args w p =
      let p' = K.on_get args.channel_id w p in
      elim (Result-cases (h.ttl.get_setting args.channel_id w).0) [
        | inr (e, failed) ↦ rw (failed, cmd_status) p'
        | inl (none, read) ↦ rw (read, cmd_status) p'
        | inl (some s, read) ↦ rw (read, cmd_status) p'
      ]

  dispatch-Keeps :
      (args : CommandArgs) (words : List Text) (w : W)
      → P w
      → P (dispatch h parse_duration args words w).1
  unfolding dispatch
  dispatch-Keeps args [] w p = p
  dispatch-Keeps args (trigger ∷ []) w p = p
  dispatch-Keeps args (trigger ∷ sub ∷ rest) w p = elim (Bool-cases (text_eq sub (text "set"))) [
    | inl is_set ↦ rw (is_set, dispatch) (cmd_set-Keeps args rest w p)
    | inr not_set ↦ elim (Bool-cases (text_eq sub (text "off"))) [
      | inl is_off ↦ rw (not_set, is_off, dispatch) (cmd_off-Keeps args w p)
      | inr not_off ↦ elim (Bool-cases (text_eq sub (text "status"))) [
        | inl is_status ↦ rw (not_set, not_off, is_status, dispatch) (cmd_status-Keeps args w p)
        | inr unknown ↦ rw (not_set, not_off, unknown, dispatch) p
      ]
    ]
  ]

  pub execute_command-Keeps :
      (args : CommandArgs) (w : W) → P w → P (execute_command h parse_duration args w).1
  unfolding execute_command
  execute_command-Keeps args w p = dispatch-Keeps args (fields args.command) w p
