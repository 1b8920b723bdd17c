-- ===== src/Command/Events.antt =====
-- When a command publishes an event.
use native.Mathlib.Omega.{arith}
use mattermost_plugin_messag.Base.{fields, ◌≡◌, ◌≢◌, List, [], ◌∷◌, Text, Result}
use mattermost_plugin_messag.Duration.{Duration}
use mattermost_plugin_messag.Handler.{Handler, TtlChanged}
use mattermost_plugin_messag.Command.{
  CommandArgs, Reply, enabled, disabled, cmd_set, cmd_off, cmd_status, dispatch, execute_command,
}

module _ {W : Type 0} (h : Handler W) (parse_duration : Text → Result Text Duration)
    (publish : TtlChanged → W → W) where
  -- the same handler with another publisher
  abbrev h' : Handler W
  h' = record h { publish = publish }

  -- A reply that tells no change.
  abbrev pub IsQuiet : Reply → Type 0
  IsQuiet r = ((arg : Text) → r ≢ enabled arg) × (r ≢ disabled)

  cmd_set_quiet :
      (args : CommandArgs) (rest : List Text) (w : W)
      → IsQuiet (cmd_set h parse_duration args rest w).0
      → cmd_set h parse_duration args rest w ≡ cmd_set h' parse_duration args rest w
  unfolding cmd_set
  cmd_set_quiet args [] w quiet = ground arith
  cmd_set_quiet args (arg ∷ rest) w quiet = ground (arith, quiet.0 arg)

  cmd_off_quiet :
      (args : CommandArgs) (w : W)
      → IsQuiet (cmd_off h parse_duration args w).0
      → cmd_off h parse_duration args w ≡ cmd_off h' parse_duration args w
  unfolding cmd_off
  cmd_off_quiet args w quiet = ground (arith, quiet.1)

  dispatch_quiet :
      (args : CommandArgs) (words : List Text) (w : W)
      → IsQuiet (dispatch h parse_duration args words w).0
      → dispatch h parse_duration args words w ≡ dispatch h' parse_duration args words w
  unfolding dispatch cmd_status
  dispatch_quiet args [] w quiet = ground arith
  dispatch_quiet args (trigger ∷ []) w quiet = ground arith
  dispatch_quiet args (trigger ∷ sub ∷ rest) w quiet =
      ground (arith, cmd_set_quiet args rest w, cmd_off_quiet args w)

  -- A command whose reply tells neither that a TTL was set nor that it was removed publishes
  -- nothing: another publisher would make no difference.
  pub execute_command_quiet :
      (args : CommandArgs) (w : W)
      → IsQuiet (execute_command h parse_duration args w).0.reply
      → execute_command h parse_duration args w ≡ execute_command h' parse_duration args w
  unfolding execute_command
  execute_command_quiet args w quiet =
      ground (arith, dispatch_quiet args (fields args.command) w quiet)
