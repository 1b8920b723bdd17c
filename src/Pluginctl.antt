-- ===== src/Pluginctl.antt =====
-- build/pluginctl/main.go: deployment of the plugin to a server, by the commands of pluginctl. The
-- client of the server, the environment and the network are parameters; `W` is the state of all.
pub mod Keeps
use mattermost_plugin_messag.Base.{
  ℕ, Bool, true, false, not, ◌&&◌, Option, none, some, List, [], ◌∷◌, Text, text, text_eq, Result,
  ok, err, if◌then◌else◌, Exec, pure, raise, wrap, ◌>>=◌, ◌>>◌,
}
use mattermost_plugin_messag.Int64.{ℤ}
use mattermost_plugin_messag.Logs.{LogsError, LogFormat, LogApi}
use mattermost_plugin_messag.Logs

-- The errors: the constructor is the format of `fmt.Errorf`, or of `errors.New`.
pub data CtlError : Type 0 where
  invalid_number_of_arguments invalid_second_argument no_site_url no_credentials : CtlError
  login_failed open_failed : Text → Text → CtlError
  upload_failed enable_failed disable_failed : Text → CtlError
  logs_failed : LogsError → CtlError

-- what the commands write to the log
pub data CtlLog : Type 0 where
  connecting no_socket authenticating_token : Text → CtlLog
  authenticating_as : Text → Text → CtlLog
  uploading enabling disabling : CtlLog

-- A model.Client4: over a socket, with a token, or logged in.
pub data Client : Type 0 where
  socket_client : Text → Client
  token_client session_client : Text → Text → Client

pub record CtlApi (W : Type 0) : Type 0 where
  pub getenv : Text → Text
  pub local_mode_socket_path : Text
  pub dial_unix : Text → Exec W Text (Unit {0})
  pub login : Text → Text → Text → Exec W Text (Unit {0})
  pub open_bundle : Text → Exec W Text Text
  pub upload_plugin_forced : Client → Text → Exec W Text (Unit {0})
  pub enable : Client → Text → Exec W Text (Unit {0})
  pub disable : Client → Text → Exec W Text (Unit {0})
  pub logs_api : Client → LogApi W
  pub log_format : LogFormat
  pub epoch : ℤ
  pub now : W → ℤ
  pub print : CtlLog → W → W

module _ {W : Type 0} (api : CtlApi W) where
  -- log.Print
  abbrev pub say : CtlLog → Exec W CtlError (Unit {0})
  say m w = (ok tt, api.print m w)

  -- getUnixClient
  unfoldable pub get_unix_client : Text → W → Option Client × W
  get_unix_client path w =
      let (r, w') = api.dial_unix path w in
      elim r [ err _ ↦ (none, w') | ok _ ↦ (some (socket_client path), w') ]

  abbrev is_empty : Text → Bool
  is_empty s = text_eq s []

  -- getClient, after no socket was found
  unfoldable pub get_http_client : Exec W CtlError Client
  get_http_client =
      let site_url = api.getenv (text "MM_SERVICESETTINGS_SITEURL") in
      let token = api.getenv (text "MM_ADMIN_TOKEN") in
      let username = api.getenv (text "MM_ADMIN_USERNAME") in
      let password = api.getenv (text "MM_ADMIN_PASSWORD") in
      if is_empty site_url
      then raise no_site_url
      else if not (is_empty token)
      then (do say (authenticating_token site_url); pure (token_client site_url token))
      else if not (is_empty username) && not (is_empty password)
      then (do
        say (authenticating_as username site_url)
        λ w. wrap (login_failed username) (api.login site_url username password w)
        pure (session_client site_url username))
      else raise no_credentials

  -- getClient
  unfoldable pub get_client : Exec W CtlError Client
  unfolding get_unix_client get_http_client
  get_client w =
      let from_env = api.getenv (text "MM_LOCALSOCKETPATH") in
      let path = if is_empty from_env then api.local_mode_socket_path else from_env in
      let (found, w') = get_unix_client path w in
      elim found [
        | some client ↦ (ok client, api.print (connecting path) w')
        | none ↦ get_http_client (if is_empty from_env then w' else api.print (no_socket path) w')
      ]

  -- disablePlugin
  unfoldable pub disable_plugin : Client → Text → Exec W CtlError (Unit {0})
  disable_plugin client plugin_id = do
    say disabling
    λ w. wrap disable_failed (api.disable client plugin_id w)

  -- enablePlugin
  unfoldable pub enable_plugin : Client → Text → Exec W CtlError (Unit {0})
  enable_plugin client plugin_id = do
    say enabling
    λ w. wrap enable_failed (api.enable client plugin_id w)

  -- resetPlugin
  unfoldable pub reset_plugin : Client → Text → Exec W CtlError (Unit {0})
  unfolding disable_plugin enable_plugin
  reset_plugin client plugin_id = do disable_plugin client plugin_id; enable_plugin client plugin_id

  -- deploy
  unfoldable pub deploy : Client → Text → Text → Exec W CtlError (Unit {0})
  deploy client plugin_id bundle_path = do
    bundle ← λ w. wrap (open_failed bundle_path) (api.open_bundle bundle_path w)
    say uploading
    λ w. wrap upload_failed (api.upload_plugin_forced client bundle w)
    say enabling
    λ w. wrap enable_failed (api.enable client plugin_id w)

  -- logs and watchLogs; the latter runs until an error, here for some ticks
  unfoldable pub run_logs : Client → Text → Exec W CtlError (Unit {0})
  run_logs client plugin_id w =
      wrap logs_failed (Logs.logs (api.logs_api client) api.log_format api.epoch plugin_id w)

  unfoldable pub run_watch : ℕ → ℕ → Client → Text → Exec W CtlError (Unit {0})
  run_watch fuel ticks client plugin_id = do
    watched ← λ w.
        wrap logs_failed
          (Logs.watch_logs (api.logs_api client) api.log_format fuel ticks plugin_id api.now w)
    pure tt

  -- the switch of pluginctl, over os.Args[1], os.Args[2] and the arguments after these
  unfoldable pub run_command : ℕ → ℕ → Client → Text → Text → List Text → Exec W CtlError (Unit {0})
  run_command fuel ticks client command plugin_id rest =
      if text_eq command (text "deploy")
      then elim rest [
        | [] ↦ raise invalid_number_of_arguments
        | bundle_path ∷ more ↦ deploy client plugin_id bundle_path
      ]
      else if text_eq command (text "disable")
      then disable_plugin client plugin_id
      else if text_eq command (text "enable")
      then enable_plugin client plugin_id
      else if text_eq command (text "reset")
      then reset_plugin client plugin_id
      else if text_eq command (text "logs")
      then run_logs client plugin_id
      else if text_eq command (text "logs-watch")
      then run_watch fuel ticks client plugin_id
      else raise invalid_second_argument

  -- pluginctl, over the arguments after the program's name
  unfoldable pub pluginctl : ℕ → ℕ → List Text → Exec W CtlError (Unit {0})
  pluginctl fuel ticks [] = raise invalid_number_of_arguments
  pluginctl fuel ticks (command ∷ []) = raise invalid_number_of_arguments
  pluginctl fuel ticks (command ∷ plugin_id ∷ rest) = do
    client ← get_client
    run_command fuel ticks client command plugin_id rest
