-- ===== src/Pluginctl/Keeps.antt =====
-- Which commands of pluginctl can change the plugins of the server.
use mattermost_plugin_messag.Base.{
  ℕ, ◌≡◌, inl, inr, Bool, true, false, not, ◌&&◌, List, [], ◌∷◌, Text, text, text_eq, any,
  Result-cases, Option-cases, Bool-cases, state-wrap, if◌then◌else◌, arith,
}
use mattermost_plugin_messag.Logs
use mattermost_plugin_messag.Logs.Keeps.{LogsKeep, logs-Keeps, watch_logs-Keeps}
use mattermost_plugin_messag.Pluginctl.{
  CtlLog, connecting, no_socket, authenticating_as, Client, CtlApi, get_unix_client,
  get_http_client, get_client, run_logs, run_watch, run_command, pluginctl,
}

-- `P` outlives connecting, logging in, reading logs and printing.
pub record CtlKeeps {W : Type 0} (api : CtlApi W) (P : W → Type 0) : Type 0 where
  pub on_dial : (path : Text) (w : W) → P w → P (api.dial_unix path w).1
  pub on_login : (url user password : Text) (w : W) → P w → P (api.login url user password w).1
  pub on_print : (m : CtlLog) (w : W) → P w → P (api.print m w)
  pub on_read : (client : Client) → LogsKeep (api.logs_api client) P

-- the commands that are to change the plugins
abbrev pub changing : List Text
changing = text "deploy" ∷ text "disable" ∷ text "enable" ∷ text "reset" ∷ []

module _ {W : Type 0} (api : CtlApi W) (P : W → Type 0) (K : CtlKeeps api P) where
  get_http_client-Keeps : (w : W) → P w → P (get_http_client api w).1
  unfolding get_http_client
  get_http_client-Keeps w h =
      let url = api.getenv (text "MM_SERVICESETTINGS_SITEURL") in
      let token = api.getenv (text "MM_ADMIN_TOKEN") in
      let username = api.getenv (text "MM_ADMIN_USERNAME") in
      let password = api.getenv (text "MM_ADMIN_PASSWORD") in
      elim (Bool-cases (text_eq url [])) [
        | inl no_url ↦ rw (no_url, get_http_client) h
        | inr url_set ↦ elim (Bool-cases (text_eq token [])) [
          | inr token_set ↦ rw (url_set, token_set, get_http_client) (K.on_print _ w h)
          | inl no_token ↦
              elim (Bool-cases (not (text_eq username []) && not (text_eq password []))) [
                | inr none_set ↦ rw (url_set, no_token, none_set, get_http_client) h
                | inl both ↦
                    let w' = api.print (authenticating_as username url) w in
                    let h' = K.on_login url username password w' (K.on_print _ w h) in
                    elim (Result-cases (api.login url username password w').0) [
                      | inr (e, failed) ↦ rw (url_set, no_token, both, failed, get_http_client) h'
                      | inl (u, done) ↦ rw (url_set, no_token, both, done, get_http_client) h'
                    ]
              ]
        ]
      ]

  get_unix_client-Keeps : (path : Text) (w : W) → P w → P (get_unix_client api path w).1
  unfolding get_unix_client
  get_unix_client-Keeps path w h =
      let h' = K.on_dial path w h in
      elim (Result-cases (api.dial_unix path w).0) [
        | inr (e, failed) ↦ rw (failed, get_unix_client) h'
        | inl (u, done) ↦ rw (done, get_unix_client) h'
      ]

  if-Keeps : (b : Bool) (w w' : W) → P w → P w' → P (if b then w else w')
  if-Keeps true w w' h h' = h
  if-Keeps false w w' h h' = h'

  get_client-Keeps : (w : W) → P w → P (get_client api w).1
  unfolding get_client
  get_client-Keeps w h =
      let from_env = api.getenv (text "MM_LOCALSOCKETPATH") in
      let path = if text_eq from_env [] then api.local_mode_socket_path else from_env in
      let w' = (get_unix_client api path w).1 in
      let h' = get_unix_client-Keeps path w h in
      elim (Option-cases (get_unix_client api path w).0) [
        | inr (client, found) ↦ rw (found, get_client) (K.on_print (connecting path) w' h')
        | inl missing ↦
            rw (missing, get_client)
              (get_http_client-Keeps _ (
                if-Keeps (text_eq from_env []) w' (api.print (no_socket path) w') h'
                  (K.on_print _ w' h')))
      ]

  run_logs-Keeps : (client : Client) (id : Text) (w : W) → P w → P (run_logs api client id w).1
  unfolding run_logs
  run_logs-Keeps client id w h =
      rw state-wrap
        (logs-Keeps (api.logs_api client) api.log_format P (K.on_read client) api.epoch id w h)

  run_watch-Keeps :
      (fuel ticks : ℕ) (client : Client) (id : Text) (w : W)
      → P w
      → P (run_watch api fuel ticks client id w).1
  unfolding run_watch
  run_watch-Keeps fuel ticks client id w h =
      let h' =
        watch_logs-Keeps (api.logs_api client) api.log_format P (K.on_read client) fuel ticks id
          api.now w h in
      elim (Result-cases
        (Logs.watch_logs (api.logs_api client) api.log_format fuel ticks id api.now w).0) [
          | inr (e, failed) ↦ rw (failed, run_watch) h'
          | inl (r, done) ↦ rw (done, run_watch) h'
        ]

  run_command-Keeps :
      (fuel ticks : ℕ) (client : Client) (command id : Text) (rest : List Text) (w : W)
      → any (λ c. text_eq command c) changing ≡ false
      → P w
      → P (run_command api fuel ticks client command id rest w).1
  unfolding run_command any
  run_command-Keeps fuel ticks client command id rest w reading h =
      let not_deploy : text_eq command (text "deploy") ≡ false = ground arith in
      let not_disable : text_eq command (text "disable") ≡ false = ground arith in
      let not_enable : text_eq command (text "enable") ≡ false = ground arith in
      let not_reset : text_eq command (text "reset") ≡ false = ground arith in
      rw (not_deploy, not_disable, not_enable, not_reset, run_command)
        (elim (Bool-cases (text_eq command (text "logs"))) [
          | inl is_logs ↦ rw is_logs (run_logs-Keeps client id w h)
          | inr not_logs ↦ elim (Bool-cases (text_eq command (text "logs-watch"))) [
            | inl is_watch ↦ rw (not_logs, is_watch) (run_watch-Keeps fuel ticks client id w h)
            | inr unknown ↦ rw (not_logs, unknown) h
          ]
        ])

  -- For a fact about the server that outlives connecting, logging in, reading logs and printing: it
  -- holds after any call of pluginctl whose command is none of deploy, disable, enable and reset, with
  -- whatever arguments and whatever fails.
  pub pluginctl-Keeps :
      (fuel ticks : ℕ) (command : Text) (rest : List Text) (w : W)
      → any (λ c. text_eq command c) changing ≡ false
      → P w
      → P (pluginctl api fuel ticks (command ∷ rest) w).1
  unfolding pluginctl
  pluginctl-Keeps fuel ticks command [] w reading h = h
  pluginctl-Keeps fuel ticks command (id ∷ rest) w reading h =
      let h' = get_client-Keeps w h in
      elim (Result-cases (get_client api w).0) [
        | inr (e, failed) ↦ rw (failed, pluginctl) h'
        | inl (client, connected) ↦
            rw (connected, pluginctl)
              (run_command-Keeps fuel ticks client command id rest _ reading h')
      ]
