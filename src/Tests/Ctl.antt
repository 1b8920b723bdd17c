-- ===== src/Tests/Ctl.antt =====
-- The theorem about the commands of pluginctl at a server that counts the changes of its plugins.
use mattermost_plugin_messag.Base.{
  ℕ, ◌+◌, ◌≡◌, refl, true, false, some, [], ◌∷◌, text, text_eq, any, ok, err,
}
use mattermost_plugin_messag.Int64.{pos}
use mattermost_plugin_messag.Pluginctl.{
  CtlApi, pluginctl, get_client, get_unix_client, run_command, enable_plugin,
}
use mattermost_plugin_messag.Pluginctl.Keeps.{CtlKeeps, changing, pluginctl-Keeps}

-- A server that can be reached over its socket, and has no log entries.
abbrev counting : CtlApi ℕ
counting = record {
  getenv = λ name. [];
  local_mode_socket_path = text "/var/tmp/mattermost_local.socket";
  dial_unix = λ path w. (ok tt, w);
  login = λ url user password w. (ok tt, w);
  open_bundle = λ path w. (ok path, w);
  upload_plugin_forced = λ client bundle w. (ok tt, w + 1);
  enable = λ client id w. (ok tt, w + 1);
  disable = λ client id w. (ok tt, w + 1);
  logs_api = λ client. record {
    get_config = λ w. (ok (some true), w);
    get_logs = λ page per_page w. (ok [], w);
    write_string = λ s w. (ok tt, w);
  };
  log_format = record { unmarshal = λ e. err []; parse_time = λ t. err [] };
  epoch = pos 0;
  now = λ w. pos 0;
  print = λ m w. w;
}

counting-Keeps : CtlKeeps counting (λ w. w ≡ 5)
counting-Keeps = record {
  on_dial = λ path w h. h;
  on_login = λ url user password w h. h;
  on_print = λ m w h. h;
  on_read = λ client. record {
    on_config = λ w h. h;
    on_logs = λ page per_page w h. h;
    on_write = λ s w h. h;
  };
}

is_reading : any (λ c. text_eq (text "logs") c) changing ≡ false
unfolding any text text_eq
is_reading = refl

pluginctl-Keeps_example : (pluginctl counting 3 2 (text "logs" ∷ text "mpmd" ∷ []) 5).1 ≡ 5
pluginctl-Keeps_example =
    pluginctl-Keeps counting (λ w. w ≡ 5) counting-Keeps 3 2 (text "logs") (text "mpmd" ∷ []) 5
      is_reading refl

-- enabling changes them
abbrev counted : ℕ
counted = (pluginctl counting 3 2 (text "enable" ∷ text "mpmd" ∷ []) 5).1

enabling_changes : counted ≡ 6
unfolding pluginctl get_client get_unix_client run_command enable_plugin text text_eq
enabling_changes = refl
