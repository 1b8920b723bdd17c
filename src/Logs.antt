-- ===== src/Logs.antt =====
-- build/pluginctl/logs.go: the log entries of the plugin, read from the server page by page. The
-- client of the server, JSON and `time.Parse` are parameters; `W` is the state of the server and of
-- the standard output.
pub mod Entries
pub mod Filter
pub mod Pages
pub mod Repeats
pub mod Keeps
use mattermost_plugin_messag.Base.{
  ℕ, zero, suc, ◌+◌, Bool, true, false, not, Option, none, some, List, [], ◌∷◌, ◌++◌, map, drop,
  length, Text, text, text_eq, Result, ok, err, if◌then◌else◌, Exec, pure, raise, wrap, lift, ◌>>=◌,
  ◌>>◌, ◌==◌, ◌≡◌, refl,
}
use mattermost_plugin_messag.Int64.{ℤ, ltb_ℤ}

-- The errors: the constructor is the format of `fmt.Errorf`, or of `errors.New`.
pub data LogsError : Type 0 where
  fetching_logs printing_logs fetching_config getting_logs filtering_logs : LogsError → LogsError
  unmarshal_failed unknown_timestamp write_failed api_failed : Text → LogsError
  json_disabled : LogsError

-- logEntry
pub record LogEntry : Type 0 where
  pub plugin_id : Text
  pub timestamp : Text

-- json.Unmarshal of a log entry, and time.Parse of its timestamp
pub record LogFormat : Type 0 where
  pub unmarshal : Text → Result Text LogEntry
  pub parse_time : Text → Result Text ℤ

-- The calls of the client and the standard output. `get_config` gives LogSettings.FileJson.
pub record LogApi (W : Type 0) : Type 0 where
  pub get_config : Exec W Text (Option Bool)
  pub get_logs : ℕ → ℕ → Exec W Text (List Text)
  pub write_string : Text → Exec W Text (Unit {0})

abbrev pub logs_per_page : ℕ
logs_per_page = 100

-- strings.TrimPrefix(e, "\n")
abbrev pub trim_newline : Text → Text
trim_newline [] = []
trim_newline (c ∷ e) = if c == 10 then e else c ∷ e

-- filterLogEntries
unfoldable pub filter_log_entries : LogFormat → List Text → Text → ℤ → Result LogsError (List Text)
filter_log_entries format [] plugin_id since = ok []
filter_log_entries format (e ∷ logs) plugin_id since =
    let rest = filter_log_entries format logs plugin_id since in
    elim (format.unmarshal e) [
      | err x ↦ err (unmarshal_failed x)
      | ok le ↦
          if not (text_eq le.plugin_id plugin_id)
          then rest
          else elim (format.parse_time le.timestamp) [
            | err x ↦ err (unknown_timestamp x)
            | ok t ↦
                if ltb_ℤ t since
                then rest
                else elim rest [ ok ret ↦ ok (trim_newline e ∷ ret) | err x ↦ err x ]
          ]
    ]

-- slices.Index
unfoldable pub index_of : List Text → Text → Option ℕ
index_of [] e = none
index_of (x ∷ xs) e =
    let rest = index_of xs e in
    if text_eq x e then some 0 else elim rest [ none ↦ none | some i ↦ some (suc i) ]

-- logs[len(logs)-1], and `oldest` for no logs
unfoldable pub last_or : Text → List Text → Text
last_or oldest [] = oldest
last_or oldest (e ∷ logs) = last_or e logs

-- What checkOldestEntry returns: the new entries, the new oldest entry, and whether all are new.
pub record Checked : Type 0 where
  pub entries : List Text
  pub oldest : Text
  pub all_new : Bool

-- checkOldestEntry
unfoldable pub check_oldest_entry : List Text → Text → Checked
check_oldest_entry [] oldest = record { entries = []; oldest = oldest; all_new = false }
check_oldest_entry (e ∷ es) oldest =
    let logs = e ∷ es in
    elim (index_of logs oldest) [
      | none ↦ record { entries = logs; oldest = last_or oldest logs; all_new = true }
      | some i ↦
          if i + 1 == length logs
          then record { entries = []; oldest = oldest; all_new = false }
          else record { entries = drop (i + 1) logs; oldest = last_or oldest logs; all_new = false }
    ]

module _ {W : Type 0} (api : LogApi W) (format : LogFormat) where
  -- checkJSONLogsSetting
  unfoldable pub check_json_logs_setting : Exec W LogsError (Unit {0})
  check_json_logs_setting = do
    file_json ← λ w. wrap (λ e. fetching_config (api_failed e)) (api.get_config w)
    elim file_json [
      | none ↦ raise json_disabled
      | some false ↦ raise json_disabled
      | some true ↦ pure tt
    ]

  -- fetchLogs
  unfoldable pub fetch_logs : ℕ → ℕ → Text → ℤ → Exec W LogsError (List Text)
  fetch_logs page per_page plugin_id since = do
    logs ← λ w. wrap (λ e. getting_logs (api_failed e)) (api.get_logs page per_page w)
    λ w. wrap filtering_logs (filter_log_entries format logs plugin_id since, w)

  -- printLogEntries
  unfoldable pub print_log_entries : List Text → Exec W LogsError (Unit {0})
  print_log_entries [] = pure tt
  print_log_entries (e ∷ entries) = do
    λ w. wrap write_failed (api.write_string (e ++ (10 ∷ [])) w)
    print_log_entries entries

  -- logs; `epoch` is time.Unix(0, 0)
  unfoldable pub logs : ℤ → Text → Exec W LogsError (Unit {0})
  logs epoch plugin_id = do
    check_json_logs_setting
    entries ← λ w. wrap fetching_logs (fetch_logs 0 500 plugin_id epoch w)
    λ w. wrap printing_logs (print_log_entries entries w)

  -- The inner loop of watchLogs from the page `page` on: the oldest entry at its end. `none` stands
  -- for a loop that has not ended when the fuel is spent.
  unfoldable pub print_pages : ℕ → ℕ → Text → ℤ → Text → Exec W LogsError (Option Text)
  print_pages zero page plugin_id now oldest = pure none
  print_pages (suc fuel) page plugin_id now oldest = do
    entries ← λ w. wrap fetching_logs (fetch_logs page logs_per_page plugin_id now w)
    let c = check_oldest_entry entries oldest
    λ w. wrap printing_logs (print_log_entries c.entries w)
    elim c.all_new [
      | true ↦ print_pages fuel (page + 1) plugin_id now c.oldest
      | false ↦ pure (some c.oldest)
    ]

  -- the outer loop of watchLogs, over the ticks that come before its context ends
  unfoldable pub watch_ticks : ℕ → ℕ → Text → ℤ → Text → Exec W LogsError (Option Text)
  watch_ticks fuel zero plugin_id now oldest = pure (some oldest)
  watch_ticks fuel (suc ticks) plugin_id now oldest = do
    r ← print_pages fuel 0 plugin_id now oldest
    elim r [ none ↦ pure none | some oldest' ↦ watch_ticks fuel ticks plugin_id now oldest' ]

  -- watchLogs, with the clock `now`
  unfoldable pub watch_logs : ℕ → ℕ → Text → (W → ℤ) → Exec W LogsError (Option Text)
  watch_logs fuel ticks plugin_id now = do
    check_json_logs_setting
    λ w. watch_ticks fuel ticks plugin_id (now w) [] w
