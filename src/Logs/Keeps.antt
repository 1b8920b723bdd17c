-- ===== src/Logs/Keeps.antt =====
-- What outlives the reading and printing of logs.
use mattermost_plugin_messag.Base.{
  ℕ, zero, suc, ◌+◌, inl, inr, true, false, none, some, List, [], ◌∷◌, ◌++◌, Text, Result-cases,
  Bool-cases, state-wrap,
}
use mattermost_plugin_messag.Int64.{ℤ}
use mattermost_plugin_messag.Logs.{
  LogFormat, LogApi, check_oldest_entry, check_json_logs_setting, fetch_logs, print_log_entries,
  logs, print_pages, watch_ticks, watch_logs, logs_per_page,
}

-- `P` outlives the calls that read logs and write to the standard output.
pub record LogsKeep {W : Type 0} (api : LogApi W) (P : W → Type 0) : Type 0 where
  pub on_config : (w : W) → P w → P (api.get_config w).1
  pub on_logs : (page per_page : ℕ) (w : W) → P w → P (api.get_logs page per_page w).1
  pub on_write : (s : Text) (w : W) → P w → P (api.write_string s w).1

module _ {W : Type 0} (api : LogApi W) (format : LogFormat) (P : W → Type 0)
    (K : LogsKeep api P) where
  check_json_logs_setting-Keeps : (w : W) → P w → P (check_json_logs_setting api format w).1
  unfolding check_json_logs_setting
  check_json_logs_setting-Keeps w h =
      let h' = K.on_config w h in
      elim (Result-cases (api.get_config w).0) [
        | inr (e, failed) ↦ rw (failed, check_json_logs_setting) h'
        | inl (none, read) ↦ rw (read, check_json_logs_setting) h'
        | inl (some false, read) ↦ rw (read, check_json_logs_setting) h'
        | inl (some true, read) ↦ rw (read, check_json_logs_setting) h'
      ]

  fetch_logs-Keeps :
      (page per_page : ℕ) (plugin_id : Text) (since : ℤ) (w : W)
      → P w
      → P (fetch_logs api format page per_page plugin_id since w).1
  unfolding fetch_logs
  fetch_logs-Keeps page per_page plugin_id since w h =
      let h' = K.on_logs page per_page w h in
      elim (Result-cases (api.get_logs page per_page w).0) [
        | inr (e, failed) ↦ rw (failed, fetch_logs) h'
        | inl (l, read) ↦ rw (read, fetch_logs) (rw state-wrap h')
      ]

  print_log_entries-Keeps :
      (entries : List Text) (w : W) → P w → P (print_log_entries api format entries w).1
  unfolding print_log_entries
  print_log_entries-Keeps [] w h = h
  print_log_entries-Keeps (e ∷ entries) w h =
      let h' = K.on_write (e ++ 10 ∷ []) w h in
      elim (Result-cases (api.write_string (e ++ 10 ∷ []) w).0) [
        | inr (x, failed) ↦ rw (failed, print_log_entries) h'
        | inl (u, done) ↦ rw (done, print_log_entries) (print_log_entries-Keeps entries _ h')
      ]

  pub logs-Keeps :
      (epoch : ℤ) (plugin_id : Text) (w : W) → P w → P (logs api format epoch plugin_id w).1
  unfolding logs
  logs-Keeps epoch plugin_id w h =
      let h' = check_json_logs_setting-Keeps w h in
      elim (Result-cases (check_json_logs_setting api format w).0) [
        | inr (e, failed) ↦ rw (failed, logs) h'
        | inl (u, json) ↦
            let w' = (check_json_logs_setting api format w).1 in
            let h'' = fetch_logs-Keeps 0 500 plugin_id epoch w' h' in
            elim (Result-cases (fetch_logs api format 0 500 plugin_id epoch w').0) [
              | inr (e, failed) ↦ rw (json, failed, logs) h''
              | inl (l, read) ↦
                  rw (json, read, logs) (rw state-wrap (print_log_entries-Keeps l _ h''))
            ]
      ]

  print_pages-Keeps :
      (fuel page : ℕ) (plugin_id : Text) (now : ℤ) (oldest : Text) (w : W)
      → P w
      → P (print_pages api format fuel page plugin_id now oldest w).1
  unfolding print_pages
  print_pages-Keeps zero page plugin_id now oldest w h = h
  print_pages-Keeps (suc fuel) page plugin_id now oldest w h =
      let w' = (fetch_logs api format page logs_per_page plugin_id now w).1 in
      let h' = fetch_logs-Keeps page logs_per_page plugin_id now w h in
      elim (Result-cases (fetch_logs api format page logs_per_page plugin_id now w).0) [
        | inr (e, failed) ↦ rw (failed, print_pages) h'
        | inl (l, read) ↦
            let c = check_oldest_entry l oldest in
            let h'' = print_log_entries-Keeps c.entries w' h' in
            elim (Result-cases (print_log_entries api format c.entries w').0) [
              | inr (e, failed) ↦ rw (read, failed, print_pages) h''
              | inl (u, printed) ↦ elim (Bool-cases c.all_new) [
                | inr ended ↦ rw (read, printed, ended, print_pages) h''
                | inl more ↦
                    rw (read, printed, more, print_pages)
                      (print_pages-Keeps fuel (page + 1) plugin_id now c.oldest _ h'')
              ]
            ]
      ]

  watch_ticks-Keeps :
      (fuel ticks : ℕ) (plugin_id : Text) (now : ℤ) (oldest : Text) (w : W)
      → P w
      → P (watch_ticks api format fuel ticks plugin_id now oldest w).1
  unfolding watch_ticks
  watch_ticks-Keeps fuel zero plugin_id now oldest w h = h
  watch_ticks-Keeps fuel (suc ticks) plugin_id now oldest w h =
      let h' = print_pages-Keeps fuel 0 plugin_id now oldest w h in
      elim (Result-cases (print_pages api format fuel 0 plugin_id now oldest w).0) [
        | inr (e, failed) ↦ rw (failed, watch_ticks) h'
        | inl (none, stopped) ↦ rw (stopped, watch_ticks) h'
        | inl (some oldest', ended) ↦
            rw (ended, watch_ticks) (watch_ticks-Keeps fuel ticks plugin_id now oldest' _ h')
      ]

  pub watch_logs-Keeps :
      (fuel ticks : ℕ) (plugin_id : Text) (now : W → ℤ) (w : W)
      → P w
      → P (watch_logs api format fuel ticks plugin_id now w).1
  unfolding watch_logs
  watch_logs-Keeps fuel ticks plugin_id now w h =
      let h' = check_json_logs_setting-Keeps w h in
      elim (Result-cases (check_json_logs_setting api format w).0) [
        | inr (e, failed) ↦ rw (failed, watch_logs) h'
        | inl (u, json) ↦ rw (json, watch_logs) (watch_ticks-Keeps fuel ticks plugin_id _ [] _ h')
      ]
