-- ===== src/Logs/Pages.antt =====
-- The inner loop of watchLogs ends where the server's pages do.
use native.Mathlib.Omega.{arith}
use native.Mathlib.Decide.{dec_lt}
use mattermost_plugin_messag.Base.{
  ℕ, zero, suc, ◌+◌, ◌≤◌, ◌<◌, ◌≡◌, ◌≢◌, refl, inl, inr, false, none, List, [], Text, ok,
  Result-cases, Bool-cases,
}
use mattermost_plugin_messag.Int64.{ℤ}
use mattermost_plugin_messag.Logs.{
  LogFormat, LogApi, filter_log_entries, check_oldest_entry, fetch_logs, print_log_entries,
  print_pages, logs_per_page,
}

module _ {W : Type 0} (api : LogApi W) (format : LogFormat) (plugin_id : Text) (now : ℤ) (last : ℕ)
    (no_more : (page : ℕ) (w : W) (l : List Text)
      → last ≤ page
      → (api.get_logs page logs_per_page w).0 ≡ ok l
      → l ≡ []) where
  fetch_logs-nil :
      (page : ℕ) (w : W) (l : List Text)
      → last ≤ page
      → (fetch_logs api format page logs_per_page plugin_id now w).0 ≡ ok l
      → l ≡ []
  unfolding fetch_logs filter_log_entries
  fetch_logs-nil page w l past h = elim (Result-cases (api.get_logs page logs_per_page w).0) [
    | inr (e, failed) ↦ ground arith
    | inl (l', read) ↦ ground (arith, no_more page w l' past read)
  ]

  -- a page after the last is not all new
  none_new :
      (l : List Text) (oldest : Text) → l ≡ [] → (check_oldest_entry l oldest).all_new ≡ false
  unfolding check_oldest_entry
  none_new l oldest e = rw e refl

  -- If the server has no log entries from the page `last` on, the loop over the pages ends, by an
  -- error or with an oldest entry, in at most `last + 1` rounds from the page 0: with that much fuel it
  -- never stops for the lack of it.
  pub print_pages_end :
      (fuel page : ℕ) (oldest : Text) (w : W)
      → last < page + fuel
      → 0 < fuel
      → (print_pages api format fuel page plugin_id now oldest w).0 ≢ ok none
  unfolding print_pages
  print_pages_end zero page oldest w enough some_fuel stopped = elim some_fuel [ ]
  print_pages_end (suc fuel) page oldest w enough some_fuel stopped =
      elim (Result-cases (fetch_logs api format page logs_per_page plugin_id now w).0) [
        | inr (e, failed) ↦ ground arith
        | inl (l, fetched) ↦
            let w' = (fetch_logs api format page logs_per_page plugin_id now w).1 in
            let c = check_oldest_entry l oldest in
            let w'' = (print_log_entries api format c.entries w').1 in
            elim (Result-cases (print_log_entries api format c.entries w').0) [
              | inr (e, failed) ↦ ground arith
              | inl (tt, printed) ↦ elim (Bool-cases c.all_new) [
                | inr ended ↦ ground arith
                | inl more ↦ elim (dec_lt page last) [
                  | yes before ↦
                      print_pages_end fuel (page + 1) c.oldest w'' (omega arith) (omega arith)
                        (ground arith)
                  | no past ↦
                      cc (none_new l oldest (fetch_logs-nil page w l (omega arith) fetched), more)
                ]
              ]
            ]
      ]
