-- ===== src/Tests/LogPages.antt =====
-- The theorems about the log entries and the commands of pluginctl at concrete entries: the first
-- character of an entry is its plugin, the second its time.
use native.Mathlib.Omega.{arith}
use mattermost_plugin_messag.Base.{
  ℕ, zero, suc, ◌≤◌, ◌≡◌, ◌≢◌, refl, ◌↔◌, false, none, some, List, [], ◌∷◌, map, keep, contains,
  any, All, Text, text, text_eq, Result, ok, err,
}
use mattermost_plugin_messag.Int64.{ℤ, pos}
use mattermost_plugin_messag.Logs.{
  LogEntry, LogFormat, filter_log_entries, check_oldest_entry, last_or, print_pages, watch_ticks,
  trim_newline,
}
use mattermost_plugin_messag.Logs.Entries.{check_oldest_entry_seen}
use mattermost_plugin_messag.Logs.Filter.{Reads, is_wanted, filter_log_entries_iff}
use mattermost_plugin_messag.Logs.Pages.{print_pages_end}
use mattermost_plugin_messag.Logs.Repeats.{static_api, line, watch_ticks_repeat}

abbrev unmarshal : Text → Result Text LogEntry
unmarshal [] = err []
unmarshal (c ∷ e) = ok (record { plugin_id = c ∷ []; timestamp = e })

abbrev parse_time : Text → Result Text ℤ
parse_time [] = err []
parse_time (t ∷ e) = ok (pos t)

abbrev format : LogFormat
format = record { unmarshal = unmarshal; parse_time = parse_time }

abbrev ours : Text
ours = text "p"

abbrev first : Text
first = text "p1"

abbrev second : Text
second = text "p2"

abbrev third : Text
third = text "p3"

abbrev foreign_entry : Text
foreign_entry = text "q2"

check_oldest_entry_seen_example :
    check_oldest_entry (first ∷ second ∷ third ∷ []) second
    ≡ record { entries = third ∷ []; oldest = third; all_new = false }
unfolding last_or contains any text_eq text
check_oldest_entry_seen_example = check_oldest_entry_seen (first ∷ []) second (third ∷ []) refl

filter_log_entries_iff_example :
    (filter_log_entries format (first ∷ foreign_entry ∷ []) ours (pos 0) ≡ ok (first ∷ [])) ↔ (
      All (Reads format ours (pos 0)) (first ∷ foreign_entry ∷ [])
      × ((first ∷ [])
          ≡ map trim_newline (keep (is_wanted format ours (pos 0)) (first ∷ foreign_entry ∷ []))))
filter_log_entries_iff_example =
    filter_log_entries_iff format ours (pos 0) (first ∷ foreign_entry ∷ []) (first ∷ [])

-- one page of two entries
abbrev one_page : ℕ → List Text
one_page zero = first ∷ second ∷ []
one_page (suc n) = []

-- two pages of one entry
abbrev two_pages : ℕ → List Text
two_pages zero = first ∷ []
two_pages (suc zero) = second ∷ []
two_pages (suc (suc n)) = []

one_page_filtered :
    (page : ℕ) → filter_log_entries format (one_page page) ours (pos 0) ≡ ok (one_page page)
unfolding filter_log_entries text text_eq
one_page_filtered zero = refl
one_page_filtered (suc n) = refl

two_pages_filtered :
    (page : ℕ) → filter_log_entries format (two_pages page) ours (pos 0) ≡ ok (two_pages page)
unfolding filter_log_entries text text_eq
two_pages_filtered zero = refl
two_pages_filtered (suc zero) = refl
two_pages_filtered (suc (suc n)) = refl

two_pages_end :
    (page : ℕ) (w : List Text) (l : List Text)
    → 2 ≤ page
    → ((static_api two_pages).get_logs page 100 w).0 ≡ ok l
    → l ≡ []
two_pages_end zero w l past e = elim past [ ]
two_pages_end (suc zero) w l past e = absurd (omega arith)
two_pages_end (suc (suc n)) w l past e = cc

print_pages_end_example :
    (print_pages (static_api two_pages) format 3 0 ours (pos 0) [] []).0 ≢ ok none
print_pages_end_example =
    print_pages_end (static_api two_pages) format ours (pos 0) 2 two_pages_end 3 0 [] []
      (omega arith) (omega arith)

-- Two ticks print each of the two entries twice.
watch_ticks_repeat_example :
    watch_ticks (static_api two_pages) format 3 2 ours (pos 0) [] []
    ≡ (ok (some second), line first ∷ line second ∷ line first ∷ line second ∷ [])
unfolding last_or contains any text text_eq
watch_ticks_repeat_example =
    watch_ticks_repeat two_pages format ours (pos 0) two_pages_filtered 2 3 [] [] (omega arith)
      ((λ e. cc), refl, ((λ e. cc), refl, refl)) ((λ e. cc), refl, ((λ e. cc), refl, refl))
