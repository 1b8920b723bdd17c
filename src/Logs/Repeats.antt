-- ===== src/Logs/Repeats.antt =====
-- What watchLogs prints when the plugin has more than one page of log entries.
use native.Mathlib.Omega.{arith}
use mattermost_plugin_messag.Base.{
  ℕ, zero, suc, ◌+◌, ◌<◌, ◌≡◌, ◌≢◌, refl, ◌∙◌, true, false, some, List, [], ◌∷◌, ◌++◌, map,
  contains, Text, ok,
}
use mathlib.Core.List.{append_assoc, append-nil, map-append}
use mattermost_plugin_messag.Int64.{ℤ}
use mattermost_plugin_messag.Logs.{
  LogFormat, LogApi, filter_log_entries, last_or, check_oldest_entry, fetch_logs, print_log_entries,
  print_pages, watch_ticks,
}
use mattermost_plugin_messag.Logs.Entries.{check_oldest_entry_unseen, check_oldest_entry_seen}

-- A server whose pages do not change, and a standard output that keeps what is written.
abbrev pub static_api : (ℕ → List Text) → LogApi (List Text)
static_api pages = record {
  get_config = λ out. (ok (some true), out);
  get_logs = λ page per_page out. (ok (pages page), out);
  write_string = λ s out. (ok tt, out ++ s ∷ []);
}

-- an entry as it is printed
abbrev pub line : Text → Text
line e = e ++ 10 ∷ []

check_no_logs :
    (logs : List Text) (oldest : Text)
    → logs ≡ []
    → check_oldest_entry logs oldest ≡ record { entries = []; oldest = oldest; all_new = false }
unfolding check_oldest_entry
check_no_logs logs oldest e = rw e refl

check_all_new :
    (logs : List Text) (oldest : Text)
    → logs ≢ []
    → contains logs oldest ≡ false
    → check_oldest_entry logs oldest
      ≡ record { entries = logs; oldest = last_or oldest logs; all_new = true }
check_all_new [] oldest some_entry absent = absurd (some_entry refl)
check_all_new (e ∷ es) oldest some_entry absent = check_oldest_entry_unseen (e ∷ es) oldest absent

module _ (pages : ℕ → List Text) (format : LogFormat) (plugin_id : Text) (now : ℤ) where
  -- From `page` on there are `n` pages with entries, and none holds the last entry of the page before
  -- it, or `oldest` for the first.
  abbrev pub Unseen : ℕ → ℕ → Text → Type 0
  Unseen zero page oldest = pages page ≡ []
  Unseen (suc n) page oldest =
      (pages page ≢ [])
      × (contains (pages page) oldest ≡ false)
      × Unseen n (page + 1) (last_or oldest (pages page))

  -- the entries of `n` pages, and the last entry of the last of them
  abbrev pub entries_of : ℕ → ℕ → List Text
  entries_of zero page = []
  entries_of (suc n) page = pages page ++ entries_of n (page + 1)

  abbrev pub oldest_of : ℕ → ℕ → Text → Text
  oldest_of zero page oldest = oldest
  oldest_of (suc n) page oldest = oldest_of n (page + 1) (last_or oldest (pages page))

  print_log_entries_static :
      (entries out : List Text)
      → print_log_entries (static_api pages) format entries out ≡ (ok tt, out ++ map line entries)
  unfolding print_log_entries
  print_log_entries_static [] out = rw append-nil
  print_log_entries_static (e ∷ entries) out =
      print_log_entries_static entries (out ++ line e ∷ []) ∙ rw append_assoc

  module _
      (all_kept : (page : ℕ)
        → filter_log_entries format (pages page) plugin_id now ≡ ok (pages page)) where
    -- A pass over the pages prints every entry of every page, also those that were printed before,
    -- and ends with the last entry of the last page.
    print_pages_static :
        (n fuel page : ℕ) (oldest : Text) (out : List Text)
        → n < fuel
        → Unseen n page oldest
        → print_pages (static_api pages) format fuel page plugin_id now oldest out
          ≡ (ok (some (oldest_of n page oldest)), out ++ map line (entries_of n page))
    unfolding print_pages fetch_logs
    print_pages_static n zero page oldest out enough unseen = elim enough [ ]
    print_pages_static zero (suc fuel) page oldest out enough unseen = ground (
      arith,
      all_kept page,
      check_no_logs (pages page) oldest unseen,
      print_log_entries_static [] out,
    )
    print_pages_static (suc n) (suc fuel) page oldest out enough (some_entry, absent, unseen) =
        let p = pages page in
        ground (
          arith,
          all_kept page,
          check_all_new p oldest some_entry absent,
          print_log_entries_static p out,
          print_pages_static n fuel (page + 1) (last_or oldest p) (out ++ map line p),
          append_assoc out (map line p) (map line (entries_of n (page + 1))),
          map-append line p (entries_of n (page + 1)),
        )

    -- While the server's log stays as it is, and all of its entries are the plugin's and recent: if the
    -- entries fill `n` pages so that no page holds the last entry of the one before it, nor the page 0
    -- the oldest entry before either of two ticks, then each of the two ticks prints all the entries,
    -- though none is new at the second.
    pub watch_ticks_repeat :
        (n fuel : ℕ) (oldest : Text) (out : List Text)
        → n < fuel
        → Unseen n 0 oldest
        → Unseen n 0 (oldest_of n 0 oldest)
        → let all = map line (entries_of n 0) in
          watch_ticks (static_api pages) format fuel 2 plugin_id now oldest out
          ≡ (ok (some (oldest_of n 0 (oldest_of n 0 oldest))), out ++ all ++ all)
    unfolding watch_ticks
    watch_ticks_repeat n fuel oldest out enough first second = ground (
      arith,
      print_pages_static n fuel 0 oldest out enough first,
      print_pages_static n fuel 0 (oldest_of n 0 oldest) (out ++ map line (entries_of n 0)) enough
          second,
    )

    -- While the server's log stays as it is, and all entries of its page 0 are the plugin's and recent:
    -- if that page holds the oldest entry, a tick prints exactly the entries after its first occurrence
    -- there, once each and in their order, and the last of them is the new oldest entry.
    pub print_pages_fresh :
        (fuel : ℕ) (seen fresh : List Text) (oldest : Text) (out : List Text)
        → pages 0 ≡ seen ++ oldest ∷ fresh
        → contains seen oldest ≡ false
        → print_pages (static_api pages) format (suc fuel) 0 plugin_id now oldest out
          ≡ (ok (some (last_or oldest fresh)), out ++ map line fresh)
    unfolding print_pages fetch_logs
    print_pages_fresh fuel seen fresh oldest out page absent =
        let found : check_oldest_entry (pages 0) oldest
            ≡ record { entries = fresh; oldest = last_or oldest fresh; all_new = false } =
          rw page (check_oldest_entry_seen seen oldest fresh absent) in
        ground (arith, all_kept 0, print_log_entries_static fresh out)
