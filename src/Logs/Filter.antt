-- ===== src/Logs/Filter.antt =====
-- filterLogEntries against the entries that it is to keep.
use native.Mathlib.Omega.{arith}
use mattermost_plugin_messag.Base.{
  ◌≡◌, refl, ◌↔◌, inl, inr, Bool, true, false, not, ◌&&◌, List, [], ◌∷◌, map, keep, All, Text,
  text_eq, Result, ok, err, Result-cases, Bool-cases,
}
use mattermost_plugin_messag.Int64.{ℤ, ltb_ℤ}
use mattermost_plugin_messag.Logs.{LogEntry, LogFormat, trim_newline, filter_log_entries}

module _ (format : LogFormat) (plugin_id : Text) (since : ℤ) where
  -- An entry can be read: it is JSON, and has a timestamp if it is the plugin's.
  pub data Reads : Text → Type 0 where
    foreign :
        {e : Text} (le : LogEntry)
        → format.unmarshal e ≡ ok le
        → text_eq le.plugin_id plugin_id ≡ false
        → Reads e
    own :
        {e : Text} (le : LogEntry) (t : ℤ)
        → format.unmarshal e ≡ ok le
        → text_eq le.plugin_id plugin_id ≡ true
        → format.parse_time le.timestamp ≡ ok t
        → Reads e

  -- whether an entry is the plugin's and not older than `since`
  abbrev recent : Result Text ℤ → Bool
  recent (ok t) = not (ltb_ℤ t since)
  recent (err x) = false

  abbrev pub is_wanted : Text → Bool
  is_wanted e = elim (format.unmarshal e) [
    | err x ↦ false
    | ok le ↦ text_eq le.plugin_id plugin_id && recent (format.parse_time le.timestamp)
  ]

  filtered_if_read :
      (logs : List Text)
      → All Reads logs
      → filter_log_entries format logs plugin_id since ≡ ok (map trim_newline (keep is_wanted logs))
  unfolding filter_log_entries keep
  filtered_if_read [] h = refl
  filtered_if_read (e ∷ logs) (foreign le read other, h) = ground (arith, filtered_if_read logs h)
  filtered_if_read (e ∷ logs) (own le t read same at, h) = ground (arith, filtered_if_read logs h)

  read_if_filtered :
      (logs out : List Text)
      → filter_log_entries format logs plugin_id since ≡ ok out
      → All Reads logs
  unfolding filter_log_entries
  read_if_filtered [] out h = tt
  read_if_filtered (e ∷ logs) out h =
      let rest = filter_log_entries format logs plugin_id since in
      elim (Result-cases (format.unmarshal e)) [
        | inr (x, bad) ↦ ground arith
        | inl (le, read) ↦ elim (Bool-cases (text_eq le.plugin_id plugin_id)) [
          | inr other ↦ (foreign le read other, read_if_filtered logs out (ground arith))
          | inl same ↦ elim (Result-cases (format.parse_time le.timestamp)) [
            | inr (x, bad) ↦ ground arith
            | inl (t, at) ↦ elim (Result-cases rest) [
              | inr (x, failed) ↦ ground arith
              | inl (out', fine) ↦ (own le t read same at, read_if_filtered logs out' fine)
            ]
          ]
        ]
      ]

  -- The filter succeeds exactly if every entry is JSON and every entry of the plugin has a timestamp
  -- that can be read. It then gives the entries of the plugin that are not older than `since`, in
  -- their order, each without a newline at its start.
  pub filter_log_entries_iff :
      (logs out : List Text)
      → (filter_log_entries format logs plugin_id since ≡ ok out)
        ↔ (All Reads logs × (out ≡ map trim_newline (keep is_wanted logs)))
  filter_log_entries_iff logs out = (
    λ h.
        let reads = read_if_filtered logs out h in
        (reads, ground (arith, filtered_if_read logs reads)),
    λ (reads, same). ground (arith, filtered_if_read logs reads),
  )
