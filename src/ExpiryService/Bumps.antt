-- ===== src/ExpiryService/Bumps.antt =====
-- What an upsert and an update of a thread do to the deadlines of one thread.
use native.Mathlib.Omega.{arith}
use mattermost_plugin_messag.Base.{
  ◌≡◌, ◌≢◌, ◌∙◌, sym, some, Text, text_eq, text_eq_iff, Option-cases, Bool-cases, inl, inr,
}
use mattermost_plugin_messag.Int64.{ℤ}
use mattermost_plugin_messag.Database.{Entry, Table}
use mattermost_plugin_messag.ExpireStore.{find_row, upsert_row, bump_rows}
use mattermost_plugin_messag.ExpireStore.Rows.{find-upsert_row, find-bump_rows}

module _ (t : Text) where
  -- The rows of the thread `t` have one deadline.
  abbrev pub OneDeadline : Table → Type 0
  OneDeadline rows =
      (i j : Text) (r s : Entry)
      → find_row i rows ≡ some r
      → find_row j rows ≡ some s
      → r.root_id ≡ t
      → s.root_id ≡ t
      → r.expire_at ≡ s.expire_at

  was_there :
      (e : Entry) (rows : Table) (j : Text) (r : Entry)
      → e.root_id ≢ t
      → find_row j (upsert_row e rows) ≡ some r
      → r.root_id ≡ t
      → find_row j rows ≡ some r
  was_there e rows j r other found inside = elim (Option-cases (find_row e.post_id rows)) [
    | inl new ↦ ground (arith, find-upsert_row e j rows)
    | inr (old, stood) ↦ ground (arith, find-upsert_row e j rows)
  ]

  pub upsert-OneDeadline :
      (e : Entry) (rows : Table)
      → e.root_id ≢ t
      → OneDeadline rows
      → OneDeadline (upsert_row e rows)
  upsert-OneDeadline e rows other one i j r s p q a b =
      one i j r s (was_there e rows i r other p a) (was_there e rows j s other q b) a b

  -- An update of another thread.
  not_bumped :
      (root : Text) (at : ℤ) (rows : Table) (j : Text) (r : Entry)
      → root ≢ t
      → find_row j (bump_rows root at rows) ≡ some r
      → r.root_id ≡ t
      → find_row j rows ≡ some r
  not_bumped root at rows j r other found inside = elim (Option-cases (find_row j rows)) [
    | inl gone ↦ ground (arith, find-bump_rows root at j rows)
    | inr (old, stood) ↦ ground (arith, find-bump_rows root at j rows, text_eq_iff old.root_id root)
  ]

  -- An update of the thread.
  bumped_to :
      (at : ℤ) (rows : Table) (j : Text) (r : Entry)
      → find_row j (bump_rows t at rows) ≡ some r
      → r.root_id ≡ t
      → r.expire_at ≡ at
  bumped_to at rows j r found inside = elim (Option-cases (find_row j rows)) [
    | inl gone ↦ ground (arith, find-bump_rows t at j rows)
    | inr (old, stood) ↦ ground (arith, find-bump_rows t at j rows, text_eq_iff old.root_id t)
  ]

  pub bump-OneDeadline :
      (root : Text) (at : ℤ) (rows : Table)
      → (root ≢ t → OneDeadline rows)
      → OneDeadline (bump_rows root at rows)
  bump-OneDeadline root at rows one i j r s p q a b = elim (Bool-cases (text_eq root t)) [
    | inl same ↦
        let e = (text_eq_iff root t).0 same in
        bumped_to at rows i r (rw e at p) a ∙ sym (bumped_to at rows j s (rw e at q) b)
    | inr differ ↦
        let other : root ≢ t = ground (arith, text_eq_iff root t) in
        one other i j r s (not_bumped root at rows i r other p a)
          (not_bumped root at rows j s other q b) a b
  ]
