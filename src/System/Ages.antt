-- ===== src/System/Ages.antt =====
-- A row of the index never expires within a minute of its post's creation.
use native.Mathlib.Omega.{arith}
use mattermost_plugin_messag.Base.{
  ℕ, ◌+◌, ◌*◌, ◌/◌, ◌^◌, ◌≤◌, ◌<◌, ◌≡◌, ◌≢◌, false, [], All, All-imp, Text,
}
use mattermost_plugin_messag.Int64.{ℤ, pos}
use mattermost_plugin_messag.Duration.{Duration, second, of_seconds}
use mattermost_plugin_messag.Duration.Laws.{of_seconds_pos}
use mattermost_plugin_messag.Database.{Entry, Table}
use mattermost_plugin_messag.ExpireStore.{is_expired, upsert_row, bump_rows}
use mattermost_plugin_messag.ExpireStore.Every.{All-upsert_row, All-bump_rows}
use mattermost_plugin_messag.ExpiryService.{Post, thread_root, deadline, entry_of}
use mattermost_plugin_messag.ExpiryService.Deadlines.{deadline_pos}
use mattermost_plugin_messag.TtlService.Keeps.{InBounds}
use mattermost_plugin_messag.Ttl.{TtlSetting}

module _ (born : Text → ℕ) where
  -- A row that expires a minute after its post's creation, or later.
  abbrev pub IsAged : Entry → Type 0
  IsAged r = (m : ℕ) × (r.expire_at ≡ pos m) × (born r.post_id + 60000 ≤ m)

  -- Before its post is a minute old, such a row has not expired.
  pub IsAged-young :
      (r : Entry) (n : ℕ) → IsAged r → n < born r.post_id + 60000 → is_expired (pos n) r ≡ false
  IsAged-young r n (m, at, late) young = ground arith

  -- The deadline of a post, from a setting in bounds.
  pub deadline_bounds :
      (post : Post) (t : TtlSetting)
      → InBounds t
      → post.create_at ≡ pos (born post.id)
      → born post.id < 2 ^ 62
      → (m : ℕ) × (deadline post (of_seconds t.duration_seconds) ≡ pos m)
        × (born post.id + 60000 ≤ m)
        × (m ≤ born post.id + 31536000000)
  deadline_bounds post t (n, kept, lo, hi) created early =
      let c = born post.id in
      let same : of_seconds t.duration_seconds ≡ pos (n * second) =
        rw kept (of_seconds_pos n (omega arith)) in
      (
        c + n * second / 1000000,
        rw same (deadline_pos post c (n * second) created (omega arith)),
        omega arith,
        omega arith,
      )

  module _ (post : Post) where
    -- Its thread, if it is a reply, is older.
    abbrev pub InOrder : Entry → Type 0
    InOrder r = r.root_id ≡ thread_root post → post.root_id ≢ [] → born r.post_id ≤ born post.id

    -- what an upsert of the post keeps
    abbrev pub Fits : Table → Type 0
    Fits rows = All IsAged rows × All InOrder rows

  module _ (post : Post) (d : Duration) (now : ℤ) (m : ℕ) (due : deadline post d ≡ pos m)
      (late : born post.id + 60000 ≤ m) where
    pub upsert-Fits :
        (rows : Table) → Fits post rows → Fits post (upsert_row (entry_of post d now) rows)
    upsert-Fits rows (aged, ordered) = (
      All-upsert_row IsAged (entry_of post d now) rows (m, due, late)
          (λ r same. (m, due, rw same late)) aged,
      All-upsert_row (InOrder post) (entry_of post d now) rows (λ _ _. omega arith)
          (λ r same _ _. rw same (omega arith)) ordered,
    )

    -- A reply moves its thread to a time that is late enough for all its posts.
    pub bump-IsAged :
        post.root_id ≢ []
        → (rows : Table) → Fits post rows
        → All IsAged (bump_rows (thread_root post) (deadline post d) rows)
    bump-IsAged reply rows (aged, ordered) =
        All-bump_rows IsAged (thread_root post) (deadline post d) rows
          (All-imp (InOrder post) _ rows
            (λ r before inside. (m, due, omega (arith, before inside reply, late))) ordered)
          aged
