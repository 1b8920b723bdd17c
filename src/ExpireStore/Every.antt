-- ===== src/ExpireStore/Every.antt =====
-- Facts about every row of the index, and the statements that keep them.
use mattermost_plugin_messag.Base.{
  ◌≡◌, refl, Bool, false, ◌&&◌, List, [], ◌∷◌, keep, All, Text, text_eq, text_eq_iff, Bool-cases,
  inl, inr,
}
use mattermost_plugin_messag.Int64.{ℤ}
use mattermost_plugin_messag.Database.{Entry, Table}
use mattermost_plugin_messag.ExpireStore.{count, upsert_row, bump_row, bump_rows, is_expired}
use mattermost_plugin_messag.ExpireStore.Counts.{of_post}

pub All-keep {ℓ κ} :
    {A : Type ℓ} (P : A → Type κ) (q : A → Bool) (l : List A) → All P l → All P (keep q l)
unfolding keep
All-keep P q [] h = tt
All-keep P q (x ∷ l) h = elim (Bool-cases (q x)) [
  | inl kept ↦ rw (kept, keep) (h.0, All-keep P q l h.1)
  | inr gone ↦ rw (gone, keep) (All-keep P q l h.1)
]

-- An upsert keeps a fact that holds of the new row, and of an old row of the same post with the new
-- values.
pub All-upsert_row :
    (P : Entry → Type 0) (e : Entry) (rows : Table)
    → P e
    → ((r : Entry)
        → r.post_id ≡ e.post_id
        → P (record r { channel_id = e.channel_id; root_id = e.root_id; expire_at = e.expire_at }))
    → All P rows
    → All P (upsert_row e rows)
unfolding upsert_row
All-upsert_row P e [] new old h = (new, tt)
All-upsert_row P e (r ∷ rows) new old h = elim (Bool-cases (text_eq r.post_id e.post_id)) [
  | inl same ↦ rw (same, upsert_row) (old r ((text_eq_iff r.post_id e.post_id).0 same), h.1)
  | inr other ↦ rw (other, upsert_row) (h.0, All-upsert_row P e rows new old h.1)
]

-- A bump keeps a fact that holds of the rows of its thread with the new expiry.
pub All-bump_rows :
    (P : Entry → Type 0) (root : Text) (t : ℤ) (rows : Table)
    → All (λ r. r.root_id ≡ root → P (record r { expire_at = t })) rows
    → All P rows
    → All P (bump_rows root t rows)
unfolding bump_rows
All-bump_rows P root t [] moved h = tt
All-bump_rows P root t (r ∷ rows) moved h = elim (Bool-cases (text_eq r.root_id root)) [
  | inl inside ↦
      rw (inside, bump_row)
        (moved.0 ((text_eq_iff r.root_id root).0 inside), All-bump_rows P root t rows moved.1 h.1)
  | inr outside ↦ rw (outside, bump_row) (h.0, All-bump_rows P root t rows moved.1 h.1)
]

-- A post is due if one of its rows has expired.
pub none_due :
    (P : Entry → Type 0) (j : Text) (now : ℤ) (rows : Table)
    → ((r : Entry) → P r → r.post_id ≡ j → is_expired now r ≡ false)
    → All P rows
    → count (λ r. of_post j r && is_expired now r) rows ≡ 0
unfolding keep
none_due P j now [] young h = refl
none_due P j now (r ∷ rows) young h = elim (Bool-cases (text_eq r.post_id j)) [
  | inl same ↦
      rw (same, young r h.0 ((text_eq_iff r.post_id j).0 same), keep)
        (none_due P j now rows young h.1)
  | inr other ↦ rw (other, keep) (none_due P j now rows young h.1)
]
