-- ===== src/ExpireStore/Rows.antt =====
-- What the statements do to the row of a post.
use mattermost_plugin_messag.Base.{
  ap, ◌≡◌, refl, Option, none, some, List, [], ◌∷◌, keep, any, contains, Text, text_eq, text_eq_iff,
  if◌then◌else◌, arith,
}
use mattermost_plugin_messag.Int64.{ℤ}
use mattermost_plugin_messag.Database.{Entry, Table}
use mattermost_plugin_messag.ExpireStore.{upsert_row, bump_row, bump_rows, find_row, delete_rows}

-- the row that an upsert of `e` leaves, from the row that was there
abbrev pub merged : Entry → Option Entry → Entry
merged e none = e
merged e (some r) = record e { post_id = r.post_id; created_at = r.created_at }

pub find-upsert_row :
    (e : Entry) (j : Text) (rows : Table)
    → find_row j (upsert_row e rows)
      ≡ (if text_eq e.post_id j then some (merged e (find_row e.post_id rows)) else find_row j rows)
unfolding find_row upsert_row
find-upsert_row e j [] = refl
find-upsert_row e j (r ∷ rows) = ground (
  arith,
  find-upsert_row e j rows,
  text_eq_iff e.post_id j,
  text_eq_iff r.post_id j,
  text_eq_iff r.post_id e.post_id,
)

-- the row that a bump leaves
abbrev pub bumped : Text → ℤ → Option Entry → Option Entry
bumped root t none = none
bumped root t (some r) = some (bump_row root t r)

pub find-bump_rows :
    (root : Text) (t : ℤ) (j : Text) (rows : Table)
    → find_row j (bump_rows root t rows) ≡ bumped root t (find_row j rows)
unfolding find_row bump_rows
find-bump_rows root t j [] = refl
find-bump_rows root t j (r ∷ rows) = ground (arith, find-bump_rows root t j rows)

pub find-delete_rows :
    (ids : List Text) (j : Text) (rows : Table)
    → find_row j (delete_rows ids rows) ≡ (if contains ids j then none else find_row j rows)
unfolding find_row delete_rows keep
find-delete_rows ids j [] = ground arith
find-delete_rows ids j (r ∷ rows) =
    ground (arith, find-delete_rows ids j rows, text_eq_iff r.post_id j)

pub find_row-post_id :
    (j : Text) (rows : Table) (r : Entry) → find_row j rows ≡ some r → r.post_id ≡ j
unfolding find_row
find_row-post_id j [] r h = cc
find_row-post_id j (s ∷ rows) r h =
    ground (arith, find_row-post_id j rows r, text_eq_iff s.post_id j)

pub delete_rows-nil : (rows : Table) → delete_rows [] rows ≡ rows
unfolding delete_rows keep contains any
delete_rows-nil [] = refl
delete_rows-nil (r ∷ rows) = ap (λ l. r ∷ l) (delete_rows-nil rows)
