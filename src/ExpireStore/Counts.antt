-- ===== src/ExpireStore/Counts.antt =====
-- Counting rows: what a deletion of a batch takes away.
use native.Mathlib.Omega.{arith}
use mattermost_plugin_messag.Base.{
  ◌+◌, ◌≤◌, ◌≡◌, refl, Bool, true, false, not, ◌&&◌, List, [], ◌∷◌, map, keep, any, contains, All,
  Text, text_eq, text_eq_refl, some,
}
use mattermost_plugin_messag.Database.{Entry, Table}
use mattermost_plugin_messag.ExpireStore.{count, delete_rows, find_row}

module _ {ℓ} {A : Type ℓ} where
  -- A filter takes away what fails its test.
  pub count-keep-not :
      (p q : A → Bool) (l : List A)
      → count p (keep (λ x. not (q x)) l) + count (λ x. p x && q x) l ≡ count p l
  unfolding keep
  count-keep-not p q [] = refl
  count-keep-not p q (x ∷ l) = ground (arith, count-keep-not p q l)

  pub count-keep-le : (p q : A → Bool) (l : List A) → count p (keep q l) ≤ count p l
  unfolding keep
  count-keep-le p q [] = omega arith
  count-keep-le p q (x ∷ l) = ground (arith, count-keep-le p q l)

  pub count_and :
      (p c : A → Bool) (l : List A)
      → All (λ x. c x ≡ true) l
      → count (λ x. p x && c x) l ≡ count p l
  unfolding keep
  count_and p c [] h = refl
  count_and p c (x ∷ l) h = ground (arith, count_and p c l h.1)

-- the posts of some rows
abbrev pub ids_of : List Entry → List Text
ids_of = map (λ r. r.post_id)

contains-cons :
    (id : Text) (ids : List Text) (l : List Entry)
    → All (λ r. contains ids r.post_id ≡ true) l
    → All (λ r. contains (id ∷ ids) r.post_id ≡ true) l
unfolding contains any
contains-cons id ids [] h = tt
contains-cons id ids (r ∷ l) h = (ground (arith, h.0), contains-cons id ids l h.1)

pub contains-ids_of : (l : List Entry) → All (λ r. contains (ids_of l) r.post_id ≡ true) l
contains-ids_of [] = tt
contains-ids_of (r ∷ l) = (
  unfold contains any in ground (arith, text_eq_refl r.post_id),
  contains-cons r.post_id (ids_of l) l (contains-ids_of l),
)

-- A deletion of rows takes away at least as many rows of a kind as there are among them.
pub count-delete_rows :
    (p : Entry → Bool) (batch : List Entry) (rows : Table)
    → ((q : Entry → Bool) → count q batch ≤ count q rows)
    → count p (delete_rows (ids_of batch) rows) + count p batch ≤ count p rows
unfolding delete_rows
count-delete_rows p batch rows within =
    let named = λ (r : Entry). contains (ids_of batch) r.post_id in
    omega (
      arith,
      count-keep-not p named rows,
      count_and p named batch (contains-ids_of batch),
      within (λ r. p r && named r),
    )

-- the primary key: at most one row for a post
abbrev pub of_post : Text → Entry → Bool
of_post j r = text_eq r.post_id j

abbrev pub IsKeyed : Table → Type 0
IsKeyed rows = (j : Text) → count (of_post j) rows ≤ 1

-- If the row that is found for a post is not of a kind, there is one row less of that kind.
pub find_row-count :
    (q : Entry → Bool) (j : Text) (rows : Table) (r : Entry)
    → find_row j rows ≡ some r
    → q r ≡ false
    → count (of_post j) (keep q rows) + 1 ≤ count (of_post j) rows
unfolding find_row keep
find_row-count q j [] r found h = cc
find_row-count q j (s ∷ rows) r found h =
    ground (arith, find_row-count q j rows r, count-keep-le (of_post j) q rows)

pub contains-count :
    (j : Text) (l : List Entry) → contains (ids_of l) j ≡ true → 1 ≤ count (of_post j) l
unfolding contains any keep
contains-count j [] h = cc
contains-count j (r ∷ l) h = ground (arith, contains-count j l)
