-- ===== src/ExpireStore/PrimaryKey.antt =====
-- The primary key of mpmd_expire: no sequence of calls gives a post two rows.
use native.Mathlib.Omega.{arith}
use mattermost_plugin_messag.Base.{
  ℕ, ◌≤◌, ◌≡◌, refl, ◌⊎◌, inl, inr, true, false, not, none, List, [], ◌∷◌, keep, contains, Text,
  text_eq, text_eq_iff, Bool-cases, Result, ok, err, wrap,
}
use mattermost_plugin_messag.Int64.{ℤ}
use mattermost_plugin_messag.Database.{DbError, Entry, Table, Db, table, change, query, table-query}
use mattermost_plugin_messag.ExpireStore.{
  OrderBy, count, upsert_row, bump_rows, delete_rows, find_row, migrate, upsert,
  update_expire_by_root, get_by_post_id, get_expired, delete_by_post_id, delete_by_post_ids,
}
use mattermost_plugin_messag.ExpireStore.Counts.{of_post, IsKeyed, count-keep-le}
use mattermost_plugin_messag.ExpireStore.Contract.{get_expired-keeps}
use mattermost_plugin_messag.Purge.{purge}
use mattermost_plugin_messag.Purge.Atomic.{expire-purge}

count-upsert_row_other :
    (e : Entry) (j : Text) (rows : Table)
    → text_eq e.post_id j ≡ false
    → count (of_post j) (upsert_row e rows) ≡ count (of_post j) rows
unfolding upsert_row keep
count-upsert_row_other e j [] h = ground arith
count-upsert_row_other e j (r ∷ rows) h = ground (arith, count-upsert_row_other e j rows h)

count-upsert_row_same :
    (e : Entry) (j : Text) (rows : Table)
    → text_eq e.post_id j ≡ true
    → count (of_post j) rows ≤ 1
    → count (of_post j) (upsert_row e rows) ≤ 1
unfolding upsert_row keep
count-upsert_row_same e j [] h few = ground arith
count-upsert_row_same e j (r ∷ rows) h few = ground (
  arith,
  count-upsert_row_same e j rows h,
  text_eq_iff e.post_id j,
  text_eq_iff r.post_id j,
  text_eq_iff r.post_id e.post_id,
)

upsert_row-IsKeyed : (e : Entry) (rows : Table) → IsKeyed rows → IsKeyed (upsert_row e rows)
upsert_row-IsKeyed e rows keyed j = elim (Bool-cases (text_eq e.post_id j)) [
  | inl same ↦ count-upsert_row_same e j rows same (keyed j)
  | inr other ↦ omega (arith, count-upsert_row_other e j rows other, keyed j)
]

count-bump_rows :
    (root : Text) (t : ℤ) (j : Text) (rows : Table)
    → count (of_post j) (bump_rows root t rows) ≡ count (of_post j) rows
unfolding bump_rows keep
count-bump_rows root t j [] = refl
count-bump_rows root t j (r ∷ rows) = ground (arith, count-bump_rows root t j rows)

bump_rows-IsKeyed :
    (root : Text) (t : ℤ) (rows : Table) → IsKeyed rows → IsKeyed (bump_rows root t rows)
bump_rows-IsKeyed root t rows keyed j = omega (arith, count-bump_rows root t j rows, keyed j)

delete_rows-IsKeyed :
    (ids : List Text) (rows : Table) → IsKeyed rows → IsKeyed (delete_rows ids rows)
unfolding delete_rows
delete_rows-IsKeyed ids rows keyed j =
    omega (arith, count-keep-le (of_post j) (λ r. not (contains ids r.post_id)) rows, keyed j)

module _ {Row : Type 0} where
  change-cases :
      (f : Table → Table) (db : Db Row)
      → (table (change f db).1 ≡ table db) ⊎ (table (change f db).1 ≡ f (table db))
  unfolding change
  change-cases f db = ground arith

  table-wrap :
      {E F A : Type 0} (g : E → F) (r : Result E A × Db Row) → table (wrap g r).1 ≡ table r.1
  table-wrap g (ok a, db) = refl
  table-wrap g (err e, db) = refl

  -- A statement, whose error may be wrapped, keeps a fact about the rows if its change does.
  pub change_keeps :
      {F : Type 0} (Q : Table → Type 0) (g : DbError → F) (f : Table → Table) (db : Db Row)
      → (Q (table db) → Q (f (table db)))
      → Q (table db)
      → Q (table (wrap g (change f db)).1)
  change_keeps Q g f db keeps q = elim (change-cases f db) [
    | inl same ↦ rw (table-wrap g (change f db), same) q
    | inr changed ↦ rw (table-wrap g (change f db), changed) (keeps q)
  ]

module _ {Row : Type 0} (order : OrderBy) (column : Text → Row → Text) where
  -- One call of the index or of the purge, whatever its outcome.
  pub data Step : Db Row → Db Row → Type 0 where
    migrates : (db : Db Row) → Step db (migrate order db).1
    upserts : (e : Entry) (db : Db Row) → Step db (upsert order e db).1
    bumps : (root : Text) (t : ℤ) (db : Db Row) → Step db (update_expire_by_root order root t db).1
    looks_up : (id : Text) (db : Db Row) → Step db (get_by_post_id order id db).1
    queries : (now : ℤ) (limit : ℕ) (db : Db Row) → Step db (get_expired order now limit db).1
    deletes_one : (id : Text) (db : Db Row) → Step db (delete_by_post_id order id db).1
    deletes : (ids : List Text) (db : Db Row) → Step db (delete_by_post_ids order ids db).1
    purges : (ids : List Text) (db : Db Row) → Step db (purge column ids db).1

  -- The databases after calls that begin without the table.
  pub data Reachable : Db Row → Type 0 where
    fresh : (db : Db Row) → db.expire ≡ none → Reachable db
    later : (db db' : Db Row) → Reachable db → Step db db' → Reachable db'

  table-migrate : (db : Db Row) → table (migrate order db).1 ≡ table db
  unfolding migrate
  table-migrate db = ground arith

  pub Step-IsKeyed : (db db' : Db Row) → Step db db' → IsKeyed (table db) → IsKeyed (table db')
  unfolding upsert update_expire_by_root get_by_post_id delete_by_post_id delete_by_post_ids
  Step-IsKeyed db db' (migrates _) keyed = rw (table-migrate db) keyed
  Step-IsKeyed db db' (upserts e _) keyed =
      change_keeps IsKeyed _ (upsert_row e) db (upsert_row-IsKeyed e (table db)) keyed
  Step-IsKeyed db db' (bumps root t _) keyed =
      change_keeps IsKeyed _ (bump_rows root t) db (bump_rows-IsKeyed root t (table db)) keyed
  Step-IsKeyed db db' (looks_up id _) keyed =
      rw (table-wrap _ (query (find_row id) db), table-query (find_row id) db) keyed
  Step-IsKeyed db db' (queries now limit _) keyed = rw (get_expired-keeps order now limit db) keyed
  Step-IsKeyed db db' (deletes_one id _) keyed =
      change_keeps IsKeyed _ (delete_rows (id ∷ [])) db (delete_rows-IsKeyed (id ∷ []) (table db))
        keyed
  Step-IsKeyed db db' (deletes [] _) keyed = keyed
  Step-IsKeyed db db' (deletes (id ∷ ids) _) keyed =
      change_keeps IsKeyed _ (delete_rows (id ∷ ids)) db (delete_rows-IsKeyed (id ∷ ids) (table db))
        keyed
  Step-IsKeyed db db' (purges ids _) keyed = ground (arith, expire-purge column ids db)

  -- In every database that calls of the index and of the purge reach from one without the table,
  -- with any of them failing, no post has two rows.
  pub Reachable-IsKeyed : (db : Db Row) → Reachable db → IsKeyed (table db)
  unfolding keep
  Reachable-IsKeyed db (fresh _ new) = (λ j. ground arith)
  Reachable-IsKeyed db' (later db _ r s) = Step-IsKeyed db db' s (Reachable-IsKeyed db r)
