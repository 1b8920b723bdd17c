-- ===== src/ExpireStore.antt =====
-- server/expiry/store.go: the expire index in SQL. Each statement is written as what it does to the
-- rows of mpmd_expire.
pub mod Rows
pub mod Counts
pub mod Contract
pub mod Expired
pub mod PrimaryKey
pub mod Every
pub mod Tables
pub mod Existing
use mattermost_plugin_messag.Base.{
  ℕ, zero, suc, ◌≡◌, Bool, true, false, not, Option, none, some, List, [], ◌∷◌, map, keep, take,
  length, contains, Text, text_eq, Result, ok, err, if◌then◌else◌, Exec, wrap, ◌≤◌, ◌>>=◌,
}
use mattermost_plugin_messag.Int64.{ℤ, ◌≤ℤ◌, leb_ℤ}
use mattermost_plugin_messag.Database.{
  DbError, Entry, Table, Db, Outcome, done, refused, unacknowledged, next_outcome, settle, change,
  query,
}

-- The errors of the store: the constructor is the format of `fmt.Errorf`.
pub data StoreError : Type 0 where
  migrate_failed query_expired_failed scan_expired_failed read_expired_failed : DbError → StoreError
  delete_batch_failed : DbError → StoreError
  upsert_failed bump_failed get_failed delete_failed : Text → DbError → StoreError

-- ExpireIndexStore
pub record ExpireIndexStore (W : Type 0) : Type 0 where
  pub migrate : Exec W StoreError (Unit {0})
  pub upsert : Entry → Exec W StoreError (Unit {0})
  pub update_expire_by_root : Text → ℤ → Exec W StoreError (Unit {0})
  pub get_by_post_id : Text → Exec W StoreError (Option Entry)
  pub get_expired : ℤ → ℕ → Exec W StoreError (List Entry)
  pub delete_by_post_id : Text → Exec W StoreError (Unit {0})
  pub delete_by_post_ids : List Text → Exec W StoreError (Unit {0})

-- upsertSQL: a row with the post's id gets the new values but for created_at
unfoldable pub upsert_row : Entry → Table → Table
upsert_row e [] = e ∷ []
upsert_row e (r ∷ rows) =
    if text_eq r.post_id e.post_id
    then record r { channel_id = e.channel_id; root_id = e.root_id; expire_at = e.expire_at } ∷ rows
    else r ∷ upsert_row e rows

abbrev pub bump_row : Text → ℤ → Entry → Entry
bump_row root t r = if text_eq r.root_id root then record r { expire_at = t } else r

-- updateByRootSQL
unfoldable pub bump_rows : Text → ℤ → Table → Table
bump_rows root t = map (bump_row root t)

-- getByPostSQL
unfoldable pub find_row : Text → Table → Option Entry
find_row id [] = none
find_row id (r ∷ rows) = if text_eq r.post_id id then some r else find_row id rows

-- DELETE ... WHERE post_id IN (...)
unfoldable pub delete_rows : List Text → Table → Table
delete_rows ids = keep (λ r. not (contains ids r.post_id))

-- The number of elements that pass a test.
abbrev pub count {ℓ} : {A : Type ℓ} → (A → Bool) → List A → ℕ
count p l = length (keep p l)

abbrev pub IsSorted : List Entry → Type 0
IsSorted [] = Unit
IsSorted (r ∷ []) = Unit
IsSorted (r ∷ s ∷ rows) = (r.expire_at ≤ℤ s.expire_at) × IsSorted (s ∷ rows)

-- What `ORDER BY expire_at` may do: rows with one time come in an order of the database's choice.
pub record OrderBy : Type 0 where
  pub sort : List Entry → List Entry
  pub sort_sorts : (rows : List Entry) → IsSorted (sort rows)
  pub sort_keeps : (p : Entry → Bool) (rows : List Entry) → count p (sort rows) ≡ count p rows

-- whether `expire_at <= now`
abbrev pub is_expired : ℤ → Entry → Bool
is_expired now r = leb_ℤ r.expire_at now

-- getExpiredSQL
unfoldable pub expired_rows : OrderBy → ℤ → ℕ → Table → List Entry
expired_rows order now limit rows = take limit (order.sort (keep (is_expired now) rows))

module _ {Row : Type 0} (order : OrderBy) where
  -- sqlStore.Migrate
  unfoldable pub migrate : Exec (Db Row) StoreError (Unit {0})
  migrate db =
      let (o, before) = next_outcome db in
      wrap migrate_failed (elim before.expire [
        | none ↦ settle o tt before (record before { expire = some [] })
        | some t ↦ settle o tt before before
      ])

  -- sqlStore.Upsert
  unfoldable pub upsert : Entry → Exec (Db Row) StoreError (Unit {0})
  upsert e db = wrap (upsert_failed e.post_id) (change (upsert_row e) db)

  -- sqlStore.UpdateExpireByRoot
  unfoldable pub update_expire_by_root : Text → ℤ → Exec (Db Row) StoreError (Unit {0})
  update_expire_by_root root t db = wrap (bump_failed root) (change (bump_rows root t) db)

  -- sqlStore.GetByPostID
  unfoldable pub get_by_post_id : Text → Exec (Db Row) StoreError (Option Entry)
  get_by_post_id id db = wrap (get_failed id) (query (find_row id) db)

  -- The loop over the rows of a query, and rows.Err() after it: Scan may reject a row, or the rows
  -- may end early with an error.
  unfoldable pub scan_rows : List Entry → Exec (Db Row) StoreError (List Entry)
  scan_rows rows db =
      let (o, db') = next_outcome db in
      elim o [
        | done ↦ (ok rows, db')
        | refused e ↦ (err (scan_expired_failed e), db')
        | unacknowledged e ↦ (err (read_expired_failed e), db')
      ]

  -- sqlStore.GetExpired
  unfoldable pub get_expired : ℤ → ℕ → Exec (Db Row) StoreError (List Entry)
  unfolding scan_rows
  get_expired now limit = do
    rows ← λ db. wrap query_expired_failed (query (expired_rows order now limit) db)
    scan_rows rows

  -- sqlStore.DeleteByPostID
  unfoldable pub delete_by_post_id : Text → Exec (Db Row) StoreError (Unit {0})
  delete_by_post_id id db = wrap (delete_failed id) (change (delete_rows (id ∷ [])) db)

  -- sqlStore.DeleteByPostIDs
  unfoldable pub delete_by_post_ids : List Text → Exec (Db Row) StoreError (Unit {0})
  delete_by_post_ids [] db = (ok tt, db)
  delete_by_post_ids (id ∷ ids) db = wrap delete_batch_failed (change (delete_rows (id ∷ ids)) db)

  -- NewSQLStore
  abbrev pub new_sql_store : ExpireIndexStore (Db Row)
  new_sql_store = record {
    migrate = migrate;
    upsert = upsert;
    update_expire_by_root = update_expire_by_root;
    get_by_post_id = get_by_post_id;
    get_expired = get_expired;
    delete_by_post_id = delete_by_post_id;
    delete_by_post_ids = delete_by_post_ids;
  }
