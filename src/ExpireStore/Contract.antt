-- ===== src/ExpireStore/Contract.antt =====
-- What the expire index promises its clients, and that the SQL store keeps the promise.
use Prim.Native.Nat.{min}
use mattermost_plugin_messag.Base.{
  ℕ, ◌≤◌, ◌≡◌, sym, ◌⊎◌, Bool, List, [], ◌∷◌, keep, length, Text, ok, err, arith, Result-cases, inl,
  inr,
}
use mattermost_plugin_messag.Int64.{ℤ, ◌≤ℤ◌}
use mattermost_plugin_messag.Database.{
  Entry, Table, Db, table, change, table-change, table-change_err, table-query, query-reads,
}
use mattermost_plugin_messag.ExpireStore.{
  StoreError, ExpireIndexStore, upsert_row, bump_rows, delete_rows, count, is_expired, IsSorted,
  OrderBy, expired_rows, upsert, update_expire_by_root, get_expired, delete_by_post_ids,
  new_sql_store,
}
use mattermost_plugin_messag.ExpireStore.Rows.{delete_rows-nil}
use mattermost_plugin_messag.ExpireStore.Expired.{
  count-expired_rows, expired_rows-IsSorted, count-expired_rows-le, length-expired_rows,
}

-- The rows that GetExpired may return from an index.
pub record IsBatch (now : ℤ) (limit : ℕ) (rows : Table) (batch : List Entry) : Type 0 where
  pub sorted : IsSorted batch
  pub within : (p : Entry → Bool) → count p batch ≤ count p (keep (is_expired now) rows)
  pub oldest :
      (t : ℤ) → t ≤ℤ now → count (is_expired t) batch ≡ min limit (count (is_expired t) rows)
  pub full : length batch ≡ min limit (count (is_expired now) rows)

-- `rows w` is the index in the state `w`.
pub record IsLawfulIndex {W : Type 0} (store : ExpireIndexStore W) (rows : W → Table) : Type 0 where
  pub upsert_writes :
      (e : Entry) (w : W)
      → (store.upsert e w).0 ≡ ok tt
      → rows (store.upsert e w).1 ≡ upsert_row e (rows w)
  pub bump_writes :
      (root : Text) (t : ℤ) (w : W)
      → (store.update_expire_by_root root t w).0 ≡ ok tt
      → rows (store.update_expire_by_root root t w).1 ≡ bump_rows root t (rows w)
  pub get_expired_keeps :
      (now : ℤ) (limit : ℕ) (w : W) → rows (store.get_expired now limit w).1 ≡ rows w
  pub get_expired_reads :
      (now : ℤ) (limit : ℕ) (w : W) (batch : List Entry)
      → (store.get_expired now limit w).0 ≡ ok batch
      → IsBatch now limit (rows w) batch
  pub delete_writes :
      (ids : List Text) (w : W)
      → (store.delete_by_post_ids ids w).0 ≡ ok tt
      → rows (store.delete_by_post_ids ids w).1 ≡ delete_rows ids (rows w)
  pub upsert_fails :
      (e : Entry) (w : W) (x : StoreError)
      → (store.upsert e w).0 ≡ err x
      → (rows (store.upsert e w).1 ≡ rows w) ⊎ (rows (store.upsert e w).1 ≡ upsert_row e (rows w))
  pub bump_fails :
      (root : Text) (t : ℤ) (w : W) (x : StoreError)
      → (store.update_expire_by_root root t w).0 ≡ err x
      → (rows (store.update_expire_by_root root t w).1 ≡ rows w)
        ⊎ (rows (store.update_expire_by_root root t w).1 ≡ bump_rows root t (rows w))
  pub delete_fails :
      (ids : List Text) (w : W) (e : StoreError)
      → (store.delete_by_post_ids ids w).0 ≡ err e
      → (rows (store.delete_by_post_ids ids w).1 ≡ rows w)
        ⊎ (rows (store.delete_by_post_ids ids w).1 ≡ delete_rows ids (rows w))

module _ {Row : Type 0} (order : OrderBy) where
  upsert_lem :
      (e : Entry) (db : Db Row)
      → (upsert order e db).0 ≡ ok tt
      → table (upsert order e db).1 ≡ upsert_row e (table db)
  unfolding upsert
  upsert_lem e db h = ground (arith, table-change (upsert_row e) db)

  bump_lem :
      (root : Text) (t : ℤ) (db : Db Row)
      → (update_expire_by_root order root t db).0 ≡ ok tt
      → table (update_expire_by_root order root t db).1 ≡ bump_rows root t (table db)
  unfolding update_expire_by_root
  bump_lem root t db h = ground (arith, table-change (bump_rows root t) db)

  upsert_err_lem :
      (e : Entry) (db : Db Row) (x : StoreError)
      → (upsert order e db).0 ≡ err x
      → (table (upsert order e db).1 ≡ table db)
        ⊎ (table (upsert order e db).1 ≡ upsert_row e (table db))
  unfolding upsert
  upsert_err_lem e db x h = elim (Result-cases (change (upsert_row e) db).0) [
    | inl (a, fine) ↦ ground arith
    | inr (y, failed) ↦ ground (arith, table-change_err (upsert_row e) db y)
  ]

  bump_err_lem :
      (root : Text) (t : ℤ) (db : Db Row) (x : StoreError)
      → (update_expire_by_root order root t db).0 ≡ err x
      → (table (update_expire_by_root order root t db).1 ≡ table db)
        ⊎ (table (update_expire_by_root order root t db).1 ≡ bump_rows root t (table db))
  unfolding update_expire_by_root
  bump_err_lem root t db x h = elim (Result-cases (change (bump_rows root t) db).0) [
    | inl (a, fine) ↦ ground arith
    | inr (y, failed) ↦ ground (arith, table-change_err (bump_rows root t) db y)
  ]

  pub get_expired-keeps :
      (now : ℤ) (limit : ℕ) (db : Db Row) → table (get_expired order now limit db).1 ≡ table db
  unfolding get_expired
  get_expired-keeps now limit db = ground (arith, table-query (expired_rows order now limit) db)

  get_expired-IsBatch :
      (now : ℤ) (limit : ℕ) (db : Db Row) (batch : List Entry)
      → (get_expired order now limit db).0 ≡ ok batch
      → IsBatch now limit (table db) batch
  unfolding get_expired
  get_expired-IsBatch now limit db batch h =
      let same : batch ≡ expired_rows order now limit (table db) =
        ground (arith, query-reads (expired_rows order now limit) db batch) in
      rw same (record {
        sorted = expired_rows-IsSorted order now limit (table db);
        within = count-expired_rows-le order now limit (table db);
        oldest = count-expired_rows order now limit (table db);
        full = length-expired_rows order now limit (table db);
      })

  delete_lem :
      (ids : List Text) (db : Db Row)
      → (delete_by_post_ids order ids db).0 ≡ ok tt
      → table (delete_by_post_ids order ids db).1 ≡ delete_rows ids (table db)
  unfolding delete_by_post_ids
  delete_lem [] db h = sym (delete_rows-nil (table db))
  delete_lem (id ∷ ids) db h = ground (arith, table-change (delete_rows (id ∷ ids)) db)

  delete_err_lem :
      (ids : List Text) (db : Db Row) (e : StoreError)
      → (delete_by_post_ids order ids db).0 ≡ err e
      → (table (delete_by_post_ids order ids db).1 ≡ table db)
        ⊎ (table (delete_by_post_ids order ids db).1 ≡ delete_rows ids (table db))
  unfolding delete_by_post_ids
  delete_err_lem [] db e h = cc
  delete_err_lem (id ∷ ids) db e h = elim (Result-cases (change (delete_rows (id ∷ ids)) db).0) [
    | inl (a, fine) ↦ ground arith
    | inr (x, failed) ↦ ground (arith, table-change_err (delete_rows (id ∷ ids)) db x)
  ]

  -- The SQL store keeps the contract of the index, whatever the outcomes of its statements and
  -- however the database orders rows with one time.
  pub sql_store-IsLawful : IsLawfulIndex {W = Db Row} (new_sql_store order) table
  sql_store-IsLawful = record {
    upsert_writes = upsert_lem;
    bump_writes = bump_lem;
    get_expired_keeps = get_expired-keeps;
    get_expired_reads = get_expired-IsBatch;
    delete_writes = delete_lem;
    upsert_fails = upsert_err_lem;
    bump_fails = bump_err_lem;
    delete_fails = delete_err_lem;
  }
