-- ===== src/ExpireStore/Tables.antt =====
-- The calls of the index leave the server's own tables alone.
use native.Mathlib.Omega.{arith}
use mattermost_plugin_messag.Base.{ℕ, ◌≡◌, refl, List, [], ◌∷◌, Text}
use mattermost_plugin_messag.Int64.{ℤ}
use mattermost_plugin_messag.Database.{Db, Entry, change, query}
use mattermost_plugin_messag.ExpireStore.{
  OrderBy, migrate, upsert, update_expire_by_root, get_expired, delete_by_post_ids,
}

module _ {Row : Type 0} (order : OrderBy) where
  pub rows-migrate : (d : Db Row) → (migrate order d).1.rows ≡ d.rows
  unfolding migrate
  rows-migrate d = ground arith

  pub rows-upsert : (e : Entry) (d : Db Row) → (upsert order e d).1.rows ≡ d.rows
  unfolding upsert change
  rows-upsert e d = ground arith

  pub rows-update_expire_by_root :
      (root : Text) (t : ℤ) (d : Db Row) → (update_expire_by_root order root t d).1.rows ≡ d.rows
  unfolding update_expire_by_root change
  rows-update_expire_by_root root t d = ground arith

  pub rows-get_expired :
      (now : ℤ) (limit : ℕ) (d : Db Row) → (get_expired order now limit d).1.rows ≡ d.rows
  unfolding get_expired query
  rows-get_expired now limit d = ground arith

  pub rows-delete_by_post_ids :
      (ids : List Text) (d : Db Row) → (delete_by_post_ids order ids d).1.rows ≡ d.rows
  unfolding delete_by_post_ids change
  rows-delete_by_post_ids [] d = refl
  rows-delete_by_post_ids (id ∷ ids) d = ground arith
