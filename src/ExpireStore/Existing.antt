-- ===== src/ExpireStore/Existing.antt =====
-- The table mpmd_expire is there after a migration, and no statement drops it.
use native.Mathlib.Omega.{arith}
use mattermost_plugin_messag.Base.{ℕ, ◌≡◌, Bool, true, false, none, some, List, [], ◌∷◌, Text, ok}
use mattermost_plugin_messag.Int64.{ℤ}
use mattermost_plugin_messag.Database.{Table, Db, Entry, change, query}
use mattermost_plugin_messag.ExpireStore.{
  OrderBy, upsert_row, bump_rows, delete_rows, migrate, upsert, update_expire_by_root, get_expired,
  delete_by_post_ids,
}

-- The table exists.
abbrev pub has_index : {Row : Type 0} → Db Row → Bool
has_index d = elim d.expire [ none ↦ false | some t ↦ true ]

abbrev pub HasIndex : {Row : Type 0} → Db Row → Type 0
HasIndex d = has_index d ≡ true

module _ {Row : Type 0} (order : OrderBy) where
  change-HasIndex : (f : Table → Table) (d : Db Row) → HasIndex d → HasIndex (change f d).1
  unfolding change
  change-HasIndex f d h = ground arith

  -- A migration that reports no error has made the table.
  pub migrate_makes : (d : Db Row) → (migrate order d).0 ≡ ok tt → HasIndex (migrate order d).1
  unfolding migrate
  migrate_makes d h = ground arith

  pub migrate-HasIndex : (d : Db Row) → HasIndex d → HasIndex (migrate order d).1
  unfolding migrate
  migrate-HasIndex d h = ground arith

  pub upsert-HasIndex : (e : Entry) (d : Db Row) → HasIndex d → HasIndex (upsert order e d).1
  unfolding upsert
  upsert-HasIndex e d h = ground (arith, change-HasIndex (upsert_row e) d h)

  pub bump-HasIndex :
      (root : Text) (t : ℤ) (d : Db Row)
      → HasIndex d
      → HasIndex (update_expire_by_root order root t d).1
  unfolding update_expire_by_root
  bump-HasIndex root t d h = ground (arith, change-HasIndex (bump_rows root t) d h)

  pub get_expired-HasIndex :
      (now : ℤ) (limit : ℕ) (d : Db Row) → HasIndex d → HasIndex (get_expired order now limit d).1
  unfolding get_expired query
  get_expired-HasIndex now limit d h = ground arith

  pub delete-HasIndex :
      (ids : List Text) (d : Db Row) → HasIndex d → HasIndex (delete_by_post_ids order ids d).1
  unfolding delete_by_post_ids
  delete-HasIndex [] d h = h
  delete-HasIndex (id ∷ ids) d h = ground (arith, change-HasIndex (delete_rows (id ∷ ids)) d h)
