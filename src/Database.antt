-- ===== src/Database.antt =====
-- The Mattermost master database behind `database/sql`: the plugin's index mpmd_expire and the
-- server's own tables. Statements are atomic; one may fail before or after it took effect.
use mattermost_plugin_messag.Base.{
  ◌≡◌, Option, none, some, List, [], ◌∷◌, Text, Result, ok, err, Exec, arith, ◌⊎◌,
}
use mattermost_plugin_messag.Int64.{ℤ}

-- the text of an error of the driver
abbrev pub DbError : Type 0
DbError = Text

-- expiry.Entry: a row of mpmd_expire
pub record Entry : Type 0 where
  pub post_id : Text
  pub channel_id : Text
  pub root_id : Text
  pub expire_at : ℤ
  pub created_at : ℤ

abbrev pub Table : Type 0
Table = List Entry

-- What becomes of a call: it is done, it is refused, or it takes effect and its reply is lost.
pub data Outcome : Type 0 where
  done : Outcome
  refused unacknowledged : DbError → Outcome

-- `expire` is the index, once its table exists; `rows t` are the rows of the server's table `t`;
-- `outcomes` are those of the calls to come, `done` when the list is used up.
pub record Db (Row : Type 0) : Type 0 where
  pub expire : Option Table
  pub rows : Text → List Row
  pub outcomes : List Outcome

-- the error of a statement on a table that does not exist
abbrev pub no_table : DbError
no_table = []

module _ {Row : Type 0} where
  -- the outcome of the next call, and the database without it
  abbrev pub next_outcome : Db Row → Outcome × Db Row
  next_outcome db = elim db.outcomes [
    | [] ↦ (done, db)
    | o ∷ rest ↦ (o, record db { outcomes = rest })
  ]

  abbrev pub settle : {A : Type 0} → Outcome → A → Db Row → Db Row → Result DbError A × Db Row
  settle done a before after = (ok a, after)
  settle (refused e) a before after = (err e, before)
  settle (unacknowledged e) a before after = (err e, after)

  -- a statement on the index that changes its rows
  unfoldable pub change : (Table → Table) → Exec (Db Row) DbError (Unit {0})
  change f db =
      let (o, before) = next_outcome db in
      elim before.expire [
        | none ↦ (err no_table, before)
        | some t ↦ settle o tt before (record before { expire = some (f t) })
      ]

  -- a query on the index
  unfoldable pub query : {A : Type 0} → (Table → A) → Exec (Db Row) DbError A
  query f db =
      let (o, before) = next_outcome db in
      elim before.expire [ none ↦ (err no_table, before) | some t ↦ settle o (f t) before before ]

  -- the rows of the index
  abbrev pub table : Db Row → Table
  table db = elim db.expire [ none ↦ [] | some t ↦ t ]

  pub table-change :
      (f : Table → Table) (db : Db Row)
      → (change f db).0 ≡ ok tt
      → table (change f db).1 ≡ f (table db)
  unfolding change
  table-change f db h = ground arith

  pub table-query : {A : Type 0} (f : Table → A) (db : Db Row) → table (query f db).1 ≡ table db
  unfolding query
  table-query f db = ground arith

  pub query-reads :
      {A : Type 0} (f : Table → A) (db : Db Row) (a : A) → (query f db).0 ≡ ok a → a ≡ f (table db)
  unfolding query
  query-reads f db a h = ground arith

  -- A statement that reports an error has taken effect or has not.
  pub table-change_err :
      (f : Table → Table) (db : Db Row) (e : DbError)
      → (change f db).0 ≡ err e
      → (table (change f db).1 ≡ table db) ⊎ (table (change f db).1 ≡ f (table db))
  unfolding change
  table-change_err f db e h = ground arith
