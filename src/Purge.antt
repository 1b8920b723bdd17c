-- ===== src/Purge.antt =====
-- server/purge/purge.go: the hard delete of posts with their footprint, in one transaction.
pub mod Atomic
use mattermost_plugin_messag.Base.{
  ℕ, zero, suc, Bool, true, false, not, List, [], ◌∷◌, ◌++◌, map, keep, length, contains, Text,
  text, text_eq, join, Result, ok, err, if◌then◌else◌, Exec, ◌≡◌, refl,
}
use mattermost_plugin_messag.Database.{
  DbError, Db, Outcome, done, refused, unacknowledged, next_outcome,
}

-- The errors of a purge: the constructor is the format of `fmt.Errorf`.
pub data PurgeError : Type 0 where
  begin_failed commit_failed : DbError → PurgeError
  delete_failed : Text → Text → DbError → PurgeError

-- an element of `footprint`: a table and its column with the post's id
pub record Footprint : Type 0 where
  pub table : Text
  pub col : Text

unfoldable pub footprint : List Footprint
footprint =
    record { table = text "posts"; col = text "id" }
    ∷ record { table = text "fileinfo"; col = text "post_id" }
    ∷ record { table = text "reactions"; col = text "post_id" }
    ∷ record { table = text "mentions"; col = text "post_id" }
    ∷ []

-- inClause: the placeholders, and the arguments that they stand for
unfoldable pub in_clause : List Text → Text × List Text
unfolding join
in_clause ids = (text "(" ++ (join (text ", ") (map (λ _. text "?") ids) ++ text ")"), ids)

-- `column c r` is the value of the row `r` in the column `c`.
module _ {Row : Type 0} (column : Text → Row → Text) where
  -- DELETE FROM table WHERE col IN (ids)
  unfoldable pub delete_from : Footprint → List Text → (Text → List Row) → Text → List Row
  delete_from f ids rows t =
      if text_eq t f.table then keep (λ r. not (contains ids (column f.col r))) (rows t) else rows t

  -- The loop over the footprint, on the transaction's view of the database.
  unfoldable pub delete_all : List Footprint → List Text → Exec (Db Row) PurgeError (Unit {0})
  delete_all [] ids tx = (ok tt, tx)
  delete_all (f ∷ fs) ids tx =
      let (o, tx') = next_outcome tx in
      elim o [
        | done ↦ delete_all fs ids (record tx' { rows = delete_from f ids tx'.rows })
        | refused e ↦ (err (delete_failed f.table f.col e), tx')
        | unacknowledged e ↦ (err (delete_failed f.table f.col e), tx')
      ]

  -- The database `db` after calls that left only the outcomes of `tx`.
  abbrev pub roll_back : Db Row → Db Row → Db Row
  roll_back db tx = record db { outcomes = tx.outcomes }

  -- tx.Commit() of the view `tx` on the database `db`
  unfoldable pub commit : ℕ → Db Row → Exec (Db Row) PurgeError ℕ
  commit n db tx =
      let (o, tx') = next_outcome tx in
      elim o [
        | done ↦ (ok n, tx')
        | refused e ↦ (err (commit_failed e), roll_back db tx')
        | unacknowledged e ↦ (err (commit_failed e), tx')
      ]

  -- the transaction after its deletions: roll back on an error, else commit
  abbrev pub close :
      ℕ → Db Row → Result PurgeError (Unit {0}) × Db Row → Result PurgeError ℕ × Db Row
  close n db (err e, tx) = (err e, roll_back db tx)
  close n db (ok _, tx) = commit n db tx

  -- sqlPurger.Purge
  unfoldable pub purge : List Text → Exec (Db Row) PurgeError ℕ
  unfolding commit
  purge [] db = (ok 0, db)
  purge (id ∷ rest) db =
      let ids = id ∷ rest in
      let (o, db') = next_outcome db in
      elim o [
        | done ↦ close (length ids) db' (delete_all footprint ids db')
        | refused e ↦ (err (begin_failed e), db')
        | unacknowledged e ↦ (err (begin_failed e), db')
      ]

in_clause_two : in_clause (text "a" ∷ text "b" ∷ []) ≡ (text "(?, ?)", text "a" ∷ text "b" ∷ [])
unfolding in_clause text
in_clause_two = refl
