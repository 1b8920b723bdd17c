-- ===== src/Purge/Atomic.antt =====
-- A purge deletes a post's whole footprint or nothing.
use native.Mathlib.Omega.{arith}
use mattermost_plugin_messag.Base.{
  ℕ, ◌≡◌, refl, ap, keep_all, sym, ◌∙◌, ◌⊎◌, inl, inr, Bool, true, false, not, ◌&&◌, ◌||◌, List, [],
  ◌∷◌, keep, any, length, contains, Text, text_eq, Result, ok, err, if◌then◌else◌,
}
use mattermost_plugin_messag.Database.{DbError, Db, next_outcome}
use mattermost_plugin_messag.Purge.{
  PurgeError, commit_failed, Footprint, footprint, delete_from, delete_all, purge,
}

-- One more deletion is one more reason to go.
fused :
    {Row : Type 0} (here : Bool) (c d : Row → Bool) (l : List Row)
    → keep (λ r. not (d r)) (if here then keep (λ r. not (c r)) l else l)
      ≡ keep (λ r. not ((here && c r) || d r)) l
unfolding keep
fused here c d [] = ground arith
fused true c d (r ∷ l) = ground (arith, fused true c d l)
fused false c d (r ∷ l) = ground (arith, fused false c d l)

module _ {Row : Type 0} (column : Text → Row → Text) (ids : List Text) where
  -- whether a row of table `t` belongs to one of the posts
  unfoldable pub doomed : List Footprint → Text → Row → Bool
  doomed [] t r = false
  doomed (f ∷ fs) t r = (text_eq t f.table && contains ids (column f.col r)) || doomed fs t r

  -- the rows of a table that belong to none of the posts
  unfoldable pub survivors : List Footprint → (Text → List Row) → Text → List Row
  unfolding doomed
  survivors fs rows t = keep (λ r. not (doomed fs t r)) (rows t)

  survivors-delete_from :
      (f : Footprint) (fs : List Footprint) (rows : Text → List Row) (t : Text)
      → survivors fs (delete_from column f ids rows) t ≡ survivors (f ∷ fs) rows t
  unfolding survivors delete_from
  survivors-delete_from f fs rows t =
      fused (text_eq t f.table) (λ r. contains ids (column f.col r)) (doomed fs t) (rows t)

  -- If every deletion is done, the transaction holds the survivors.
  rows-delete_all :
      (fs : List Footprint) (tx : Db Row) (t : Text)
      → (delete_all column fs ids tx).0 ≡ ok tt
      → (delete_all column fs ids tx).1.rows t ≡ survivors fs tx.rows t
  unfolding delete_all
  rows-delete_all [] tx t h = unfold survivors doomed in sym (keep_all _ (tx.rows t) (λ r. refl))
  rows-delete_all (f ∷ fs) tx t h =
      let (o, tx') = next_outcome tx in
      let deleted : Db Row = record tx' { rows = delete_from column f ids tx'.rows } in
      ground (arith, rows-delete_all fs deleted t, survivors-delete_from f fs tx'.rows t)

  expire-delete_all :
      (fs : List Footprint) (tx : Db Row) → (delete_all column fs ids tx).1.expire ≡ tx.expire
  unfolding delete_all
  expire-delete_all [] tx = refl
  expire-delete_all (f ∷ fs) tx =
      let (o, tx') = next_outcome tx in
      let deleted : Db Row = record tx' { rows = delete_from column f ids tx'.rows } in
      ground (arith, expire-delete_all fs deleted)

-- The part of the database that a purge is about, in the two forms that it can have afterwards.
module _ {Row : Type 0} (column : Text → Row → Text) where
  abbrev pub Untouched : Db Row → Db Row → Type 0
  Untouched db db' = (t : Text) → db'.rows t ≡ db.rows t

  abbrev pub Erased : List Text → Db Row → Db Row → Type 0
  Erased ids db db' = (t : Text) → db'.rows t ≡ survivors column ids footprint db.rows t

  doomed-nil : (fs : List Footprint) (t : Text) (r : Row) → doomed column [] fs t r ≡ false
  unfolding doomed contains any
  doomed-nil [] t r = refl
  doomed-nil (f ∷ fs) t r = ground (arith, doomed-nil fs t r)

  survivors-nil :
      (fs : List Footprint) (rows : Text → List Row) (t : Text)
      → survivors column [] fs rows t ≡ rows t
  unfolding survivors
  survivors-nil fs rows t = keep_all _ (rows t) (λ r. ap not (doomed-nil fs t r))

  -- what is left of the database after the outcome of BeginTx
  abbrev begun : Db Row → Db Row
  begun db = (next_outcome db).1

  -- the transaction's view after its deletions
  abbrev view : List Text → Db Row → Result PurgeError (Unit {0}) × Db Row
  view ids db = delete_all column footprint ids (begun db)

  begun-rows : (db : Db Row) → (begun db).rows ≡ db.rows
  begun-rows db = ground arith

  -- The committed rows are those of the transaction, with every deletion done.
  Committed : List Text → Db Row → Type 0
  Committed ids db =
      ((purge column ids db).1.rows ≡ (view ids db).1.rows) × ((view ids db).0 ≡ ok tt)

  committed :
      (ids : List Text) (db : Db Row) → Committed ids db → Erased ids db (purge column ids db).1
  unfolding Committed
  committed ids db (same, all_done) t =
      ap (λ (rows : Text → List Row). rows t) same
      ∙ rows-delete_all column ids footprint (begun db) t all_done
      ∙ ap (λ (rows : Text → List Row). survivors column ids footprint rows t) (begun-rows db)

  -- A failed purge leaves the rows alone, or its commit failed.
  purge_fails :
      (ids : List Text) (db : Db Row) (e : PurgeError)
      → (purge column ids db).0 ≡ err e
      → ((purge column ids db).1.rows ≡ db.rows)
        ⊎ (((x : DbError) × (e ≡ commit_failed x)) × Committed ids db)
  unfolding purge Committed
  purge_fails [] db e h = inl refl
  purge_fails (id ∷ rest) db e h = ground arith

  purge_commits :
      (id : Text) (rest : List Text) (db : Db Row) (n : ℕ)
      → (purge column (id ∷ rest) db).0 ≡ ok n
      → (n ≡ length (id ∷ rest)) × Committed (id ∷ rest) db
  unfolding purge Committed
  purge_commits id rest db n h = (ground arith, (ground arith, ground arith))

  -- A purge that returns a number has deleted the footprint of all posts and nothing else, and the
  -- number is that of the posts asked for.
  pub purge_ok :
      (ids : List Text) (db : Db Row) (n : ℕ)
      → (purge column ids db).0 ≡ ok n
      → (n ≡ length ids) × Erased ids db (purge column ids db).1
  unfolding purge
  purge_ok [] db n h = (ground arith, λ t. sym (survivors-nil footprint db.rows t))
  purge_ok (id ∷ rest) db n h =
      let (number, done_) = purge_commits id rest db n h in (number, committed (id ∷ rest) db done_)

  -- A purge that fails has deleted nothing, or its commit failed and it has deleted the footprint of
  -- all posts and nothing else.
  pub purge_err :
      (ids : List Text) (db : Db Row) (e : PurgeError)
      → (purge column ids db).0 ≡ err e
      → Untouched db (purge column ids db).1
        ⊎ (((x : DbError) × (e ≡ commit_failed x)) × Erased ids db (purge column ids db).1)
  purge_err ids db e h = elim (purge_fails ids db e h) [
    | inl same ↦ inl (λ t. ap (λ (rows : Text → List Row). rows t) same)
    | inr (late, done_) ↦ inr (late, committed ids db done_)
  ]

  -- No purge touches the index.
  pub expire-purge : (ids : List Text) (db : Db Row) → (purge column ids db).1.expire ≡ db.expire
  unfolding purge
  expire-purge [] db = refl
  expire-purge (id ∷ rest) db =
      ground (arith, expire-delete_all column (id ∷ rest) footprint (begun db))
