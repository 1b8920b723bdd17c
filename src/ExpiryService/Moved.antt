-- ===== src/ExpiryService/Moved.antt =====
-- The rows of an index in which a new post was indexed.
use native.Mathlib.Omega.{arith}
use mattermost_plugin_messag.Base.{
  ◌≡◌, ◌≢◌, ◌∙◌, sym, refl, Option, none, some, [], ◌∷◌, Text, text_eq, text_eq_iff, text_eq_refl,
  Option-cases, Bool-cases, ◌⊎◌, inl, inr,
}
use mattermost_plugin_messag.Int64.{ℤ}
use mattermost_plugin_messag.Duration.{Duration}
use mattermost_plugin_messag.Database.{Entry, Table}
use mattermost_plugin_messag.ExpireStore.{upsert_row, find_row}
use mattermost_plugin_messag.ExpireStore.Rows.{bumped, merged, find-upsert_row, find-bump_rows}
use mattermost_plugin_messag.ExpiryService.{Post, thread_root, deadline, entry_of}
use mattermost_plugin_messag.ExpiryService.Deadlines.{indexed_under, indexed}

-- Rows of one thread have one deadline.
abbrev pub IsUniform : Table → Type 0
IsUniform rows =
    (i j : Text) (r s : Entry)
    → find_row i rows ≡ some r
    → find_row j rows ≡ some s
    → r.root_id ≡ s.root_id
    → r.expire_at ≡ s.expire_at

-- A post that starts a thread comes before its replies.
abbrev pub ComesFirst : Post → Table → Type 0
ComesFirst post rows =
    post.root_id ≡ []
    → (i : Text) (r : Entry) → find_row i rows ≡ some r
    → r.root_id ≡ post.id
    → i ≡ post.id

abbrev pub IsReply : Post → Type 0
IsReply post = post.root_id ≢ []

module _ (post : Post) (d : Duration) (now : ℤ) (rows : Table) where
  -- the row of a post after the new post is indexed
  find-indexed :
      (j : Text)
      → find_row j (indexed post d now rows) ≡ elim post.root_id [
        | [] ↦ find_row j (upsert_row (entry_of post d now) rows)
        | c ∷ rest ↦
            bumped
              (thread_root post)
              (deadline post d)
              (find_row j (upsert_row (entry_of post d now) rows))
      ]
  find-indexed j = ground (
    arith,
    find-bump_rows (thread_root post) (deadline post d) j (upsert_row (entry_of post d now) rows),
  )

  abbrev upserted : Table
  upserted = upsert_row (entry_of post d now) rows

  -- The new post, and for a reply its whole thread, have the new deadline.
  pub moved :
      (j : Text) (r : Entry)
      → find_row j (indexed post d now rows) ≡ some r
      → (j ≡ post.id) ⊎ (IsReply post × (r.root_id ≡ post.root_id))
      → r.expire_at ≡ deadline post d
  unfolding thread_root
  moved j r found which = elim (Option-cases (find_row j upserted)) [
    | inl gone ↦ ground (arith, find-indexed j)
    | inr (r', old) ↦ ground (
      arith,
      find-indexed j,
      find-upsert_row (entry_of post d now) j rows,
      text_eq_iff post.id j,
      text_eq_iff r'.root_id post.root_id,
    )
  ]

  -- The new post has a row, with its own channel, thread and deadline.
  pub own_row :
      (r : Entry) × (find_row post.id (indexed post d now rows) ≡ some r)
      × (r.channel_id ≡ post.channel_id)
      × (r.root_id ≡ thread_root post)
      × (r.expire_at ≡ deadline post d)
  unfolding thread_root
  own_row =
      let e = entry_of post d now in
      let found : (o : Option Entry)
          → find_row post.id rows ≡ o
          → find_row post.id (indexed post d now rows) ≡ some (merged e o) =
        λ o old. ground (
          arith,
          find-indexed post.id,
          find-upsert_row e post.id rows,
          text_eq_refl post.id,
          text_eq_refl post.root_id,
        ) in
      elim (Option-cases (find_row post.id rows)) [
        | inl new ↦ (e, found none new, refl, refl, refl)
        | inr (r, old) ↦ (merged e (some r), found (some r) old, refl, refl, refl)
      ]

  pub bumped_row :
      (j : Text) (r : Entry)
      → IsReply post
      → j ≢ post.id
      → find_row j rows ≡ some r
      → r.root_id ≡ post.root_id
      → find_row j (indexed post d now rows) ≡ some (record r { expire_at = deadline post d })
  unfolding thread_root
  bumped_row j r reply other found same = ground (
    arith,
    find-indexed j,
    find-upsert_row (entry_of post d now) j rows,
    text_eq_iff post.id j,
    text_eq_iff r.root_id post.root_id,
  )

  -- Every other row is as it was.
  pub untouched :
      (j : Text) (r : Entry)
      → find_row j rows ≡ some r
      → j ≢ post.id
      → (post.root_id ≡ []) ⊎ (r.root_id ≢ post.root_id)
      → find_row j (indexed post d now rows) ≡ some r
  unfolding thread_root
  untouched j r found other which = ground (
    arith,
    find-indexed j,
    find-upsert_row (entry_of post d now) j rows,
    text_eq_iff post.id j,
    text_eq_iff r.root_id post.root_id,
  )

  -- A row outside the new post's thread stood in the index before.
  was_there :
      (j : Text) (r : Entry)
      → find_row j (indexed post d now rows) ≡ some r
      → r.root_id ≢ thread_root post
      → find_row j rows ≡ some r
  unfolding thread_root
  was_there j r found other = elim (Option-cases (find_row j upserted)) [
    | inl gone ↦ ground (arith, find-indexed j)
    | inr (r', old) ↦ ground (
      arith,
      find-indexed j,
      find-upsert_row (entry_of post d now) j rows,
      text_eq_iff post.id j,
      text_eq_iff r'.root_id post.root_id,
    )
  ]

  -- A post that starts a thread writes its own row only.
  was_there_at_root :
      post.root_id ≡ []
      → (j : Text) (r : Entry) → find_row j (indexed post d now rows) ≡ some r
      → j ≢ post.id
      → find_row j rows ≡ some r
  was_there_at_root root j r found other =
      ground
        (arith, find-indexed j, find-upsert_row (entry_of post d now) j rows, text_eq_iff post.id j)

  -- A row of the new post's thread has the new deadline.
  in_thread :
      ComesFirst post rows
      → (j : Text) (r : Entry) → find_row j (indexed post d now rows) ≡ some r
      → r.root_id ≡ thread_root post
      → r.expire_at ≡ deadline post d
  unfolding thread_root
  in_thread first j r found same = elim (Bool-cases (text_eq post.root_id [])) [
    | inr reply ↦ moved j r found (
        inr (
          ground (arith, text_eq_iff post.root_id []),
          ground (arith, text_eq_iff post.root_id []),
        ))
    | inl starts ↦
        let root = (text_eq_iff post.root_id []).0 starts in
        elim (Bool-cases (text_eq j post.id)) [
          | inl self ↦ moved j r found (inl ((text_eq_iff j post.id).0 self))
          | inr differ ↦
              let other : j ≢ post.id = ground (arith, text_eq_iff j post.id) in
              absurd
                (other (first root j r (was_there_at_root root j r found other) (ground arith)))
        ]
  ]

  indexed-IsUniform : ComesFirst post rows → IsUniform rows → IsUniform (indexed post d now rows)
  indexed-IsUniform first uniform i j r s p q same =
      elim (Bool-cases (text_eq r.root_id (thread_root post))) [
        | inl inside ↦
            let e = (text_eq_iff r.root_id (thread_root post)).0 inside in
            in_thread first i r p e ∙ sym (in_thread first j s q (sym same ∙ e))
        | inr outside ↦
            let n : r.root_id ≢ thread_root post =
              ground (arith, text_eq_iff r.root_id (thread_root post)) in
            uniform i j r s (was_there i r p n) (was_there j s q (λ e. n (same ∙ e))) same
      ]

pub indexed_under-IsUniform :
    (ttl : Option Duration) (post : Post) (now : ℤ) (rows : Table)
    → ComesFirst post rows
    → IsUniform rows
    → IsUniform (indexed_under ttl post now rows)
indexed_under-IsUniform none post now rows first uniform = uniform
indexed_under-IsUniform (some d) post now rows first uniform =
    indexed-IsUniform post d now rows first uniform
