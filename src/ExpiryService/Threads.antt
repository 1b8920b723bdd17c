-- ===== src/ExpiryService/Threads.antt =====
-- A reply moves its whole thread, so a thread has one deadline.
use mattermost_plugin_messag.Base.{◌≡◌, ◌≢◌, true, Option, none, some, [], Text, ok, ◌⊎◌}
use mattermost_plugin_messag.Int64.{ℤ, ltb_ℤ}
use mattermost_plugin_messag.Duration.{Duration}
use mattermost_plugin_messag.Database.{Entry, Table}
use mattermost_plugin_messag.ExpireStore.{ExpireIndexStore, find_row}
use mattermost_plugin_messag.ExpireStore.Contract.{IsLawfulIndex}
use mattermost_plugin_messag.ExpiryService.{Post, TtlReader, thread_root, deadline, on_post_created}
use mattermost_plugin_messag.ExpiryService.Deadlines.{
  indexed_under, on_post_created-get_ttl, rows-on_post_created,
}
use mattermost_plugin_messag.ExpiryService.Moved.{
  IsUniform, ComesFirst, IsReply, own_row, moved, bumped_row, untouched, indexed_under-IsUniform,
}

module _ {W : Type 0} (store : ExpireIndexStore W) (rows : W → Table) (L : IsLawfulIndex store rows)
    (get_ttl : TtlReader W) (now : W → ℤ)
    (get_ttl_keeps : (c : Text) (w : W) → rows (get_ttl c w).1 ≡ rows w) (post : Post) (w : W)
    (fine : (on_post_created store get_ttl now post w).0 ≡ ok tt) where
  abbrev after : Table
  after = rows (on_post_created store get_ttl now post w).1

  rows_under :
      (ttl : Option Duration)
      → (get_ttl post.channel_id w).0 ≡ ok ttl
      → after ≡ indexed_under ttl post (now (get_ttl post.channel_id w).1) (rows w)
  rows_under = rows-on_post_created store rows L get_ttl now get_ttl_keeps post w fine

  -- A post that is handled without error, over a lawful index and a TTL reader that does not write to
  -- it. In a channel without a TTL the post changes nothing in the index. In a channel with the TTL
  -- `d` the post has a row, with its channel, the root of its thread, and an expiry `d` after its
  -- creation; a reply gives this expiry to each row that its thread had, and changes nothing else in
  -- it; and no row of the post, or for a reply of its thread, has another expiry. In both cases every
  -- row of another post stays as it was, for a reply outside its thread.
  pub on_post_created_deadlines :
      (ttl : Option Duration)
      → (get_ttl post.channel_id w).0 ≡ ok ttl
      → (ttl ≡ none → after ≡ rows w)
        × ((d : Duration)
            → ttl ≡ some d
            → (r : Entry) × (find_row post.id after ≡ some r)
              × (r.channel_id ≡ post.channel_id)
              × (r.root_id ≡ thread_root post)
              × (r.expire_at ≡ deadline post d))
        × ((d : Duration) (j : Text) (r : Entry)
            → ttl ≡ some d
            → IsReply post
            → j ≢ post.id
            → find_row j (rows w) ≡ some r
            → r.root_id ≡ post.root_id
            → find_row j after ≡ some (record r { expire_at = deadline post d }))
        × ((d : Duration) (j : Text) (r : Entry)
            → ttl ≡ some d
            → find_row j after ≡ some r
            → (j ≡ post.id) ⊎ (IsReply post × (r.root_id ≡ post.root_id))
            → r.expire_at ≡ deadline post d)
        × ((j : Text) (r : Entry)
            → find_row j (rows w) ≡ some r
            → j ≢ post.id
            → (post.root_id ≡ []) ⊎ (r.root_id ≢ post.root_id)
            → find_row j after ≡ some r)
  on_post_created_deadlines none read = (
    λ _. rows_under none read,
    λ d no_ttl. cc,
    λ d j r no_ttl. cc,
    λ d j r no_ttl. cc,
    λ j r found other which. rw (rows_under none read) found,
  )
  on_post_created_deadlines (some d) read =
      let t = now (get_ttl post.channel_id w).1 in
      (
        λ no_ttl. cc,
        λ d' same.
            (let e : d ≡ d' = cc in rw (← e, rows_under (some d) read) (own_row post d t (rows w))),
        λ d' j r same reply other found inside.
            (let e : d ≡ d' = cc in
              rw (← e, rows_under (some d) read)
                (bumped_row post d t (rows w) j r reply other found inside)),
        λ d' j r same found which.
            (let e : d ≡ d' = cc in
              rw (← e)
                (moved post d t (rows w) j r (rw (rows_under (some d) read) at found) which)),
        λ j r found other which.
            rw (rows_under (some d) read) (untouched post d t (rows w) j r found other which),
      )

  -- Over a lawful index and a TTL reader that does not write to it: if every thread has one deadline,
  -- and a post that starts a thread comes before its
  -- replies, then every thread has one deadline after a post that is handled without error.
  pub on_post_created-IsUniform : ComesFirst post (rows w) → IsUniform (rows w) → IsUniform after
  on_post_created-IsUniform first uniform =
      let (ttl, read) =
        on_post_created-get_ttl store rows L get_ttl now get_ttl_keeps post w fine in
      rw (rows_under ttl read) (
        indexed_under-IsUniform ttl post (now (get_ttl post.channel_id w).1) (rows w) first uniform)

  -- A reply gives each other row of its thread its own deadline.
  pub reply_moves :
      (d : Duration) (j : Text) (r : Entry)
      → (get_ttl post.channel_id w).0 ≡ ok (some d)
      → IsReply post
      → j ≢ post.id
      → find_row j (rows w) ≡ some r
      → r.root_id ≡ post.root_id
      → find_row j after ≡ some (record r { expire_at = deadline post d })
  reply_moves d j r read reply other found same =
      rw (rows_under (some d) read)
        (bumped_row post d (now (get_ttl post.channel_id w).1) (rows w) j r reply other found same)

  -- Over a lawful index and a TTL reader that does not write to it: in a channel with a TTL, a reply
  -- that is handled without error, and whose deadline is earlier than that of another post's
  -- row in its thread, gives that row an earlier deadline: replies do not only extend a thread.
  pub reply_shortens :
      (d : Duration) (j : Text) (r : Entry)
      → (get_ttl post.channel_id w).0 ≡ ok (some d)
      → IsReply post
      → j ≢ post.id
      → find_row j (rows w) ≡ some r
      → r.root_id ≡ post.root_id
      → ltb_ℤ (deadline post d) r.expire_at ≡ true
      → (r' : Entry) × (find_row j after ≡ some r') × (ltb_ℤ r'.expire_at r.expire_at ≡ true)
  reply_shortens d j r read reply other found same earlier = (
    record r { expire_at = deadline post d },
    reply_moves d j r read reply other found same,
    earlier,
  )
