-- ===== src/ExpiryService/Deadlines.antt =====
-- Where a new post leaves the index.
use native.Mathlib.Omega.{arith}
use mattermost_plugin_messag.Base.{
  ℕ, ◌+◌, ◌/◌, ◌<◌, ◌^◌, ◌≡◌, Option, none, some, [], ◌∷◌, Text, ok, Result-cases, inl, inr,
}
use mattermost_plugin_messag.Int64.{ℤ, pos}
use mattermost_plugin_messag.Int64.Laws.{add64_pos}
use mattermost_plugin_messag.Duration.{Duration}
use mattermost_plugin_messag.Database.{Table}
use mattermost_plugin_messag.ExpireStore.{ExpireIndexStore, upsert_row, bump_rows}
use mattermost_plugin_messag.ExpireStore.Contract.{IsLawfulIndex}
use mattermost_plugin_messag.ExpiryService.{
  Post, TtlReader, thread_root, deadline, entry_of, index_post, on_post_created,
}

-- The post's own row, then the bump of its thread if it is a reply.
abbrev pub indexed : Post → Duration → ℤ → Table → Table
indexed post d now rows = elim post.root_id [
  | [] ↦ upsert_row (entry_of post d now) rows
  | c ∷ rest ↦
      bump_rows (thread_root post) (deadline post d) (upsert_row (entry_of post d now) rows)
]

-- the index after a post in a channel with a TTL or without
abbrev pub indexed_under : Option Duration → Post → ℤ → Table → Table
indexed_under none post now rows = rows
indexed_under (some d) post now rows = indexed post d now rows

-- A deadline is the creation time and the TTL in milliseconds, if their sum is below 2 ^ 63.
pub deadline_pos :
    (post : Post) (c n : ℕ)
    → post.create_at ≡ pos c
    → c + n / 1000000 < 2 ^ 63
    → deadline post (pos n) ≡ pos (c + n / 1000000)
unfolding deadline
deadline_pos post c n e h = rw e (add64_pos c (n / 1000000) h)

module _ {W : Type 0} (store : ExpireIndexStore W) (rows : W → Table) (L : IsLawfulIndex store rows)
    (get_ttl : TtlReader W) (now : W → ℤ)
    (get_ttl_keeps : (c : Text) (w : W) → rows (get_ttl c w).1 ≡ rows w) where
  rows-index_post :
      (post : Post) (d : Duration) (w : W)
      → (index_post store get_ttl now post d w).0 ≡ ok tt
      → rows (index_post store get_ttl now post d w).1 ≡ indexed post d (now w) (rows w)
  unfolding index_post
  rows-index_post post d w h =
      let e = entry_of post d (now w) in
      ground (
        arith,
        L.upsert_writes e w,
        L.bump_writes (thread_root post) (deadline post d) (store.upsert e w).1,
      )

  -- What a post does to the index, from the TTL that was read for its channel.
  pub rows-on_post_created :
      (post : Post) (w : W)
      → (on_post_created store get_ttl now post w).0 ≡ ok tt
      → (ttl : Option Duration) → (get_ttl post.channel_id w).0 ≡ ok ttl
      → rows (on_post_created store get_ttl now post w).1
        ≡ indexed_under ttl post (now (get_ttl post.channel_id w).1) (rows w)
  unfolding on_post_created
  rows-on_post_created post w h none off = ground (arith, get_ttl_keeps post.channel_id w)
  rows-on_post_created post w h (some d) on =
      ground (
        arith,
        get_ttl_keeps post.channel_id w,
        rows-index_post post d (get_ttl post.channel_id w).1,
      )

  -- A post that is indexed without an error had its channel's TTL read.
  pub on_post_created-get_ttl :
      (post : Post) (w : W)
      → (on_post_created store get_ttl now post w).0 ≡ ok tt
      → (ttl : Option Duration) × ((get_ttl post.channel_id w).0 ≡ ok ttl)
  unfolding on_post_created
  on_post_created-get_ttl post w h = elim (Result-cases (get_ttl post.channel_id w).0) [
    | inl read ↦ read
    | inr (e, failed) ↦ ground arith
  ]
