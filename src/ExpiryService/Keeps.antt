-- ===== src/ExpiryService/Keeps.antt =====
-- What outlives the indexing of a post, whatever fails.
use mattermost_plugin_messag.Base.{inl, inr, none, some, Text, Result-cases, List-cases, state-wrap}
use mattermost_plugin_messag.Int64.{ℤ}
use mattermost_plugin_messag.Duration.{Duration}
use mattermost_plugin_messag.Database.{Entry}
use mattermost_plugin_messag.ExpireStore.{ExpireIndexStore}
use mattermost_plugin_messag.ExpiryService.{
  Post, TtlReader, entry_of, deadline, thread_root, extend_thread, index_post, on_post_created,
}

-- `P` outlives the calls that OnPostCreated makes.
pub record IndexKeeps {W : Type 0} (store : ExpireIndexStore W) (get_ttl : TtlReader W)
    (P : W → Type 0) : Type 0 where
  pub on_read : (c : Text) (w : W) → P w → P (get_ttl c w).1
  pub on_upsert : (e : Entry) (w : W) → P w → P (store.upsert e w).1
  pub on_bump : (root : Text) (t : ℤ) (w : W) → P w → P (store.update_expire_by_root root t w).1

module _ {W : Type 0} (store : ExpireIndexStore W) (get_ttl : TtlReader W) (now : W → ℤ)
    (P : W → Type 0) (K : IndexKeeps store get_ttl P) where
  extend_thread-Keeps :
      (post : Post) (d : Duration) (w : W) → P w → P (extend_thread store get_ttl now post d w).1
  extend_thread-Keeps post d w h = elim (List-cases post.root_id) [
    | inl starts ↦ rw (starts, extend_thread) h
    | inr (c, rest, reply) ↦
        rw (reply, extend_thread)
          (rw state-wrap (K.on_bump (thread_root post) (deadline post d) w h))
  ]

  index_post-Keeps :
      (post : Post) (d : Duration) (w : W) → P w → P (index_post store get_ttl now post d w).1
  unfolding index_post
  index_post-Keeps post d w h =
      let e = entry_of post d (now w) in
      let h' = K.on_upsert e w h in
      elim (Result-cases (store.upsert e w).0) [
        | inr (x, failed) ↦ rw (failed, index_post) h'
        | inl (tt, done) ↦
            rw (done, index_post) (extend_thread-Keeps post d (store.upsert e w).1 h')
      ]

  pub on_post_created-Keeps :
      (post : Post) (w : W) → P w → P (on_post_created store get_ttl now post w).1
  unfolding on_post_created
  on_post_created-Keeps post w h =
      let h' = K.on_read post.channel_id w h in
      elim (Result-cases (get_ttl post.channel_id w).0) [
        | inr (e, failed) ↦ rw (failed, on_post_created) h'
        | inl (none, off) ↦ rw (off, on_post_created) h'
        | inl (some d, on) ↦ rw (on, on_post_created) (index_post-Keeps post d _ h')
      ]
