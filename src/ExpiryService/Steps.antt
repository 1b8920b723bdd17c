-- ===== src/ExpiryService/Steps.antt =====
-- OnPostCreated by its calls: the TTL of the channel, the upsert of the post's row, and for a reply the
-- update of its thread. The hooks of several posts run at one time.
use native.Mathlib.Omega.{arith}
use mattermost_plugin_messag.Base.{
  ℕ, zero, suc, ◌≡◌, Option, none, some, List, [], ◌∷◌, map, Result, ok, err, Result-cases, inl,
  inr,
}
use mattermost_plugin_messag.Int64.{ℤ}
use mattermost_plugin_messag.Duration.{Duration}
use mattermost_plugin_messag.ExpireStore.{ExpireIndexStore}
use mattermost_plugin_messag.ExpiryService.{
  Post, ExpiryError, ttl_error, store_error, TtlReader, thread_root, deadline, entry_of,
  on_post_created, index_post,
}

-- A post whose hook stands before one of the calls, or has returned nil or an error.
pub data Handling : Type 0 where
  arriving : Post → Handling
  indexing extending : Post → Duration → Handling
  handled : Post → Handling
  failed : Post → ExpiryError → Handling

abbrev pub post_of : Handling → Post
post_of (arriving post) = post
post_of (indexing post d) = post
post_of (extending post d) = post
post_of (handled post) = post
post_of (failed post e) = post

-- after the TTL was read
abbrev pub after_ttl : Post → Option Duration → Handling
after_ttl post none = handled post
after_ttl post (some d) = indexing post d

-- after the post's row was written
abbrev pub after_upsert : Post → Duration → Handling
after_upsert post d = elim post.root_id [ [] ↦ handled post | c ∷ rest ↦ extending post d ]

module _ {W : Type 0} (store : ExpireIndexStore W) (get_ttl : TtlReader W) (now : W → ℤ) where
  unfoldable pub handle_step : Handling → W → Handling × W
  handle_step (arriving post) w =
      let (r, w') = get_ttl post.channel_id w in
      elim r [ ok ttl ↦ (after_ttl post ttl, w') | err e ↦ (failed post (ttl_error e), w') ]
  handle_step (indexing post d) w =
      let (r, w') = store.upsert (entry_of post d (now w)) w in
      elim r [ ok _ ↦ (after_upsert post d, w') | err e ↦ (failed post (store_error e), w') ]
  handle_step (extending post d) w =
      let (r, w') = store.update_expire_by_root (thread_root post) (deadline post d) w in
      elim r [ ok _ ↦ (handled post, w') | err e ↦ (failed post (store_error e), w') ]
  handle_step (handled post) w = (handled post, w)
  handle_step (failed post e) w = (failed post e, w)

  -- the next call of the hook at a place of the list
  unfoldable pub handle_at : ℕ → List Handling → W → List Handling × W
  handle_at i [] w = ([], w)
  handle_at zero (h ∷ hs) w = let (h', w') = handle_step h w in (h' ∷ hs, w')
  handle_at (suc i) (h ∷ hs) w = let (hs', w') = handle_at i hs w in (h ∷ hs', w')

  -- how a hook ends, by what it returns
  abbrev pub outcome : Post → Result ExpiryError (Unit {0}) × W → Handling × W
  outcome post (ok _, w) = (handled post, w)
  outcome post (err e, w) = (failed post e, w)

  abbrev pub thrice : Post → W → Handling × W
  thrice post w =
      let (h, w') = handle_step (arriving post) w in
      let (h', w'') = handle_step h w' in handle_step h' w''

  -- A hook whose calls follow each other with nothing in between ends as OnPostCreated does, after three
  -- calls at most, with its result and its changes.
  pub thrice-on_post_created :
      (post : Post) (w : W)
      → thrice post w ≡ outcome post (on_post_created store get_ttl now post w)
  unfolding handle_step on_post_created index_post
  thrice-on_post_created post w = elim (Result-cases (get_ttl post.channel_id w).0) [
    | inr (e, bad) ↦ ground arith
    | inl (none, read) ↦ ground arith
    | inl (some d, read) ↦
        let w' = (get_ttl post.channel_id w).1 in
        let upserted = store.upsert (entry_of post d (now w')) w' in
        elim (Result-cases upserted.0) [
          | inr (e, bad) ↦ ground arith
          | inl (u, fine) ↦
              elim (Result-cases
                (store.update_expire_by_root (thread_root post) (deadline post d) upserted.1).0) [
                  | inr (e, bad) ↦ ground arith
                  | inl (v, done) ↦ ground arith
                ]
        ]
  ]

  -- The hooks of some posts from their start on, where `Others` is what the rest of the server does
  -- between two calls.
  module _ (Others : W → W → Type 0) (posts : List Post) (w0 : W) where
    pub data HookReach : List Handling → W → Type 0 where
      started : HookReach (map arriving posts) w0
      called :
          (i : ℕ) {hs : List Handling} {w : W}
          → HookReach hs w
          → HookReach (handle_at i hs w).0 (handle_at i hs w).1
      other : {hs : List Handling} {w w' : W} → HookReach hs w → Others w w' → HookReach hs w'
