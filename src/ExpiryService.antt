-- ===== src/ExpiryService.antt =====
-- server/expiry/service.go: the deadline of a post, and of the thread that it replies to.
pub mod Deadlines
pub mod Moved
pub mod Threads
pub mod Keeps
pub mod Steps
pub mod Bumps
pub mod Settles
use mattermost_plugin_messag.Base.{
  ℕ, zero, suc, Bool, true, false, Option, none, some, List, [], ◌∷◌, Text, Result, ok, err,
  if◌then◌else◌, Exec, pure, raise, wrap, ◌>>=◌, ◌>>◌,
}
use mattermost_plugin_messag.Int64.{ℤ, add64}
use mattermost_plugin_messag.Duration.{Duration, milliseconds}
use mattermost_plugin_messag.Ttl.{TtlError}
use mattermost_plugin_messag.Database.{Entry}
use mattermost_plugin_messag.ExpireStore.{StoreError, ExpireIndexStore}

-- the fields of a model.Post that the plugin reads; `create_at` is in unix milliseconds
pub record Post : Type 0 where
  pub id : Text
  pub channel_id : Text
  pub root_id : Text
  pub create_at : ℤ

-- The service passes on the errors of both ports as they are.
pub data ExpiryError : Type 0 where
  ttl_error : TtlError → ExpiryError
  store_error : StoreError → ExpiryError

-- TTLReader: GetTTL
abbrev pub TtlReader : Type 0 → Type 0
TtlReader W = Text → Exec W TtlError (Option Duration)

-- threadRoot
unfoldable pub thread_root : Post → Text
thread_root post = elim post.root_id [ [] ↦ post.id | c ∷ rest ↦ c ∷ rest ]

-- the expiry of a post under a TTL
unfoldable pub deadline : Post → Duration → ℤ
unfolding add64 milliseconds
deadline post d = add64 post.create_at (milliseconds d)

-- the row that a post is indexed under at the time `now`
abbrev pub entry_of : Post → Duration → ℤ → Entry
entry_of post d now = record {
  post_id = post.id;
  channel_id = post.channel_id;
  root_id = thread_root post;
  expire_at = deadline post d;
  created_at = now;
}

module _ {W : Type 0} (store : ExpireIndexStore W) (get_ttl : TtlReader W) (now : W → ℤ) where
  -- the last step of OnPostCreated: a reply moves its thread
  abbrev pub extend_thread : Post → Duration → Exec W ExpiryError (Unit {0})
  extend_thread post d = elim post.root_id [
    | [] ↦ pure tt
    | c ∷ rest ↦
        λ w. wrap store_error (store.update_expire_by_root (thread_root post) (deadline post d) w)
  ]

  -- OnPostCreated for a channel that has a TTL
  unfoldable pub index_post : Post → Duration → Exec W ExpiryError (Unit {0})
  index_post post d = do
    λ w. wrap store_error (store.upsert (entry_of post d (now w)) w)
    extend_thread post d

  -- Service.OnPostCreated
  unfoldable pub on_post_created : Post → Exec W ExpiryError (Unit {0})
  unfolding index_post
  on_post_created post = do
    ttl ← λ w. wrap ttl_error (get_ttl post.channel_id w)
    elim ttl [ none ↦ pure tt | some d ↦ index_post post d ]

  -- Service.OnPostUpdated
  unfoldable pub on_post_updated : Post → Exec W ExpiryError (Unit {0})
  on_post_updated post = pure tt
