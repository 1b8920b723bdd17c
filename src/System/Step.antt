-- ===== src/System/Step.antt =====
-- The steps of the server, one call of the plugin each, and what else the server does.
use mattermost_plugin_messag.Base.{ℕ, ◌≤◌, ◌<◌, ◌^◌, ◌≡◌, ◌≢◌, some, [], All, Text}
use mattermost_plugin_messag.Int64.{pos}
use mattermost_plugin_messag.Database.{Db, table, Table}
use mattermost_plugin_messag.Handler.Routes.{HttpRequest}
use mattermost_plugin_messag.Command.{CommandArgs}
use mattermost_plugin_messag.ExpiryService.{Post, thread_root}
use mattermost_plugin_messag.Plugin.{Plugin, message_has_been_posted}
use mattermost_plugin_messag.Configuration.{Configuration}
use mattermost_plugin_messag.Sweeper.{run}
use mattermost_plugin_messag.System.Parts.{
  Parts, plugin_serve_http, plugin_execute_command, expire_store, ttl_reader, plugin_sweeper,
}

-- What the server promises of a post that it delivers, where `born` gives the creation times of posts
-- by their ids, in unix milliseconds: the post has its time, which is below 2 ^ 62, and
-- a reply comes after the posts of its thread.
pub record IsTimely (born : Text → ℕ) (post : Post) (rows : Table) : Type 0 where
  pub created : post.create_at ≡ pos (born post.id)
  pub early : born post.id < 2 ^ 62
  pub in_order :
      All
        (λ r. r.root_id ≡ thread_root post → post.root_id ≢ [] → born r.post_id ≤ born post.id)
        rows

module _ {K Row : Type 0} (p : Parts K Row) (born : Text → ℕ)
    (Elsewhere : K × Db Row → K × Db Row → Type 0) where
  -- `Elsewhere` is what the server, its users and other nodes do beside the plugin.
  pub data Step : K × Db Row → K × Db Row → Type 0 where
    request : (r : HttpRequest) (w : K × Db Row) → Step w (plugin_serve_http p r w).1
    command : (args : CommandArgs) (w : K × Db Row) → Step w (plugin_execute_command p args w).1
    posted :
        (plugin : Plugin) (post : Post) (w : K × Db Row)
        → IsTimely born post (table w.1)
        → Step w (
            message_has_been_posted p.api
              (expire_store p)
              (ttl_reader p)
              p.now
              plugin
              (some post)
              w)
    tick :
        (config : K × Db Row → Configuration) (w : K × Db Row)
        → Step w (run (plugin_sweeper p config) w)
    elsewhere : (w w' : K × Db Row) → Elsewhere w w' → Step w w'

  pub data Reach (w : K × Db Row) : K × Db Row → Type 0 where
    here : Reach w w
    later : {u v : K × Db Row} → Reach w u → Step u v → Reach w v
