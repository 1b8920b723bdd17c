-- ===== src/System/Live.antt =====
-- The plugin while it lives: its own state, the tick that is under way, and the server. The hooks set
-- the state, the sweeper and the purge switch read it, and each call of a tick is a step of its own.
pub mod Invariant
pub mod Migrated
pub mod Safety
pub mod FailSafe
use mattermost_plugin_messag.Base.{ℕ, ◌≡◌, true, some, Text}
use mattermost_plugin_messag.Database.{Db, table}
use mattermost_plugin_messag.Configuration.{get}
use mattermost_plugin_messag.PurgerSwitch.{SwitchError}
use mattermost_plugin_messag.Purge.{PurgeError}
use mattermost_plugin_messag.Handler.Routes.{HttpRequest, serve_http}
use mattermost_plugin_messag.Command.{CommandArgs, execute_command}
use mattermost_plugin_messag.ExpiryService.{Post}
use mattermost_plugin_messag.Plugin.{
  Plugin, on_activate, on_deactivate, on_configuration_change, message_has_been_posted,
}
use mattermost_plugin_messag.Sweeper.{Sweeper}
use mattermost_plugin_messag.Sweeper.Steps.{Phase, tick_step}
use mattermost_plugin_messag.System.Parts.{
  Parts, plugin_serve_http, plugin_execute_command, expire_store, ttl_reader, plugin_sweeper,
}
use mattermost_plugin_messag.System.Step.{IsTimely}

pub record Live (K Row : Type 0) : Type 0 where
  pub plugin : Plugin
  pub phase : Phase
  pub world : K × Db Row

module _ {K Row : Type 0} (p : Parts K Row) where
  -- the sweeper that initSweeper makes, whose switch reads the plugin's configuration
  abbrev pub sweeper_of : Plugin → Sweeper (K × Db Row) (SwitchError PurgeError)
  sweeper_of q = plugin_sweeper p (λ w. get q.cfg)

  -- the state after a hook, or after a call of a tick
  abbrev pub hooked : Live K Row → Plugin × (K × Db Row) → Live K Row
  hooked l (q, w) = record l { plugin = q; world = w }

  abbrev pub swept : Live K Row → Phase × (K × Db Row) → Live K Row
  swept l (ph, w) = record l { phase = ph; world = w }

  module _ (born : Text → ℕ) (Elsewhere : K × Db Row → K × Db Row → Type 0) where
    pub data LiveStep : Live K Row → Live K Row → Type 0 where
      activated :
          (l : Live K Row)
          → LiveStep l (hooked l (on_activate p.api (expire_store p) l.plugin l.world))
      deactivated :
          (l : Live K Row)
          → LiveStep l (hooked l (on_deactivate p.api (expire_store p) l.plugin l.world))
      configured :
          (l : Live K Row)
          → LiveStep l (hooked l (on_configuration_change p.api (expire_store p) l.plugin l.world))
      requested :
          (r : HttpRequest) (l : Live K Row)
          → LiveStep l (record l { world = (plugin_serve_http p r l.world).1 })
      commanded :
          (args : CommandArgs) (l : Live K Row)
          → LiveStep l (record l { world = (plugin_execute_command p args l.world).1 })
      posted :
          (post : Post) (l : Live K Row)
          → IsTimely born post (table l.world.1)
          → LiveStep l (record l {
            world =
                message_has_been_posted p.api
                  (expire_store p)
                  (ttl_reader p)
                  p.now
                  l.plugin
                  (some post)
                  l.world;
          })
      ticked :
          (l : Live K Row)
          → l.plugin.sweeper_job ≡ true
          → LiveStep l (swept l (tick_step (sweeper_of l.plugin) l.phase l.world))
      elsewhere :
          (l : Live K Row) (w : K × Db Row)
          → Elsewhere l.world w
          → LiveStep l (record l { world = w })

    pub data LiveReach (l : Live K Row) : Live K Row → Type 0 where
      here : LiveReach l l
      later : {u v : Live K Row} → LiveReach l u → LiveStep u v → LiveReach l v
