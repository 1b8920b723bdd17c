-- ===== src/Tests/Life.antt =====
-- The theorems about the living plugin: it is activated, a TTL is set, and a tick has chosen an old post
-- when a new post stands in the same tables.
use native.Mathlib.Omega.{arith}
use mattermost_plugin_messag.Base.{
  ℕ, ◌≡◌, refl, inl, true, false, List, [], ◌∷◌, contains, any, keep, Text, text,
}
use mattermost_plugin_messag.Database.{query}
use mattermost_plugin_messag.Configuration.{Configuration, get}
use mattermost_plugin_messag.ExpireStore.{get_expired, expired_rows, migrate}
use mattermost_plugin_messag.PurgerSwitch.Routes.{MayHardPurge}
use mattermost_plugin_messag.Handler.Routes.{serve_http}
use mattermost_plugin_messag.Plugin.{
  Plugin, on_activate, load_config, activate_expiry, init_expiry, init_sweeper, register,
}
use mattermost_plugin_messag.Sweeper.{effective_batch_size}
use mattermost_plugin_messag.Sweeper.Steps.{idle, chosen, tick_step}
use mattermost_plugin_messag.System.Parts.{Parts, api_handler, expire_store}
use mattermost_plugin_messag.System.Posts.{post_rows}
use mattermost_plugin_messag.System.Live.{
  Live, LiveReach, sweeper_of, hooked, swept, activated, requested, ticked, here, later,
}
use mattermost_plugin_messag.System.Live.Invariant.{ReliesOnHooks, IsClock, LiveAged}
use mattermost_plugin_messag.System.Live.Migrated.{IndexStays, LiveSound, LiveReach-LiveSound}
use mattermost_plugin_messag.System.Live.Safety.{live_spares_young}
use mattermost_plugin_messag.System.Live.FailSafe.{Kept, TablesKeep, tables-Kept}
use mattermost_plugin_messag.Tests.{column, by_time}
use mattermost_plugin_messag.Tests.Keys.{Memory}
use mattermost_plugin_messag.Tests.World.{
  World, parts, born, Nothing, held, old_post, new_post, start, set_minutes, parts-Relies,
  start-IsSound, parts-SparesPosts, new_is_young,
}

-- the plugin before its activation
abbrev zero_plugin : Plugin
zero_plugin = record {
  cfg = record { conf = record { enable_purge = false; purge_schema_allowlist_raw = [] } };
  expiry_service = false;
  sweeper_job = false;
}

abbrev asleep : Live Memory Text
asleep = record { plugin = zero_plugin; phase = idle; world = start }

-- after OnActivate
abbrev awake : Live Memory Text
awake = hooked parts asleep (on_activate parts.api (expire_store parts) zero_plugin start)

-- after a request for a TTL
abbrev ready : Live Memory Text
ready = record awake {
  world = (serve_http parts.mux (api_handler parts) set_minutes awake.world).1;
}

-- after the query of a tick
abbrev sweeping : Live Memory Text
sweeping = swept parts ready (tick_step (sweeper_of parts ready.plugin) ready.phase ready.world)

scheduled : ready.plugin.sweeper_job ≡ true
unfolding on_activate load_config activate_expiry init_expiry init_sweeper register migrate
scheduled = refl

abbrev time : World → ℕ
time w = 105000

parts-IsClock : IsClock parts held born Nothing time
parts-IsClock = record { reads = λ w. refl; forward = λ l l' step. omega arith }

parts-ReliesOnHooks : ReliesOnHooks parts held born
parts-ReliesOnHooks = record {
  on_load = λ w. record { settings = λ c. refl; rows = refl };
  on_register = λ w. record { settings = λ c. refl; rows = refl };
  on_master_db = λ w. record { settings = λ c. refl; rows = refl };
  on_schedule = λ w. record { settings = λ c. refl; rows = refl };
  on_close = λ w. record { settings = λ c. refl; rows = refl };
  on_info = λ w. record { settings = λ c. refl; rows = refl };
}

asleep-LiveAged : LiveAged parts held born time asleep
unfolding contains any
asleep-LiveAged = record { sound = start-IsSound; old = λ j listed. absurd (cc) }

parts-IndexStays : IndexStays parts Nothing
parts-IndexStays = record {
  on_publish = λ e w h. h;
  on_soft_delete = λ id w h. h;
  on_switch_log = λ m w h. h;
  on_sweep_log = λ m w h. h;
  on_load = λ w h. h;
  on_register = λ w h. h;
  on_master_db = λ w h. h;
  on_schedule = λ w h. h;
  on_close = λ w h. h;
  on_info = λ w h. h;
  on_error = λ m w h. h;
  on_elsewhere = λ w w' never h. absurd never;
}

asleep-LiveSound : LiveSound parts held born time asleep
asleep-LiveSound = record { aged = asleep-LiveAged; ordered = inl refl; ready = λ on. absurd (cc) }

reached : LiveReach parts born Nothing asleep sweeping
reached =
    later (later (later here (activated asleep)) (requested set_minutes awake))
      (ticked ready scheduled)

LiveReach-LiveSound_example : LiveSound parts held born time sweeping
LiveReach-LiveSound_example =
    LiveReach-LiveSound parts Nothing parts-IndexStays held born parts-Relies parts-ReliesOnHooks
      time parts-IsClock asleep sweeping reached asleep-LiveSound

live_spares_young_example :
    post_rows column new_post
      (tick_step (sweeper_of parts sweeping.plugin) sweeping.phase sweeping.world).1.1
    ≡ post_rows column new_post sweeping.world.1
live_spares_young_example =
    live_spares_young parts held born Nothing parts-Relies parts-ReliesOnHooks time parts-IsClock
      asleep sweeping new_post asleep-LiveAged reached parts-SparesPosts new_is_young

-- The same server with a license, which is never purged hard.
abbrev licensed : Parts Memory Text
licensed = record parts { switch = record parts.switch { has_license = λ w. true } }

abbrev Both : (Text → List Text) → Type 0
Both rows = rows (text "posts") ≡ old_post ∷ new_post ∷ []

licensed-TablesKeep : TablesKeep licensed Both Nothing
licensed-TablesKeep = record {
  on_publish = λ e w h. h;
  on_soft_delete = λ id w h. h;
  on_switch_log = λ m w h. h;
  on_sweep_log = λ m w h. h;
  on_load = λ w h. h;
  on_register = λ w h. h;
  on_master_db = λ w h. h;
  on_schedule = λ w h. h;
  on_close = λ w h. h;
  on_info = λ w h. h;
  on_error = λ m w h. h;
  on_elsewhere = λ w w' never h. absurd never;
}

abbrev Any : Configuration → Type 0
Any c = Unit

licensed_never : (w : World) (c : Configuration) → Any c → ¬ MayHardPurge licensed.switch (λ _. c) w
licensed_never w c any m = cc (m.unlicensed)

abbrev licensed_awake : Live Memory Text
licensed_awake =
    hooked licensed asleep (on_activate licensed.api (expire_store licensed) zero_plugin start)

abbrev licensed_sweeping : Live Memory Text
licensed_sweeping = swept licensed licensed_awake (
    tick_step (sweeper_of licensed licensed_awake.plugin) licensed_awake.phase licensed_awake.world)

licensed_scheduled : licensed_awake.plugin.sweeper_job ≡ true
unfolding on_activate load_config activate_expiry init_expiry init_sweeper register migrate
licensed_scheduled = refl

-- The tick has chosen the old post.
has_chosen : licensed_sweeping.phase ≡ chosen (old_post ∷ [])
unfolding tick_step effective_batch_size get_expired expired_rows query keep by_time on_activate
    load_config activate_expiry init_expiry init_sweeper register migrate
has_chosen = refl

licensed_reached : LiveReach licensed born Nothing asleep licensed_sweeping
licensed_reached = later (later here (activated asleep)) (ticked licensed_awake licensed_scheduled)

tables-Kept_example :
    Any (get licensed_sweeping.plugin.cfg) × Kept licensed Both licensed_sweeping.world
tables-Kept_example =
    tables-Kept licensed Both Nothing licensed-TablesKeep Any (λ w c loaded. tt) licensed_never born
      asleep licensed_sweeping tt licensed_reached refl
