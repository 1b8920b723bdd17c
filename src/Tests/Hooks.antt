-- ===== src/Tests/Hooks.antt =====
-- The hooks of the plugin over a database that refuses to migrate.
use mattermost_plugin_messag.Base.{◌≡◌, refl, true, false, none, [], ◌∷◌, Text, ok}
use mattermost_plugin_messag.Database.{Db, refused}
use mattermost_plugin_messag.ExpireStore.{migrate, new_sql_store}
use mattermost_plugin_messag.Configuration.{get}
use mattermost_plugin_messag.Plugin.{
  PluginApi, Plugin, on_activate, load_config, activate_expiry, init_expiry, init_sweeper, register,
}
use mattermost_plugin_messag.Tests.{by_time}

abbrev server : PluginApi (Db Text)
server = record {
  has_driver = true;
  load_configuration =
      λ db. (ok (record { enable_purge = true; purge_schema_allowlist_raw = [] }), db);
  register_command = λ c db. (ok tt, db);
  get_master_db = λ db. (ok tt, db);
  schedule = λ db. (ok tt, db);
  close_job = λ db. (ok tt, db);
  log_info = λ db. db;
  log_error = λ m db. db;
}

abbrev off : Plugin
off = record {
  cfg = record { conf = record { enable_purge = false; purge_schema_allowlist_raw = [] } };
  expiry_service = false;
  sweeper_job = false;
}

abbrev read_only : Db Text
read_only = record { expire = none; rows = λ t. []; outcomes = refused [] ∷ [] }

abbrev degraded : Plugin
degraded = (on_activate server (new_sql_store by_time) off read_only).0

-- The configuration is loaded, and the index and the sweeper stay off.
degraded_off : degraded ≡ record {
  cfg = record { conf = record { enable_purge = true; purge_schema_allowlist_raw = [] } };
  expiry_service = false;
  sweeper_job = false;
}
unfolding on_activate load_config activate_expiry init_expiry init_sweeper register migrate
degraded_off = refl

-- What the switch reads after the configuration was loaded.
reads_loaded : (get degraded.cfg).enable_purge ≡ true
unfolding on_activate load_config activate_expiry init_expiry init_sweeper register migrate
reads_loaded = refl
