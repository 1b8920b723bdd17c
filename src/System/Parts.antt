-- ===== src/System/Parts.antt =====
-- server/plugin.go: OnActivate, initExpiry and initSweeper put the parts together.
use mattermost_plugin_messag.Base.{Text, Result, Exec}
use mattermost_plugin_messag.Int64.{ℤ, pos}
use mattermost_plugin_messag.Duration.{Duration}
use mattermost_plugin_messag.Database.{Db}
use mattermost_plugin_messag.TtlStore.{Kv, Json, TtlSettingStore, get, set, clear}
use mattermost_plugin_messag.TtlService.{PermissionChecker, get_ttl}
use mattermost_plugin_messag.Handler.{Handler, Response, manager_of, SetTtlRequest, TtlChanged}
use mattermost_plugin_messag.Handler.Router.{Mux}
use mattermost_plugin_messag.Handler.Routes.{HttpRequest, serve_http}
use mattermost_plugin_messag.Command.{CommandArgs, execute_command}
use mattermost_plugin_messag.Command.Texts.{ModelResponse, ephemeral}
use mattermost_plugin_messag.ExpireStore.{OrderBy, ExpireIndexStore, new_sql_store}
use mattermost_plugin_messag.ExpiryService.{TtlReader}
use mattermost_plugin_messag.Purge.{PurgeError}
use mattermost_plugin_messag.Purge
use mattermost_plugin_messag.Configuration.{Configuration}
use mattermost_plugin_messag.PurgerSwitch.{Purger, SwitchApi, SwitchError}
use mattermost_plugin_messag.PurgerSwitch
use mattermost_plugin_messag.Sweeper.{Sweeper, SweepLog, new}
use mattermost_plugin_messag.Plugin.{PluginApi}

-- a call on one side of a state
abbrev pub on_server : {K D E A : Type 0} → Exec K E A → Exec (K × D) E A
on_server m w = let (r, k) = m w.0 in (r, (k, w.1))

abbrev pub on_database : {K D E A : Type 0} → Exec D E A → Exec (K × D) E A
on_database m w = let (r, d) = m w.1 in (r, (w.0, d))

-- What the server gives to the plugin: `K` is its state, `Row` a row of its tables.
pub record Parts (K Row : Type 0) : Type 0 where
  pub kv : Kv K
  pub json : Json
  pub order : OrderBy
  pub column : Text → Row → Text
  pub permissions : PermissionChecker (K × Db Row)
  pub publish : TtlChanged → K × Db Row → K × Db Row
  pub decode : Text → Result Text SetTtlRequest
  pub mux : Mux
  pub parse_duration : Text → Result Text Duration
  pub duration_string : Duration → Text
  pub now : K × Db Row → ℤ
  pub switch : SwitchApi (K × Db Row)
  pub sweep_log : SweepLog (SwitchError PurgeError) → K × Db Row → K × Db Row
  pub api : PluginApi (K × Db Row)

module _ {K Row : Type 0} (p : Parts K Row) where
  -- ttl.NewKVStore(p.API)
  abbrev pub settings_store : TtlSettingStore (K × Db Row)
  settings_store = record {
    get = λ c. on_server (get p.kv p.json c);
    set = λ c t. on_server (set p.kv p.json c t);
    clear = λ c. on_server (clear p.kv p.json c);
  }

  -- api.New(ttl.NewService(...), p.API)
  abbrev pub api_handler : Handler (K × Db Row)
  api_handler = record {
    ttl = manager_of settings_store p.permissions;
    publish = p.publish;
    now = p.now;
    decode = p.decode;
  }

  -- expiry.NewSQLStore(db)
  abbrev pub expire_store : ExpireIndexStore (K × Db Row)
  expire_store =
      let sql = new_sql_store {Row = Row} p.order in
      record {
        migrate = on_database sql.migrate;
        upsert = λ e. on_database (sql.upsert e);
        update_expire_by_root = λ root t. on_database (sql.update_expire_by_root root t);
        get_by_post_id = λ id. on_database (sql.get_by_post_id id);
        get_expired = λ now limit. on_database (sql.get_expired now limit);
        delete_by_post_id = λ id. on_database (sql.delete_by_post_id id);
        delete_by_post_ids = λ ids. on_database (sql.delete_by_post_ids ids);
      }

  -- the TTLReader of expiry.NewService(p.expireStore, p.ttlService)
  abbrev pub ttl_reader : TtlReader (K × Db Row)
  ttl_reader = get_ttl settings_store p.permissions

  -- purge.NewSQLPurger(db)
  abbrev pub sql_purger : Purger (K × Db Row) PurgeError
  sql_purger ids = on_database (Purge.purge p.column ids)

  -- sweeper.New(p.expireStore, &configPurger{...}, p.API, 500); `config` reads p.cfg
  abbrev pub plugin_sweeper :
      (K × Db Row → Configuration) → Sweeper (K × Db Row) (SwitchError PurgeError)
  plugin_sweeper config =
      new expire_store (PurgerSwitch.purge p.switch config sql_purger) p.sweep_log (pos 500) p.now

  -- Plugin.ServeHTTP
  abbrev pub plugin_serve_http : HttpRequest → K × Db Row → Response × (K × Db Row)
  plugin_serve_http = serve_http p.mux api_handler

  -- Plugin.ExecuteCommand, whose second result is always nil
  abbrev pub plugin_execute_command : CommandArgs → K × Db Row → ModelResponse × (K × Db Row)
  plugin_execute_command args w =
      let (r, w') = execute_command api_handler p.parse_duration args w in
      (ephemeral p.duration_string r, w')
