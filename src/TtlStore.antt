-- ===== src/TtlStore.antt =====
-- server/ttl/store.go: TTL settings in the plugin's key-value store. The key-value API of the
-- server and `encoding/json` are parameters; `W` is the state of the server.
pub mod Contract
pub mod Refines
pub mod Retries
pub mod Shared
pub mod Concurrent
use mattermost_plugin_messag.Base.{
  ℕ, zero, suc, Bool, true, false, Option, none, some, List, [], ◌∷◌, ◌++◌, Text, text, Result, ok,
  err, Exec, pure, raise, lift, wrap, ◌>>=◌, ◌>>◌,
}
use mattermost_plugin_messag.Ttl.{
  TtlError, too_many_retries, kv_get, kv_set, kv_delete, encode, decode, TtlSetting, AppError,
}

abbrev pub Bytes : Type 0
Bytes = List ℕ

-- The plugin API's calls (interface KV). A missing key has no bytes. `kv_set_with_options` has the
-- option `Atomic`, and takes the old value after the new one.
pub record Kv (W : Type 0) : Type 0 where
  pub get : Text → Exec W AppError Bytes
  pub set_with_options : Text → Bytes → Bytes → Exec W AppError Bool
  pub delete : Text → Exec W AppError (Unit {0})

-- json.Marshal and json.Unmarshal of a TTLSetting
pub record Json : Type 0 where
  pub marshal : TtlSetting → Result Text Bytes
  pub unmarshal : Bytes → Result Text TtlSetting

-- TTLSettingStore: what the service knows of the store
pub record TtlSettingStore (W : Type 0) : Type 0 where
  pub get : Text → Exec W TtlError (Option TtlSetting)
  pub set : Text → TtlSetting → Exec W TtlError (Unit {0})
  pub clear : Text → Exec W TtlError (Unit {0})

-- defaultMaxRetries
abbrev pub max_retries : ℕ
max_retries = 20

-- kvKey
unfoldable pub kv_key : Text → Text
kv_key channel_id = text "ttl:" ++ channel_id

module _ {W : Type 0} (kv : Kv W) (json : Json) where
  abbrev pub decoded : Text → Bytes → Result TtlError (Option TtlSetting)
  decoded channel_id [] = ok none
  decoded channel_id (b ∷ bytes) = elim (json.unmarshal (b ∷ bytes)) [
    | ok setting ↦ ok (some setting)
    | err e ↦ err (decode channel_id e)
  ]

  -- kvStore.Get
  unfoldable pub get : Text → Exec W TtlError (Option TtlSetting)
  get channel_id = do
    data_ ← λ w. wrap (kv_get channel_id) (kv.get (kv_key channel_id) w)
    lift (decoded channel_id data_)

  -- the loop of kvStore.Set, over the rounds that are left
  unfoldable pub set_loop : ℕ → Text → Bytes → Exec W TtlError (Unit {0})
  set_loop zero channel_id value = raise too_many_retries
  set_loop (suc rounds) channel_id value = do
    current ← λ w. wrap (kv_get channel_id) (kv.get (kv_key channel_id) w)
    done ← λ w. wrap (kv_set channel_id) (kv.set_with_options (kv_key channel_id) value current w)
    elim done [ true ↦ pure tt | false ↦ set_loop rounds channel_id value ]

  -- kvStore.Set
  unfoldable pub set : Text → TtlSetting → Exec W TtlError (Unit {0})
  set channel_id setting = elim (json.marshal setting) [
    | err e ↦ raise (encode channel_id e)
    | ok value ↦ set_loop max_retries channel_id value
  ]

  -- kvStore.Clear
  unfoldable pub clear : Text → Exec W TtlError (Unit {0})
  clear channel_id w = wrap (kv_delete channel_id) (kv.delete (kv_key channel_id) w)

  -- NewKVStore
  abbrev pub new_kv_store : TtlSettingStore W
  new_kv_store = record { get = get; set = set; clear = clear }
