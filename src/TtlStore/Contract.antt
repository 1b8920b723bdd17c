-- ===== src/TtlStore/Contract.antt =====
-- What the plugin API and the JSON codec promise, and what the store promises its clients.
use mattermost_plugin_messag.Base.{
  ◌≡◌, ◌≢◌, true, false, Option, none, some, [], Text, text_eq, ok, if◌then◌else◌,
}
use mattermost_plugin_messag.Ttl.{TtlSetting}
use mattermost_plugin_messag.TtlStore.{Bytes, Kv, Json, TtlSettingStore}

-- The key-value API while no other writer runs: `stored w k` is what key `k` holds. Nothing is
-- said of a call that fails: it may have changed the store or not.
pub record IsLawfulKv {W : Type 0} (kv : Kv W) (stored : W → Text → Bytes) : Type 0 where
  pub get_reads : (k : Text) (w : W) {b : Bytes} → (kv.get k w).0 ≡ ok b → b ≡ stored w k
  pub get_keeps :
      (k j : Text) (w : W) {b : Bytes}
      → (kv.get k w).0 ≡ ok b
      → stored (kv.get k w).1 j ≡ stored w j
  -- A write with option `Atomic` is refused exactly if the old value is another.
  pub set_writes :
      (k j : Text) (new old : Bytes) (w : W)
      → (kv.set_with_options k new old w).0 ≡ ok true
      → stored (kv.set_with_options k new old w).1 j ≡ (if text_eq k j then new else stored w j)
  pub set_accepts :
      (k : Text) (new : Bytes) (w : W) → (kv.set_with_options k new (stored w k) w).0 ≢ ok false
  pub delete_removes :
      (k j : Text) (w : W)
      → (kv.delete k w).0 ≡ ok tt
      → stored (kv.delete k w).1 j ≡ (if text_eq k j then [] else stored w j)

pub record IsLawfulJson (json : Json) : Type 0 where
  pub round_trip : (t : TtlSetting) {b : Bytes} → json.marshal t ≡ ok b → json.unmarshal b ≡ ok t
  pub some_bytes : (t : TtlSetting) → json.marshal t ≢ ok []

-- The contract of a TTLSettingStore over the settings that the server holds.
pub record IsLawfulStore {W : Type 0} (store : TtlSettingStore W)
    (setting : W → Text → Option TtlSetting) : Type 0 where
  pub get_reads :
      (c : Text) (w : W) {s : Option TtlSetting} → (store.get c w).0 ≡ ok s → s ≡ setting w c
  pub get_keeps :
      (c j : Text) (w : W) {s : Option TtlSetting}
      → (store.get c w).0 ≡ ok s
      → setting (store.get c w).1 j ≡ setting w j
  pub set_writes :
      (c j : Text) (t : TtlSetting) (w : W)
      → (store.set c t w).0 ≡ ok tt
      → setting (store.set c t w).1 j ≡ (if text_eq c j then some t else setting w j)
  pub clear_removes :
      (c j : Text) (w : W)
      → (store.clear c w).0 ≡ ok tt
      → setting (store.clear c w).1 j ≡ (if text_eq c j then none else setting w j)
