-- ===== src/TtlStore/Refines.antt =====
-- The key-value store meets the contract of a TTLSettingStore.
use mattermost_plugin_messag.Base.{
  ℕ, suc, ◌≡◌, Option, none, some, [], ◌∷◌, ◌++◌, Text, text, text_eq, text_eq_iff, append_cancel,
  ok, err, if◌then◌else◌, arith, wrap, Result-cases, inl, inr,
}
use mattermost_plugin_messag.Ttl.{TtlSetting}
use mattermost_plugin_messag.TtlStore.{
  Bytes, Kv, Json, kv_key, decoded, get, set_loop, set, clear, new_kv_store,
}
use mattermost_plugin_messag.TtlStore.Contract.{IsLawfulKv, IsLawfulJson, IsLawfulStore}

-- Two channels have two keys.
pub text_eq-kv_key : (c d : Text) → text_eq (kv_key c) (kv_key d) ≡ text_eq c d
unfolding kv_key
text_eq-kv_key c d = ground (
  arith,
  text_eq_iff (text "ttl:" ++ c) (text "ttl:" ++ d),
  text_eq_iff c d,
  append_cancel (text "ttl:") c d,
)

module _ {W : Type 0} (json : Json) (stored : W → Text → Bytes) where
  -- The setting that some bytes stand for.
  abbrev pub setting_of : Bytes → Option TtlSetting
  setting_of [] = none
  setting_of (b ∷ bytes) = elim (json.unmarshal (b ∷ bytes)) [ ok s ↦ some s | err e ↦ none ]

  abbrev pub setting : W → Text → Option TtlSetting
  setting w c = setting_of (stored w (kv_key c))

  pub setting_of-marshal :
      IsLawfulJson json
      → (t : TtlSetting) (b : Bytes) → json.marshal t ≡ ok b
      → setting_of b ≡ some t
  setting_of-marshal codec t [] e = absurd (codec.some_bytes t e)
  setting_of-marshal codec t (x ∷ b) e = rw (codec.round_trip t e, setting_of)

  module _ (kv : Kv W)
      (reads : (k : Text) (w : W) (b : Bytes) → (kv.get k w).0 ≡ ok b → b ≡ stored w k) where
    decoded-setting_of :
        (c : Text) (b : Bytes) {s : Option TtlSetting}
        → decoded {W = W} kv json c b ≡ ok s
        → s ≡ setting_of b
    decoded-setting_of c [] h = ground arith
    decoded-setting_of c (b ∷ bytes) h = ground arith

    -- What Get reads is the channel's setting, if a read of a key gives what it holds.
    pub get-setting :
        (c : Text) (w : W) {s : Option TtlSetting} → (get kv json c w).0 ≡ ok s → s ≡ setting w c
    unfolding get
    get-setting c w {s} h = elim (Result-cases (kv.get (kv_key c) w).0) [
      | inl (b, e) ↦ rw (← reads (kv_key c) w b e) (decoded-setting_of c b (rw (e, wrap) at h))
      | inr (x, e) ↦ ground arith
    ]

  module _ (kv : Kv W) (L : IsLawfulKv kv stored) where
    -- With no other writer the first round succeeds.
    stored-set_loop :
        (rounds : ℕ) (c : Text) (j : Text) (value : Bytes) (w : W)
        → (set_loop kv json (suc rounds) c value w).0 ≡ ok tt
        → stored (set_loop kv json (suc rounds) c value w).1 j
          ≡ (if text_eq (kv_key c) j then value else stored w j)
    unfolding set_loop
    stored-set_loop rounds c j value w h = elim (Result-cases (kv.get (kv_key c) w).0) [
      | inl (b, e) ↦ ground (
        arith,
        L.get_reads (kv_key c) w e,
        L.get_keeps (kv_key c) j w e,
        L.get_keeps (kv_key c) (kv_key c) w e,
        L.set_writes (kv_key c) j value b (kv.get (kv_key c) w).1,
        L.set_accepts (kv_key c) value (kv.get (kv_key c) w).1,
      )
      | inr (x, e) ↦ ground arith
    ]

    get-setting_keeps :
        (c j : Text) (w : W) {s : Option TtlSetting}
        → (get kv json c w).0 ≡ ok s
        → setting (get kv json c w).1 j ≡ setting w j
    unfolding get
    get-setting_keeps c j w h = elim (Result-cases (kv.get (kv_key c) w).0) [
      | inl (b, e) ↦ ground (arith, L.get_keeps (kv_key c) (kv_key j) w e)
      | inr (x, e) ↦ ground arith
    ]

    setting-set :
        IsLawfulJson json
        → (c j : Text) (t : TtlSetting) (w : W) → (set kv json c t w).0 ≡ ok tt
        → setting (set kv json c t w).1 j ≡ (if text_eq c j then some t else setting w j)
    unfolding set
    setting-set codec c j t w h = elim (Result-cases (json.marshal t)) [
      | inl (b, e) ↦
          rw (e, set)
            (ground (
              arith,
              stored-set_loop 19 c (kv_key j) b w (rw (e, set) at h),
              text_eq-kv_key c j,
              setting_of-marshal codec t b e,
            ))
      | inr (x, e) ↦ ground arith
    ]

    setting-clear :
        (c j : Text) (w : W)
        → (clear kv json c w).0 ≡ ok tt
        → setting (clear kv json c w).1 j ≡ (if text_eq c j then none else setting w j)
    unfolding clear
    setting-clear c j w h =
        ground (arith, L.delete_removes (kv_key c) (kv_key j) w, text_eq-kv_key c j)

    -- If the key-value API and the codec keep their contracts, the store over them keeps that of a
    -- TTLSettingStore, where a channel's setting is what its key holds.
    pub kv_store-IsLawful : IsLawfulJson json → IsLawfulStore (new_kv_store kv json) setting
    kv_store-IsLawful codec = record {
      get_reads = get-setting kv (λ k w b e. L.get_reads k w e);
      get_keeps = get-setting_keeps;
      set_writes = setting-set codec;
      clear_removes = setting-clear;
    }
