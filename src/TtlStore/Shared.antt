-- ===== src/TtlStore/Shared.antt =====
-- The store over a key-value API that other nodes write to as well: what all writers keep.
use mattermost_plugin_messag.Base.{
  ℕ, zero, suc, ◌≡◌, inl, inr, true, false, Text, ok, Result-cases, wrap,
}
use mattermost_plugin_messag.Ttl.{TtlSetting}
use mattermost_plugin_messag.TtlStore.{Bytes, Kv, Json, kv_key, get, set_loop, set, clear}

-- `P` is a fact about the server that all writers keep: it outlives each call, among the writes of
-- other nodes and failures, if the bytes that the call writes are `Good`.
pub record Keeps {W : Type 0} (kv : Kv W) (Good : Bytes → Type 0) (P : W → Type 0) : Type 0 where
  pub on_get : (k : Text) (w : W) → P w → P (kv.get k w).1
  pub on_set :
      (k : Text) (new old : Bytes) (w : W) → Good new → P w → P (kv.set_with_options k new old w).1
  pub on_delete : (k : Text) (w : W) → P w → P (kv.delete k w).1

module _ {W : Type 0} (kv : Kv W) (json : Json) (Good : Bytes → Type 0) (P : W → Type 0)
    (K : Keeps kv Good P) where
  pub get-Keeps : (c : Text) (w : W) → P w → P (get kv json c w).1
  unfolding get
  get-Keeps c w h =
      let h' = K.on_get (kv_key c) w h in
      elim (Result-cases (kv.get (kv_key c) w).0) [
        | inl (b, read) ↦ rw (read, wrap) h'
        | inr (e, failed) ↦ rw (failed, wrap) h'
      ]

  set_loop-Keeps :
      (rounds : ℕ) (c : Text) (value : Bytes) (w : W)
      → Good value
      → P w
      → P (set_loop kv json rounds c value w).1
  unfolding set_loop
  set_loop-Keeps zero c value w good h = h
  set_loop-Keeps (suc rounds) c value w good h =
      let w' = (kv.get (kv_key c) w).1 in
      let h' = K.on_get (kv_key c) w h in
      elim (Result-cases (kv.get (kv_key c) w).0) [
        | inr (e, failed) ↦ rw (failed, set_loop) h'
        | inl (old, read) ↦
            let w'' = (kv.set_with_options (kv_key c) value old w').1 in
            let h'' = K.on_set (kv_key c) value old w' good h' in
            elim (Result-cases (kv.set_with_options (kv_key c) value old w').0) [
              | inr (e, failed) ↦ rw (read, failed, set_loop) h''
              | inl (true, done) ↦ rw (read, done, set_loop) h''
              | inl (false, refused) ↦
                  rw (read, refused, set_loop) (set_loop-Keeps rounds c value w'' good h'')
            ]
      ]

  pub set-Keeps :
      (c : Text) (t : TtlSetting) (w : W)
      → ((b : Bytes) → json.marshal t ≡ ok b → Good b)
      → P w
      → P (set kv json c t w).1
  unfolding set
  set-Keeps c t w good h = elim (Result-cases (json.marshal t)) [
    | inl (b, coded) ↦ rw (coded, set) (set_loop-Keeps 20 c b w (good b coded) h)
    | inr (e, failed) ↦ rw (failed, set) h
  ]

  pub clear-Keeps : (c : Text) (w : W) → P w → P (clear kv json c w).1
  unfolding clear
  clear-Keeps c w h =
      let h' = K.on_delete (kv_key c) w h in
      elim (Result-cases (kv.delete (kv_key c) w).0) [
        | inl (b, done) ↦ rw (done, wrap) h'
        | inr (e, failed) ↦ rw (failed, wrap) h'
      ]
