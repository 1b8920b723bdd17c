-- ===== src/TtlStore/Retries.antt =====
-- When the loop of kvStore.Set gives up: other writers changed the key in each of its rounds.
use native.Mathlib.Omega.{arith}
use mattermost_plugin_messag.Base.{
  ℕ, zero, suc, ◌+◌, ◌≤◌, ◌≡◌, ◌⊎◌, inl, inr, true, false, Text, ok, err, Result-cases,
}
use mattermost_plugin_messag.Ttl.{
  TtlError, too_many_retries, kv_get, kv_set, encode, TtlSetting, AppError,
}
use mattermost_plugin_messag.TtlStore.{Bytes, Kv, Json, kv_key, set_loop, set}

-- The key-value API with other writers: `writes k w` counts their writes to the key `k`. A write
-- with option `Atomic` and the old value that a read gave is refused only if the key was written
-- since before that read.
pub record IsSharedKv {W : Type 0} (kv : Kv W) (writes : Text → W → ℕ) : Type 0 where
  pub refused_late :
      (k : Text) (new old : Bytes) (w : W)
      → (kv.get k w).0 ≡ ok old
      → (kv.set_with_options k new old (kv.get k w).1).0 ≡ ok false
      → writes k w + 1 ≤ writes k (kv.set_with_options k new old (kv.get k w).1).1

-- What an error of Set is: an error of the API or of the codec, or the end of the rounds, of which
-- `Late` holds.
abbrev pub SetFailure : Text → Type 0 → TtlError → Type 0
SetFailure channel_id Late e =
    ((x : AppError) × (e ≡ kv_get channel_id x))
    ⊎ (((x : AppError) × (e ≡ kv_set channel_id x))
        ⊎ (((x : Text) × (e ≡ encode channel_id x)) ⊎ ((e ≡ too_many_retries) × Late)))

module _ {W : Type 0} (kv : Kv W) (json : Json) (writes : Text → W → ℕ) (S : IsSharedKv kv writes)
    (channel_id : Text) where
  abbrev key : Text
  key = kv_key channel_id

  -- Each round that is refused counts a write.
  set_loop_gives_up :
      (rounds : ℕ) (value : Bytes) (w : W)
      → (set_loop kv json rounds channel_id value w).0 ≡ err too_many_retries
      → writes key w + rounds ≤ writes key (set_loop kv json rounds channel_id value w).1
  unfolding set_loop
  set_loop_gives_up zero value w h = omega arith
  set_loop_gives_up (suc rounds) value w h =
      let w' = (kv.get key w).1 in
      elim (Result-cases (kv.get key w).0) [
        | inr (e, failed) ↦ ground arith
        | inl (old, read) ↦
            let w'' = (kv.set_with_options key value old w').1 in
            elim (Result-cases (kv.set_with_options key value old w').0) [
              | inr (e, failed) ↦ ground arith
              | inl (true, done) ↦ ground arith
              | inl (false, refused) ↦ ground (
                arith,
                S.refused_late key value old w read refused,
                set_loop_gives_up rounds value w'',
              )
            ]
      ]

  set_loop_fails :
      (rounds : ℕ) (value : Bytes) (w : W) (e : TtlError)
      → (set_loop kv json rounds channel_id value w).0 ≡ err e
      → SetFailure channel_id Unit e
  unfolding set_loop
  set_loop_fails zero value w e h = inr (inr (inr (ground arith, tt)))
  set_loop_fails (suc rounds) value w e h =
      let w' = (kv.get key w).1 in
      elim (Result-cases (kv.get key w).0) [
        | inr (x, failed) ↦ inl (x, ground arith)
        | inl (old, read) ↦
            let w'' = (kv.set_with_options key value old w').1 in
            elim (Result-cases (kv.set_with_options key value old w').0) [
              | inr (x, failed) ↦ inr (inl (x, ground arith))
              | inl (true, done) ↦ ground arith
              | inl (false, refused) ↦ set_loop_fails rounds value w'' e (ground arith)
            ]
      ]

  -- With other writers of which a write with an old value is refused only if they wrote to the key
  -- in between: an error of Set is one of the API or of the codec, or it is ErrTooManyRetries, and
  -- then the others have written to the channel's key at least 20 times while Set ran.
  pub set_err :
      (setting : TtlSetting) (w : W) (e : TtlError)
      → (set kv json channel_id setting w).0 ≡ err e
      → SetFailure channel_id
          (writes key w + 20 ≤ writes key (set kv json channel_id setting w).1)
          e
  unfolding set
  set_err setting w e h = elim (Result-cases (json.marshal setting)) [
    | inr (x, failed) ↦ inr (inr (inl (x, ground arith)))
    | inl (value, coded) ↦
        let looped : set kv json channel_id setting w ≡ set_loop kv json 20 channel_id value w =
          ground arith in
        elim (set_loop_fails 20 value w e (rw looped at h)) [
          | inl read ↦ inl read
          | inr (inl write) ↦ inr (inl write)
          | inr (inr (inl code)) ↦ inr (inr (inl code))
          | inr (inr (inr (late, _))) ↦
              inr (inr (inr (late, rw looped (set_loop_gives_up 20 value w (ground arith)))))
        ]
  ]
