-- ===== src/TtlStore/Concurrent/Calls.antt =====
-- A caller's calls, one after the other with what others do in between, are a run of kvStore.Set.
use mattermost_plugin_messag.Base.{
  ℕ, zero, suc, ◌≡◌, refl, ◌⊎◌, inl, inr, Bool, Text, text_eq, Bool-cases, Result, ok, err, [],
}
use mattermost_plugin_messag.Ttl.{TtlError, too_many_retries, kv_get, kv_set, AppError, TtlSetting}
use mattermost_plugin_messag.TtlStore.{Bytes, Kv, Json, set_loop, set}
use mattermost_plugin_messag.TtlStore.Concurrent.{
  Caller, reading, trying, wrote, gave_up, failed, How, after_refusal, write_if, answered, refused,
  unacknowledged, act,
}

-- The calls made so far, and the key's bytes.
abbrev pub Shared : Type 0
Shared = ℕ × Bytes

-- The rest of a call of Set, unless it has returned, for some calls to the API: before the call with
-- a number the others change the bytes.
module _ (how : ℕ → How) (others : ℕ → Bytes → Bytes) where
  unfoldable pub follow : ℕ → Caller → Shared → Caller × Shared
  follow zero c w = (c, w)
  follow (suc calls) (wrote value) w = (wrote value, w)
  follow (suc calls) (gave_up value) w = (gave_up value, w)
  follow (suc calls) (failed value effect) w = (failed value effect, w)
  follow (suc calls) (reading rounds value) (n, bytes) =
      let (c, (bytes', written)) = act (how n) (reading rounds value) (others n bytes) in
      follow calls c (suc n, bytes')
  follow (suc calls) (trying rounds value old) (n, bytes) =
      let (c, (bytes', written)) = act (how n) (trying rounds value old) (others n bytes) in
      follow calls c (suc n, bytes')

  module _ (e : AppError) where
    abbrev read : How → ℕ → Bytes → Result AppError Bytes × Shared
    read answered n bytes = (ok bytes, (suc n, bytes))
    read refused n bytes = (err e, (suc n, bytes))
    read unacknowledged n bytes = (err e, (suc n, bytes))

    abbrev write : How → Bytes → Bytes → ℕ → Bytes → Result AppError Bool × Shared
    write answered new old n bytes =
        (ok (text_eq bytes old), (suc n, (write_if (text_eq bytes old) new bytes).0))
    write refused new old n bytes = (err e, (suc n, bytes))
    write unacknowledged new old n bytes =
        (err e, (suc n, (write_if (text_eq bytes old) new bytes).0))

    -- The API by these calls. A deletion is not one of them.
    abbrev pub shared_kv : Kv Shared
    shared_kv = record {
      get = λ k (n, bytes). read (how n) n (others n bytes);
      set_with_options = λ k new old (n, bytes). write (how n) new old n (others n bytes);
      delete = λ k (n, bytes). (ok tt, (suc n, []));
    }

How-cases : (h : How) → (h ≡ answered) ⊎ ((h ≡ refused) ⊎ (h ≡ unacknowledged))
How-cases answered = inl refl
How-cases refused = inr (inl refl)
How-cases unacknowledged = inr (inr refl)

-- What Set returns where a caller ends.
abbrev pub Returns : Text → AppError → Caller → Result TtlError (Unit {0}) → Type 0
Returns channel_id e (reading rounds value) r = ⊥
Returns channel_id e (trying rounds value old) r = ⊥
Returns channel_id e (wrote value) r = r ≡ ok tt
Returns channel_id e (gave_up value) r = r ≡ err too_many_retries
Returns channel_id e (failed value effect) r =
    (r ≡ err (kv_get channel_id e)) ⊎ (r ≡ err (kv_set channel_id e))

-- The caller has ended, with the result and the state of a call of Set.
pub record Follows (channel_id : Text) (e : AppError) (followed : Caller × Shared)
    (called : Result TtlError (Unit {0}) × Shared) : Type 0 where
  pub returned : Returns channel_id e followed.0 called.0
  pub same_state : followed.1 ≡ called.1

module _ (how : ℕ → How) (others : ℕ → Bytes → Bytes) (e : AppError) (json : Json)
    (channel_id : Text) where
  abbrev Agrees : Caller × Shared → Result TtlError (Unit {0}) × Shared → Type 0
  Agrees (c, w) (r, w') = Returns channel_id e c r × (w ≡ w')

  abbrev twice : ℕ → ℕ
  twice zero = zero
  twice (suc n) = suc (suc (twice n))

  follow-wrote :
      (calls : ℕ) {value : Bytes} {w : Shared}
      → follow how others calls (wrote value) w ≡ (wrote value, w)
  unfolding follow
  follow-wrote zero = refl
  follow-wrote (suc calls) = refl

  follow-failed :
      (calls : ℕ) {value : Bytes} {effect : Bool} {w : Shared}
      → follow how others calls (failed value effect) w ≡ (failed value effect, w)
  unfolding follow
  follow-failed zero = refl
  follow-failed (suc calls) = refl

  set_loop-follow :
      (rounds : ℕ) (value : Bytes) (w : Shared)
      → Agrees
          (follow how others (twice rounds) (after_refusal rounds value) w)
          (set_loop (shared_kv how others e) json rounds channel_id value w)
  unfolding follow set_loop act
  set_loop-follow zero value w = (refl, refl)
  set_loop-follow (suc rounds) value (n, bytes) = elim (How-cases (how n)) [
    | inr (inl refusal) ↦ rw (refusal, follow) (inl refl, refl)
    | inr (inr unknown) ↦ rw (unknown, follow) (inl refl, refl)
    | inl answer ↦
        let old = others n bytes in
        elim (How-cases (how (suc n))) [
          | inr (inl refusal) ↦
              rw (answer, follow, refusal) (rw (follow-failed (twice rounds)) (inr refl, refl))
          | inr (inr unknown) ↦
              rw (answer, follow, unknown) (rw (follow-failed (twice rounds)) (inr refl, refl))
          | inl answer' ↦ elim (Bool-cases (text_eq (others (suc n) old) old)) [
            | inl same ↦
                rw (answer, follow, answer', same) (rw (follow-wrote (twice rounds)) (refl, refl))
            | inr changed ↦
                rw (answer, follow, answer', changed)
                  (set_loop-follow rounds value (suc (suc n), others (suc n) old))
          ]
        ]
  ]

  -- For a setting that the codec encodes, Set returns after at most 40 calls to the API, whatever becomes
  -- of each and whatever others do to the key before each: the caller that starts with 20 rounds has
  -- then ended, Set returns what the caller ended with, nil, ErrTooManyRetries or the error of the
  -- API, and leaves the key as the caller does.
  pub set-follow :
      (setting : TtlSetting) (value : Bytes) (w : Shared)
      → json.marshal setting ≡ ok value
      → Follows channel_id e
          (follow how others 40 (reading 19 value) w)
          (set (shared_kv how others e) json channel_id setting w)
  unfolding set
  set-follow setting value w encodes =
      let agree = set_loop-follow 20 value w in
      rw (encodes, set) (record { returned = agree.0; same_state = agree.1 })
