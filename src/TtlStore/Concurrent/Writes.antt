-- ===== src/TtlStore/Concurrent/Writes.antt =====
-- What a call of kvStore.Set writes, among others on the same channel, and how often.
use native.Mathlib.Omega.{arith}
use mattermost_plugin_messag.Base.{
  ℕ, zero, suc, ◌+◌, ◌≡◌, refl, ◌⊎◌, inl, inr, Bool, true, false, ◌&&◌, List, [], ◌∷◌, ◌++◌, keep,
  text_eq, if◌then◌else◌,
}
use mattermost_plugin_messag.ExpireStore.{count}
use mattermost_plugin_messag.TtlStore.{Bytes}
use mattermost_plugin_messag.TtlStore.Concurrent.{
  Caller, reading, trying, wrote, gave_up, failed, How, Effect, write_if, answered, refused,
  unacknowledged, act, act_at, Cell, CellStep,
}

-- A write of a caller took effect, and its bytes pass the test.
abbrev pub has_written : (Bytes → Bool) → Caller → Bool
has_written q (reading rounds value) = false
has_written q (trying rounds value old) = false
has_written q (wrote value) = q value
has_written q (gave_up value) = false
has_written q (failed value effect) = effect && q value

-- the key's bytes by its log
abbrev pub latest : Bytes → List Bytes → Bytes
latest first [] = first
latest first (bytes ∷ log) = bytes

module _ (q : Bytes → Bool) where
  abbrev one : Caller → ℕ
  one c = if has_written q c then 1 else 0

  -- A call writes what it says.
  one-act :
      (how : How) (c : Caller) (bytes : Bytes)
      → one (act how c bytes).0 ≡ one c + count q (act how c bytes).1.1
  unfolding act keep
  one-act answered (reading r v) m = ground arith
  one-act answered (trying zero v old) m = ground arith
  one-act answered (trying (suc r) v old) m = ground arith
  one-act answered (wrote v) m = ground arith
  one-act answered (gave_up v) m = ground arith
  one-act answered (failed v e) m = ground arith
  one-act refused (reading r v) m = ground arith
  one-act refused (trying r v old) m = ground arith
  one-act refused (wrote v) m = ground arith
  one-act refused (gave_up v) m = ground arith
  one-act refused (failed v e) m = ground arith
  one-act unacknowledged (reading r v) m = ground arith
  one-act unacknowledged (trying r v old) m = ground arith
  one-act unacknowledged (wrote v) m = ground arith
  one-act unacknowledged (gave_up v) m = ground arith
  one-act unacknowledged (failed v e) m = ground arith

  count-act_at :
      (how : How) (i : ℕ) (callers : List Caller) (bytes : Bytes)
      → count (has_written q) (act_at how i callers bytes).0
        ≡ count (has_written q) callers + count q (act_at how i callers bytes).1.1
  unfolding act_at keep
  count-act_at how i [] m = omega arith
  count-act_at how zero (c ∷ callers) m = ground (arith, one-act how c m)
  count-act_at how (suc i) (c ∷ callers) m = ground (arith, count-act_at how i callers m)

  count-append : (xs ys : List Bytes) → count q (xs ++ ys) ≡ count q xs + count q ys
  unfolding keep
  count-append [] ys = omega arith
  count-append (x ∷ xs) ys = ground (arith, count-append xs ys)

  abbrev pub Tally : Cell → Type 0
  Tally u = count q u.log ≡ count (has_written q) u.callers + (if q [] then u.clears else 0)

  pub step-Tally : (u v : Cell) → CellStep u v → Tally u → Tally v
  unfolding keep
  step-Tally u _ (CellStep.calls how i) t =
      let (callers, (bytes, written)) = act_at how i u.callers u.bytes in
      omega (
        arith,
        count-append (act_at how i u.callers u.bytes).1.1 u.log,
        count-act_at how i u.callers u.bytes,
        t,
      )
  step-Tally u _ CellStep.clears t = ground arith

-- A call writes nothing, or some bytes.
abbrev pub Writes : Bytes → Effect → Type 0
Writes bytes e = (e ≡ (bytes, [])) ⊎ ((value : Bytes) × (e ≡ (value, value ∷ [])))

write_if-Writes : (b : Bool) (value bytes : Bytes) → Writes bytes (write_if b value bytes)
write_if-Writes true value bytes = inr (value, refl)
write_if-Writes false value bytes = inl refl

pub act-Writes : (how : How) (c : Caller) (bytes : Bytes) → Writes bytes (act how c bytes).1
unfolding act
act-Writes answered (reading r v) m = inl refl
act-Writes answered (trying r v old) m = write_if-Writes (text_eq m old) v m
act-Writes answered (wrote v) m = inl refl
act-Writes answered (gave_up v) m = inl refl
act-Writes answered (failed v e) m = inl refl
act-Writes refused (reading r v) m = inl refl
act-Writes refused (trying r v old) m = inl refl
act-Writes refused (wrote v) m = inl refl
act-Writes refused (gave_up v) m = inl refl
act-Writes refused (failed v e) m = inl refl
act-Writes unacknowledged (reading r v) m = inl refl
act-Writes unacknowledged (trying r v old) m = write_if-Writes (text_eq m old) v m
act-Writes unacknowledged (wrote v) m = inl refl
act-Writes unacknowledged (gave_up v) m = inl refl
act-Writes unacknowledged (failed v e) m = inl refl

pub act_at-Writes :
    (how : How) (i : ℕ) (callers : List Caller) (bytes : Bytes)
    → Writes bytes (act_at how i callers bytes).1
unfolding act_at
act_at-Writes how i [] m = inl refl
act_at-Writes how zero (c ∷ callers) m = act-Writes how c m
act_at-Writes how (suc i) (c ∷ callers) m = act_at-Writes how i callers m

pub latest-Writes :
    (first : Bytes) (log : List Bytes) (bytes : Bytes) (e : Effect)
    → Writes bytes e
    → bytes ≡ latest first log
    → e.0 ≡ latest first (e.1 ++ log)
latest-Writes first log m e (inl nothing) h = rw nothing h
latest-Writes first log m e (inr (value, written)) h = rw written refl
