-- ===== src/TtlStore/Concurrent.antt =====
-- Many calls of kvStore.Set on one channel at one time, each in the calls that it makes: a read of the
-- key, then a write on the condition that the key is as it was read.
pub mod Calls
pub mod Writes
pub mod Rounds
pub mod Serial
use mattermost_plugin_messag.Base.{
  ℕ, zero, suc, Bool, true, false, List, [], ◌∷◌, ◌++◌, Text, text_eq, if◌then◌else◌,
}
use mattermost_plugin_messag.TtlStore.{Bytes}

-- A call of Set with the bytes that it writes. Before a read with the rounds that are left after
-- the next, or before a write with the bytes that it read; or it has returned nil, ErrTooManyRetries
-- or an error of the API, where the Boolean says if its write took effect nevertheless.
pub data Caller : Type 0 where
  reading : ℕ → Bytes → Caller
  trying : ℕ → Bytes → Bytes → Caller
  wrote gave_up : Bytes → Caller
  failed : Bytes → Bool → Caller

-- after a write that was refused
abbrev pub after_refusal : ℕ → Bytes → Caller
after_refusal zero value = gave_up value
after_refusal (suc rounds) value = reading rounds value

-- What becomes of the next call to the API: an answer, an error with no effect, or an error
-- after it took effect.
pub data How : Type 0 where
  answered refused unacknowledged : How

-- The key after a call, and what was written.
abbrev pub Effect : Type 0
Effect = Bytes × List Bytes

abbrev pub write_if : Bool → Bytes → Bytes → Effect
write_if true value bytes = (value, value ∷ [])
write_if false value bytes = (bytes, [])

abbrev pub after_write : Bool → ℕ → Bytes → Caller
after_write true rounds value = wrote value
after_write false rounds value = after_refusal rounds value

-- The next call of a caller, on the key's bytes.
unfoldable pub act : How → Caller → Bytes → Caller × Effect
act answered (reading rounds value) bytes = (trying rounds value bytes, (bytes, []))
act answered (trying rounds value old) bytes =
    (after_write (text_eq bytes old) rounds value, write_if (text_eq bytes old) value bytes)
act refused (reading rounds value) bytes = (failed value false, (bytes, []))
act refused (trying rounds value old) bytes = (failed value false, (bytes, []))
act unacknowledged (reading rounds value) bytes = (failed value false, (bytes, []))
act unacknowledged (trying rounds value old) bytes =
    (failed value (text_eq bytes old), write_if (text_eq bytes old) value bytes)
act how (wrote value) bytes = (wrote value, (bytes, []))
act how (gave_up value) bytes = (gave_up value, (bytes, []))
act how (failed value effect) bytes = (failed value effect, (bytes, []))

-- the next call of the caller at a place of the list
unfoldable pub act_at : How → ℕ → List Caller → Bytes → List Caller × Effect
act_at how i [] bytes = ([], (bytes, []))
act_at how zero (c ∷ callers) bytes = let (c', e) = act how c bytes in (c' ∷ callers, e)
act_at how (suc i) (c ∷ callers) bytes =
    let (callers', e) = act_at how i callers bytes in (c ∷ callers', e)

-- The bytes of the key, what was written to it, the last first, how often Clear deleted it, and the
-- callers.
pub record Cell : Type 0 where
  pub bytes : Bytes
  pub log : List Bytes
  pub clears : ℕ
  pub callers : List Caller

-- the state after a call
abbrev pub after_act : Cell → List Caller × Effect → Cell
after_act u (callers, (bytes, written)) = record u {
  bytes = bytes;
  log = written ++ u.log;
  callers = callers;
}

pub data CellStep (u : Cell) : Cell → Type 0 where
  calls : (how : How) (i : ℕ) → CellStep u (after_act u (act_at how i u.callers u.bytes))
  clears : CellStep u (record u { bytes = []; log = [] ∷ u.log; clears = suc u.clears })

pub data CellReach (u : Cell) : Cell → Type 0 where
  here : CellReach u u
  later : {v w : Cell} → CellReach u v → CellStep v w → CellReach u w

-- Before the first calls of some callers, on a key with some bytes.
abbrev pub starting : Bytes → List Bytes → List Caller
starting bytes [] = []
starting bytes (value ∷ values) = reading 19 value ∷ starting bytes values

abbrev pub start : Bytes → List Bytes → Cell
start bytes values = record { bytes = bytes; log = []; clears = 0; callers = starting bytes values }
