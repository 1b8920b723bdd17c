-- ===== src/TtlStore/Concurrent/Serial.antt =====
-- What concurrent calls of kvStore.Set leave in the key, and when one gives up.
use native.Mathlib.Omega.{arith}
use mattermost_plugin_messag.Base.{
  ℕ, zero, suc, ◌+◌, ◌≤◌, ◌<◌, ◌≡◌, refl, ap, ◌∙◌, inl, inr, Bool, true, false, List, [], ◌∷◌,
  length, length-append, length-keep-le, keep, any, All, All-imp, Bool-cases,
}
use mattermost_plugin_messag.ExpireStore.{count}
use mattermost_plugin_messag.TtlStore.{Bytes}
use mattermost_plugin_messag.TtlStore.Concurrent.{
  Caller, reading, trying, wrote, gave_up, failed, How, act_at, Cell, CellStep, CellReach, here,
  later, starting, start,
}
use mattermost_plugin_messag.TtlStore.Concurrent.Writes.{
  has_written, latest, Tally, step-Tally, act_at-Writes, latest-Writes,
}
use mattermost_plugin_messag.TtlStore.Concurrent.Rounds.{Tries, Tries-suc, act_at-Tries}

-- The key holds what was written last, the log counts the writes, and the callers their rounds.
pub record IsSerial (first : Bytes) (size : ℕ) (u : Cell) : Type 0 where
  pub holds_last : u.bytes ≡ latest first u.log
  pub tally : (q : Bytes → Bool) → Tally q u
  pub tries : All (Tries u.bytes (length u.log)) u.callers
  pub same_size : length u.callers ≡ size

length-act_at :
    (how : How) (i : ℕ) (callers : List Caller) (bytes : Bytes)
    → length (act_at how i callers bytes).0 ≡ length callers
unfolding act_at
length-act_at how i [] m = refl
length-act_at how zero (c ∷ callers) m = refl
length-act_at how (suc i) (c ∷ callers) m = ap suc (length-act_at how i callers m)

CellStep-IsSerial :
    (first : Bytes) (size : ℕ) (u v : Cell)
    → CellStep u v
    → IsSerial first size u
    → IsSerial first size v
CellStep-IsSerial first size u _ (CellStep.calls how i) s =
    let (callers, (bytes, written)) = act_at how i u.callers u.bytes in
    record {
      holds_last =
          latest-Writes first u.log u.bytes (act_at how i u.callers u.bytes).1
            (act_at-Writes how i u.callers u.bytes) s.holds_last;
      tally = λ q. step-Tally q u _ (CellStep.calls how i) (s.tally q);
      tries =
          rw (length-append (act_at how i u.callers u.bytes).1.1 u.log)
            (act_at-Tries how i u.callers u.bytes (length u.log) s.tries);
      same_size = length-act_at how i u.callers u.bytes ∙ s.same_size;
    }
CellStep-IsSerial first size u _ CellStep.clears s = record {
  holds_last = refl;
  tally = λ q. step-Tally q u _ CellStep.clears (s.tally q);
  tries = All-imp _ _ u.callers (λ c t. Tries-suc c u.bytes [] (length u.log) t) s.tries;
  same_size = s.same_size;
}

start-Tries : (first : Bytes) (values : List Bytes) → All (Tries first 0) (starting first values)
start-Tries first [] = tt
start-Tries first (v ∷ values) = (omega arith, start-Tries first values)

start-tally :
    (q : Bytes → Bool) (first : Bytes) (values : List Bytes)
    → count (has_written q) (starting first values) ≡ 0
unfolding keep
start-tally q first [] = refl
start-tally q first (v ∷ values) = start-tally q first values

length-starting :
    (first : Bytes) (values : List Bytes) → length (starting first values) ≡ length values
length-starting first [] = refl
length-starting first (v ∷ values) = ap suc (length-starting first values)

start-IsSerial :
    (first : Bytes) (values : List Bytes) → IsSerial first (length values) (start first values)
unfolding keep
start-IsSerial first values = record {
  holds_last = refl;
  tally = λ q. ground (arith, start-tally q first values);
  tries = start-Tries first values;
  same_size = length-starting first values;
}

-- However the calls of several Sets on a channel interleave with each other and with deletions of the
-- key, whatever becomes of each call: the key holds the bytes that were written last, or those of the
-- start if nothing was; and of any kind of bytes there were as many writes as there are Sets that
-- returned nil, or an error of an unacknowledged write, with such bytes, and deletions if the empty
-- bytes are of that kind; and there were at least as many writes as any Set has had refused rounds.
pub concurrent_sets :
    (first : Bytes) (values : List Bytes) (u : Cell)
    → CellReach (start first values) u
    → IsSerial first (length values) u
concurrent_sets first values _ here = start-IsSerial first values
concurrent_sets first values u (later {v} r step) =
    CellStep-IsSerial first (length values) v u step (concurrent_sets first values v r)

abbrev pub has_given_up : Caller → Bool
has_given_up (reading rounds value) = false
has_given_up (trying rounds value old) = false
has_given_up (wrote value) = false
has_given_up (gave_up value) = true
has_given_up (failed value effect) = false

-- A caller that gave up has seen 20 writes, and made none.
gave_up_late :
    (c : Caller) (bytes : Bytes) (n : ℕ)
    → Tries bytes n c
    → has_given_up c ≡ true
    → (20 ≤ n) × (has_written (λ _. true) c ≡ false)
gave_up_late (reading r v) m n t given = cc
gave_up_late (trying r v old) m n t given = cc
gave_up_late (wrote v) m n t given = cc
gave_up_late (gave_up v) m n t given = (t, refl)
gave_up_late (failed v e) m n t given = cc

some_gave_up :
    (callers : List Caller) (bytes : Bytes) (n : ℕ)
    → All (Tries bytes n) callers
    → any has_given_up callers ≡ true
    → (20 ≤ n) × (count (has_written (λ _. true)) callers + 1 ≤ length callers)
unfolding any keep
some_gave_up [] m n h given = cc
some_gave_up (c ∷ callers) m n h given = elim (Bool-cases (has_given_up c)) [
  | inl self ↦
      let (late, unwritten) = gave_up_late c m n h.0 self in
      (late, ground (arith, length-keep-le (has_written (λ _. true)) callers))
  | inr not_self ↦
      let rest : any has_given_up callers ≡ true = ground arith in
      let (late, few) = some_gave_up callers m n h.1 rest in (late, ground arith)
]

count_all : (log : List Bytes) → count (λ _. true) log ≡ length log
unfolding keep
count_all [] = refl
count_all (x ∷ log) = ap suc (count_all log)

-- However the calls of several Sets on a channel interleave with each other and with deletions of the
-- key: if one of them returns ErrTooManyRetries, there are more than 20 Sets and deletions together. So
-- of up to 20 Sets at one time, with no deletion, none gives up.
pub few_never_give_up :
    (first : Bytes) (values : List Bytes) (u : Cell)
    → CellReach (start first values) u
    → any has_given_up u.callers ≡ true
    → 20 < length values + u.clears
few_never_give_up first values u r given =
    let s = concurrent_sets first values u r in
    let (late, few) = some_gave_up u.callers u.bytes (length u.log) s.tries given in
    omega (arith, late, few, s.tally (λ _. true), count_all u.log, s.same_size)
