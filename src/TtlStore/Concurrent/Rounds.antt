-- ===== src/TtlStore/Concurrent/Rounds.antt =====
-- The rounds of a call of kvStore.Set, against the writes that were made meanwhile.
use native.Mathlib.Omega.{arith}
use mattermost_plugin_messag.Base.{
  ℕ, zero, suc, ◌+◌, ◌≤◌, ◌≡◌, ◌⊎◌, inl, inr, true, List, [], ◌∷◌, length, All, All-imp, text_eq,
  text_eq_refl, Bool-cases,
}
use mattermost_plugin_messag.TtlStore.{Bytes}
use mattermost_plugin_messag.TtlStore.Concurrent.{
  Caller, reading, trying, wrote, gave_up, failed, How, after_refusal, Effect, answered, refused,
  unacknowledged, act, act_at,
}
use mattermost_plugin_messag.TtlStore.Concurrent.Writes.{Writes, act-Writes, act_at-Writes}

-- Each round that was refused has seen a write: `n` of them were made.
abbrev pub Tries : Bytes → ℕ → Caller → Type 0
Tries bytes n (reading rounds value) = 20 ≤ suc rounds + n
Tries bytes n (trying rounds value old) =
    (20 ≤ suc rounds + n) × ((text_eq bytes old ≡ true) ⊎ (20 ≤ rounds + n))
Tries bytes n (wrote value) = Unit
Tries bytes n (gave_up value) = 20 ≤ n
Tries bytes n (failed value effect) = Unit

-- A write by someone else.
pub Tries-suc :
    (c : Caller) (bytes bytes' : Bytes) (n : ℕ) → Tries bytes n c → Tries bytes' (suc n) c
Tries-suc (reading r v) m m' n h = omega (arith, h)
Tries-suc (trying r v old) m m' n h = (omega (arith, h.0), inr (omega (arith, h.0)))
Tries-suc (wrote v) m m' n h = tt
Tries-suc (gave_up v) m m' n h = omega (arith, h)
Tries-suc (failed v e) m m' n h = tt

after_refusal-Tries :
    (rounds : ℕ) (value bytes : Bytes) (n : ℕ)
    → 20 ≤ rounds + n
    → Tries bytes n (after_refusal rounds value)
after_refusal-Tries zero v m n h = omega arith
after_refusal-Tries (suc r) v m n h = omega arith

act-Tries :
    (how : How) (c : Caller) (bytes : Bytes) (n : ℕ)
    → Tries bytes n c
    → Tries (act how c bytes).1.0 (length (act how c bytes).1.1 + n) (act how c bytes).0
unfolding act
act-Tries answered (reading r v) m n h = (omega (arith, h), inl (text_eq_refl m))
act-Tries answered (trying r v old) m n h = elim (Bool-cases (text_eq m old)) [
  | inl same ↦ rw (same, act) tt
  | inr changed ↦
      let enough : 20 ≤ r + n = elim h.1 [ inl same ↦ cc | inr e ↦ e ] in
      rw (changed, act)
        (after_refusal-Tries r v m (length {A = Bytes} [] + n) (omega (arith, enough)))
]
act-Tries answered (wrote v) m n h = h
act-Tries answered (gave_up v) m n h = omega (arith, h)
act-Tries answered (failed v e) m n h = h
act-Tries refused (reading r v) m n h = tt
act-Tries refused (trying r v old) m n h = tt
act-Tries refused (wrote v) m n h = h
act-Tries refused (gave_up v) m n h = omega (arith, h)
act-Tries refused (failed v e) m n h = h
act-Tries unacknowledged (reading r v) m n h = tt
act-Tries unacknowledged (trying r v old) m n h = tt
act-Tries unacknowledged (wrote v) m n h = h
act-Tries unacknowledged (gave_up v) m n h = omega (arith, h)
act-Tries unacknowledged (failed v e) m n h = h

-- A call that another caller makes.
other-Tries :
    (c : Caller) (bytes : Bytes) (n : ℕ) (e : Effect)
    → Writes bytes e
    → Tries bytes n c
    → Tries e.0 (length e.1 + n) c
other-Tries c m n e (inl nothing) h =
    let zero_more : 0 + n ≡ n = omega arith in rw (nothing, zero_more) h
other-Tries c m n e (inr (value, written)) h =
    let one_more : 1 + n ≡ suc n = omega arith in rw (written, one_more) (Tries-suc c m value n h)

others-Tries :
    (callers : List Caller) (bytes : Bytes) (n : ℕ) (e : Effect)
    → Writes bytes e
    → All (Tries bytes n) callers
    → All (Tries e.0 (length e.1 + n)) callers
others-Tries callers m n e writes h =
    All-imp (Tries m n) (Tries e.0 (length e.1 + n)) callers (λ c t. other-Tries c m n e writes t) h

pub act_at-Tries :
    (how : How) (i : ℕ) (callers : List Caller) (bytes : Bytes) (n : ℕ)
    → All (Tries bytes n) callers
    → let (callers', e) = act_at how i callers bytes in All (Tries e.0 (length e.1 + n)) callers'
unfolding act_at
act_at-Tries how i [] m n h = tt
act_at-Tries how zero (c ∷ callers) m n h =
    (act-Tries how c m n h.0, others-Tries callers m n (act how c m).1 (act-Writes how c m) h.1)
act_at-Tries how (suc i) (c ∷ callers) m n h =
    let e = (act_at how i callers m).1 in
    (other-Tries c m n e (act_at-Writes how i callers m) h.0, act_at-Tries how i callers m n h.1)
