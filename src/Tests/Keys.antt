-- ===== src/Tests/Keys.antt =====
-- The key-value store over a memory and a codec: its contract at concrete data.
use native.Mathlib.Omega.{arith}
use mattermost_plugin_messag.Base.{
  ℕ, zero, suc, ◌≡◌, refl, true, false, [], ◌∷◌, Text, text_eq, text_eq_refl, Result, ok, err,
  if◌then◌else◌,
}
use mattermost_plugin_messag.Int64.{ℤ, pos, negsuc}
use mattermost_plugin_messag.Ttl.{TtlSetting}
use mattermost_plugin_messag.TtlStore.{Bytes, Kv, Json, new_kv_store}
use mattermost_plugin_messag.TtlStore.Contract.{IsLawfulKv, IsLawfulJson, IsLawfulStore}
use mattermost_plugin_messag.TtlStore.Refines.{setting, kv_store-IsLawful}

-- Bytes by key, with an atomic write that compares the old value.
abbrev pub Memory : Type 0
Memory = Text → Bytes

abbrev pub write : Text → Bytes → Memory → Memory
write k b m j = if text_eq k j then b else m j

abbrev pub memory : Kv Memory
memory = record {
  get = λ k m. (ok (m k), m);
  set_with_options =
      λ k new old m. if text_eq (m k) old then (ok true, write k new m) else (ok false, m);
  delete = λ k m. (ok tt, write k [] m);
}

memory-IsLawful : IsLawfulKv memory (λ m k. m k)
memory-IsLawful = record {
  get_reads = λ k m e. ground arith;
  get_keeps = λ k j m e. refl;
  set_writes = λ k j new old m e. ground arith;
  set_accepts = λ k new m e. ground (arith, text_eq_refl (m k));
  delete_removes = λ k j m e. refl;
}

-- An integer as two numbers, and a setting as the numbers of its parts.
abbrev pub codes_of : ℤ → Bytes → Bytes
codes_of (pos n) rest = 0 ∷ n ∷ rest
codes_of (negsuc n) rest = 1 ∷ n ∷ rest

abbrev pub integer : ℕ → ℕ → ℤ
integer zero n = pos n
integer (suc k) n = negsuc n

abbrev pub decoded : Bytes → Result Text TtlSetting
decoded (a ∷ b ∷ c ∷ d ∷ by) =
    ok (record { duration_seconds = integer a b; set_by = by; set_at = integer c d })
decoded _ = err []

abbrev pub codec : Json
codec = record {
  marshal = λ t. ok (codes_of t.duration_seconds (codes_of t.set_at t.set_by));
  unmarshal = decoded;
}

decoded-codes_of :
    (x y : ℤ) (by : Text)
    → decoded (codes_of x (codes_of y by))
      ≡ ok (record { duration_seconds = x; set_by = by; set_at = y })
decoded-codes_of (pos m) (pos n) by = refl
decoded-codes_of (pos m) (negsuc n) by = refl
decoded-codes_of (negsuc m) (pos n) by = refl
decoded-codes_of (negsuc m) (negsuc n) by = refl

pub codec-IsLawful : IsLawfulJson codec
codec-IsLawful = record {
  round_trip = λ t e. ground (arith, decoded-codes_of t.duration_seconds t.set_at t.set_by);
  some_bytes = λ t e. ground arith;
}

kv_store-IsLawful_example : IsLawfulStore (new_kv_store memory codec) (setting codec (λ m k. m k))
kv_store-IsLawful_example =
    kv_store-IsLawful codec (λ m k. m k) memory memory-IsLawful codec-IsLawful
