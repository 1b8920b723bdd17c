-- ===== src/Duration/Laws.antt =====
-- The conversions of durations to seconds and back.
use native.Mathlib.Nat.{mul-le-mul_right}
use native.Mathlib.Decide.{dec_lt}
use mattermost_plugin_messag.Base.{ℕ, ◌+◌, ◌*◌, ◌/◌, ◌%◌, ◌^◌, ◌≤◌, ◌<◌, ◌≡◌, arith}
use mattermost_plugin_messag.Int64.{pos}
use mattermost_plugin_messag.Int64.Laws.{mul64_pos}
use mattermost_plugin_messag.Float64.{nearest, truncate}
use mattermost_plugin_messag.Float64.Bounds.{truncate-nearest_bounds, mantissa-nearest-le, pow-pos}
use mattermost_plugin_messag.Duration.{second, seconds_ℕ, of_seconds}

-- `s` seconds and a fraction m / p, which is 0 or at most 1 for b = 0 or b = 1
sum_bounds :
    (s m p b : ℕ)
    → 0 < p
    → s + 1 < 2 ^ 53
    → b ≤ 1
    → m ≤ b * p
    → (s ≤ truncate (nearest (s * p + m) p)) × (truncate (nearest (s * p + m) p) ≤ s + b)
sum_bounds s m p b hp hs hb hm =
    truncate-nearest_bounds (s * p + m) p s (s + b) hp
      (omega (arith, mul-le-mul_right p hs, mul-le-mul_right p hb)) (omega arith) (omega arith)

seconds_ℕ_near :
    (n b : ℕ)
    → n < 2 ^ 63
    → b ≤ 1
    → n % second ≤ b * second
    → (n / second ≤ seconds_ℕ n) × (seconds_ℕ n ≤ n / second + b)
unfolding seconds_ℕ
seconds_ℕ_near n b h hb frac =
    let x = nearest (n % second) second in
    sum_bounds (n / second) x.mantissa (2 ^ x.shift) b (pow-pos x.shift) (omega arith) hb
      (mantissa-nearest-le (n % second) second b (omega arith) (omega arith) frac)

-- The seconds are off by less than one.
pub seconds_ℕ_bounds :
    (n : ℕ) → n < 2 ^ 63 → (n < seconds_ℕ n * second + second) × (seconds_ℕ n * second < n + second)
seconds_ℕ_bounds n h = elim (dec_lt 0 (n % second)) [
  | yes some_left ↦
      let near = seconds_ℕ_near n 1 h (omega arith) (omega arith) in (omega arith, omega arith)
  | no whole ↦
      let near = seconds_ℕ_near n 0 h (omega arith) (omega arith) in (omega arith, omega arith)
]

-- A whole number of seconds is read back exactly.
pub seconds_ℕ-mul : (s : ℕ) → s * second < 2 ^ 63 → seconds_ℕ (s * second) ≡ s
seconds_ℕ-mul s h = omega (arith, seconds_ℕ_near (s * second) 0 h (omega arith) (omega arith))

pub of_seconds_pos : (s : ℕ) → s * second < 2 ^ 63 → of_seconds (pos s) ≡ pos (s * second)
unfolding of_seconds
of_seconds_pos s h = mul64_pos s second h
