-- ===== src/Float64.antt =====
-- Nonnegative `float64` values and their rounding to 53 bits, half to even. The program meets
-- values between 2 ^ -30 and 2 ^ 63, where no exponent is out of range.
pub mod Bounds
use mattermost_plugin_messag.Base.{ℕ, zero, suc, ◌+◌, ◌*◌, ◌/◌, ◌%◌, ◌^◌, ◌≡◌, refl, true, false}
use mattermost_plugin_messag.Base.{ltb, leb, ◌==◌, if◌then◌else◌}

-- `mantissa / 2 ^ shift`
pub record Float64 : Type 0 where
  pub mantissa : ℕ
  pub shift : ℕ

-- n / d to the nearest integer, a tie to the even one
unfoldable pub round_quot : ℕ → ℕ → ℕ
round_quot n d =
    let q = n / d in
    let r = n % d in if ltb (2 * r) d then q else if ltb d (2 * r) then q + 1 else q + q % 2

-- the least shift to the left that brings num / den to 53 bits
unfoldable pub shift_up : ℕ → ℕ → ℕ → ℕ
shift_up zero num den = 0
shift_up (suc fuel) num den = elim (leb (den * 2 ^ 52) num) [
  | true ↦ 0
  | false ↦ suc (shift_up fuel (2 * num) den)
]

-- the least shift to the right that does
unfoldable pub shift_down : ℕ → ℕ → ℕ → ℕ
shift_down zero num den = 0
shift_down (suc fuel) num den = elim (ltb num (den * 2 ^ 53)) [
  | true ↦ 0
  | false ↦ suc (shift_down fuel num (2 * den))
]

-- The float64 nearest to num / den. Fuel: below 2 ^ 64 the shift to the right is at most 11; from
-- 2 ^ -40 on the shift to the left is at most 92; 0 has mantissa 0 at any shift.
unfoldable pub nearest : ℕ → ℕ → Float64
nearest num den =
    let up = shift_up 128 num den in
    let down = shift_down 64 num den in
    record { mantissa = round_quot (num * 2 ^ up) (den * 2 ^ down) * 2 ^ down; shift = up }

-- int64(x), which drops the fraction
unfoldable pub truncate : Float64 → ℕ
truncate x = x.mantissa / 2 ^ x.shift

nearest_tenth : nearest 1 10 ≡ record { mantissa = 7205759403792794; shift = 56 }
unfolding nearest round_quot shift_up shift_down
nearest_tenth = refl
