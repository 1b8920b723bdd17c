-- ===== src/Float64/Bounds.antt =====
-- Rounding keeps a value between the integers that it lies between.
use native.Mathlib.Nat.{
  le-div_iff_mul-le, div-le_of_le-mul, div-add-mod', mul_comm, one-le-pow, mul-one,
  mul-le-mul_right,
}
use native.Mathlib.Decide.{dec_lt}
use mattermost_plugin_messag.Base.{ℕ, suc, ◌*◌, ◌/◌, ◌+◌, ◌%◌, ◌^◌, ◌≤◌, ◌<◌, ◌≡◌, arith}
use mattermost_plugin_messag.Float64.{round_quot, shift_down, shift_up, nearest, truncate}

le-round_quot : (n d k : ℕ) → 0 < d → k * d ≤ n → k ≤ round_quot n d
unfolding round_quot
le-round_quot n d k h p = ground (arith, (le-div_iff_mul-le {k = d} {x = k} {y = n} h).1 p)

no_remainder : (n d k : ℕ) → n ≤ k * d → n / d ≡ k → n % d ≡ 0
no_remainder n d k p e = let whole : k * d + n % d ≡ n = (rw e at (div-add-mod' n d)) in omega arith

round_quot-le : (n d k : ℕ) → 0 < d → n ≤ k * d → round_quot n d ≤ k
unfolding round_quot
round_quot-le n d k h p =
    let below : n / d ≤ k = div-le_of_le-mul d (rw (mul_comm d k) p) in
    elim (dec_lt (n / d) k) [
      | yes lt ↦ ground arith
      | no ge ↦ let rest : n % d ≡ 0 = no_remainder n d k p (omega arith) in ground arith
    ]

pub pow-pos : (s : ℕ) → 0 < 2 ^ s
pow-pos s = one-le-pow s 2 (omega arith)

shift_down-eq-zero : (fuel num den : ℕ) → num < den * 2 ^ 53 → shift_down (suc fuel) num den ≡ 0
unfolding shift_down
shift_down-eq-zero fuel num den h = ground arith

-- The same for any power of two `p` in place of `2 ^ shift`.
scaled_bounds :
    (num den a b p : ℕ)
    → 0 < den
    → 0 < p
    → a * den ≤ num
    → num ≤ b * den
    → (a ≤ round_quot (num * p) den / p) × (round_quot (num * p) den / p ≤ b)
scaled_bounds num den a b p h hp lo hi = (
  (le-div_iff_mul-le hp).1
      (le-round_quot (num * p) den (a * p) h (omega (arith, mul-le-mul_right p lo))),
  div-le_of_le-mul p (
      rw (mul_comm p b)
        (round_quot-le (num * p) den (b * p) h (omega (arith, mul-le-mul_right p hi)))),
)

-- The rounded value of num / den, read back as an integer, lies between the same integers.
pub truncate-nearest_bounds :
    (num den a b : ℕ)
    → 0 < den
    → num < den * 2 ^ 53
    → a * den ≤ num
    → num ≤ b * den
    → (a ≤ truncate (nearest num den)) × (truncate (nearest num den) ≤ b)
unfolding nearest truncate
truncate-nearest_bounds num den a b h small lo hi =
    rw (shift_down-eq-zero 63 num den small, mul-one, mul-one)
      (scaled_bounds num den a b (2 ^ shift_up 128 num den) h (pow-pos _) lo hi)

pub mantissa-nearest-le :
    (num den b : ℕ)
    → 0 < den
    → num < den * 2 ^ 53
    → num ≤ b * den
    → (nearest num den).mantissa ≤ b * 2 ^ (nearest num den).shift
unfolding nearest
mantissa-nearest-le num den b h small hi =
    let up = 2 ^ shift_up 128 num den in
    rw (shift_down-eq-zero 63 num den small, mul-one, mul-one)
      (round_quot-le (num * up) den (b * up) h (omega (arith, mul-le-mul_right up hi)))
