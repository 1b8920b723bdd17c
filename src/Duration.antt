-- ===== src/Duration.antt =====
-- What the program uses of Go's `time.Duration`: an `int64` count of nanoseconds.
pub mod Laws
use mattermost_plugin_messag.Base.{ℕ, ◌+◌, ◌*◌, ◌/◌, ◌%◌, ◌^◌, ◌≡◌, refl}
use mattermost_plugin_messag.Int64.{ℤ, pos, negsuc, minus, mul64, quot64}
use mattermost_plugin_messag.Float64.{Float64, nearest, truncate, round_quot, shift_up, shift_down}

abbrev pub Duration : Type 0
Duration = ℤ

-- time.Second
abbrev pub second : ℕ
second = 1000000000

-- d.Milliseconds()
unfoldable pub milliseconds : Duration → ℤ
unfolding quot64
milliseconds d = quot64 d 1000000

-- int64(d.Seconds()) for a nonnegative d: `float64(sec) + float64(nsec)/1e9`, rounded twice, and
-- truncated. A whole number of seconds below 2 ^ 53 is a float64.
unfoldable pub seconds_ℕ : ℕ → ℕ
seconds_ℕ n =
    let fraction = nearest (n % second) second in
    let unit = 2 ^ fraction.shift in truncate (nearest (n / second * unit + fraction.mantissa) unit)

-- int64(d.Seconds()): float64 rounds alike on both sides of 0.
unfoldable pub seconds : Duration → ℤ
seconds (pos n) = pos (seconds_ℕ n)
seconds (negsuc n) = minus (seconds_ℕ (n + 1))

-- time.Duration(s) * time.Second
unfoldable pub of_seconds : ℤ → Duration
of_seconds s = mul64 s (pos second)

-- The sum of the seconds and of the fraction is rounded up to the next second here.
seconds_round_up : seconds (pos 16777216999999999) ≡ pos 16777217
unfolding seconds seconds_ℕ nearest truncate round_quot shift_up shift_down
seconds_round_up = refl

seconds_truncated : seconds (pos 90999999999) ≡ pos 90
unfolding seconds seconds_ℕ nearest truncate round_quot shift_up shift_down
seconds_truncated = refl
