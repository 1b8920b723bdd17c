-- ===== src/Ttl/Bounds.antt =====
-- The durations that ValidateTTL accepts.
use mattermost_plugin_messag.Base.{ℕ, ◌*◌, ◌≤◌, ◌≡◌, ◌↔◌, arith}
use mattermost_plugin_messag.Base.{ok, err}
use mattermost_plugin_messag.Int64.{pos, negsuc, ◌≤ℤ◌}
use mattermost_plugin_messag.Duration.{Duration, second}
use mattermost_plugin_messag.Ttl.{min_ttl, max_ttl, validate_ttl, invalid_ttl}

-- from one minute to one year
abbrev pub InRange : Duration → Type 0
InRange d = (min_ttl ≤ℤ d) × (d ≤ℤ max_ttl)

-- ValidateTTL accepts exactly the durations between MinTTL and MaxTTL, both included.
pub validate_ttl_iff : (d : Duration) → (validate_ttl d ≡ ok tt) ↔ InRange d
unfolding validate_ttl
validate_ttl_iff d = ground arith

pub validate_ttl_err : (d : Duration) → ¬ InRange d → validate_ttl d ≡ err invalid_ttl
unfolding validate_ttl
validate_ttl_err d h = ground arith

-- An accepted duration as a number of nanoseconds.
pub InRange-pos :
    (d : Duration) → InRange d → (n : ℕ) × (d ≡ pos n) × (60 * second ≤ n) × (n ≤ 31536000 * second)
InRange-pos (pos n) h = (n, ground arith, ground arith, ground arith)
InRange-pos (negsuc n) h = ground arith
