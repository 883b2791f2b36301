-- ===== src/Supervisor/Backoff.antt =====
-- The supervisor's delays: retry backoff, database backoff, rate limit (download_supervisor.rs).
use hofvarpnir.Base.{
  ℕ, ◌*◌, ◌-◌, ◌%◌, ◌^◌, min, Option, none, some, ℤ, ltb, if◌then◌else◌, get_or, unsigned_try_from,
  u32_max, u64_max,
}
use hofvarpnir.Clock.{from_secs, as_secs}

abbrev backoff_base_secs : ℕ
backoff_base_secs = 120

abbrev backoff_max_secs : ℕ
backoff_max_secs = 3840

abbrev pub max_rate_limit_multiplier : ℕ
max_rate_limit_multiplier = 60

abbrev db_backoff_max_secs : ℕ
db_backoff_max_secs = 600

-- `1_u64.checked_shl(shift)`: the bits that leave the word are lost.
unfoldable pub checked_shl_one : ℕ → Option ℕ
checked_shl_one shift = if ltb shift 64 then some (2 ^ shift % 2 ^ 64) else none

unfoldable pub db_backoff : ℕ → ℕ
unfolding checked_shl_one
db_backoff consecutive_failures =
    let shift = min (consecutive_failures - 1) 63 in
    let secs = get_or (checked_shl_one shift) u64_max in from_secs (min secs db_backoff_max_secs)

-- Saturating arithmetic of `u64`.
abbrev saturating_mul : ℕ → ℕ → ℕ
saturating_mul a b = min (a * b) u64_max

abbrev saturating_pow : ℕ → ℕ → ℕ
saturating_pow a n = min (a ^ n) u64_max

-- `capped_backoff` of `handle_failure`, in seconds.
unfoldable pub capped_backoff : ℤ → ℕ
capped_backoff attempts =
    let attempts_u32 = get_or (unsigned_try_from attempts) 0 in
    min (saturating_mul backoff_base_secs (saturating_pow 2 attempts_u32)) backoff_max_secs

-- A 429: `saturating_mul(2).min(MAX_RATE_LIMIT_MULTIPLIER)` of a `u32`.
unfoldable pub raised_multiplier : ℕ → ℕ
raised_multiplier m = min (min (m * 2) u32_max) max_rate_limit_multiplier

-- `effective_rate_limit_delay`, for a backoff multiplier.
unfoldable pub effective_rate_limit_delay : ℕ → ℕ → ℕ
effective_rate_limit_delay multiplier base = from_secs (saturating_mul (as_secs base) multiplier)
