-- ===== src/Clock.antt =====
-- The clocks that the source calls: chrono's `DateTime<Utc>` and tokio's monotonic `Instant`.
-- Both are counted in nanoseconds, from the earliest one there is; a `Duration` is a count of
-- nanoseconds too.
use hofvarpnir.Base.{ℕ, ◌+◌, ◌*◌, ◌/◌, ◌≤◌, ◌<◌, ◌≡◌, Option, none, some}

abbrev pub from_secs : ℕ → ℕ
from_secs n = n * 1_000_000_000

abbrev pub as_secs : ℕ → ℕ
as_secs d = d / 1_000_000_000

abbrev pub hours : ℕ → ℕ
hours n = from_secs (3600 * n)

abbrev pub mins : ℕ → ℕ
mins n = from_secs (60 * n)

-- chrono's and tokio's checked additions fail exactly past the end of the range.
pub record Calendar : Type 0 where
  pub unix_epoch : ℕ
  pub max_utc : ℕ
  pub max_duration : ℕ
  pub checked_add_signed : ℕ → ℕ → Option ℕ
  pub from_timestamp_micros : ℕ → Option ℕ
  pub from_std : ℕ → Option ℕ
  pub max_instant : ℕ
  pub instant_checked_add : ℕ → ℕ → Option ℕ
  pub add_in_range : (t d : ℕ) → t + d ≤ max_utc → checked_add_signed t d ≡ some (t + d)
  pub add_past_range : (t d : ℕ) → max_utc < t + d → checked_add_signed t d ≡ none
  pub from_std_in_range : (d : ℕ) → d ≤ max_duration → from_std d ≡ some d
  pub from_std_past_range : (d : ℕ) → max_duration < d → from_std d ≡ none
  pub instant_in_range : (t d : ℕ) → t + d ≤ max_instant → instant_checked_add t d ≡ some (t + d)
  pub instant_past_range : (t d : ℕ) → max_instant < t + d → instant_checked_add t d ≡ none
