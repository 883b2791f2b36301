-- ===== src/Supervisor/Failure.antt =====
-- Database failures and download failures (download_supervisor.rs).
use Prim.Native.String.{String, ◌++◌}
use hofvarpnir.Base.{
  ℕ, ◌+◌, min, Bool, Option, none, some, ℤ, leb_ℤ, if◌then◌else◌, get_or, i32_saturate, u32_max,
  Result, ok, err,
}
use hofvarpnir.Clock.{Calendar, from_secs}
use hofvarpnir.Semaphore.{SemaphoreApi}
use hofvarpnir.Videos.{Video}
use hofvarpnir.Database.{
  World, DbError, get_video, mark_video_failed, log_and_broadcast, download_failed, retry_scheduled,
}
use hofvarpnir.Supervisor.State.{Supervisor, Runtime, Env}
use hofvarpnir.Supervisor.Backoff.{db_backoff, capped_backoff, raised_multiplier}

-- `persisted_error`
unfoldable pub persisted_error : Option String → String → String
persisted_error none error = error
persisted_error (some error_code) error = "[" ++ error_code ++ "] " ++ error

-- When a failed download is tried again; `none` marks it as permanently failed.
unfoldable pub retry_time : Calendar → ℕ → ℤ → ℕ → Option ℕ
retry_time c max_attempts attempts now =
    if leb_ℤ (i32_saturate max_attempts) attempts
    then none
    else some (get_or (c.checked_add_signed now (from_secs (capped_backoff attempts))) now)

module _ (c : Calendar) (api : SemaphoreApi) where
  unfoldable pub note_db_failure : Env → String → Supervisor api → Supervisor api
  note_db_failure env error sup =
      let failures = min (sup.db_failures + 1) u32_max in
      record sup {
        db_failures = failures;
        db_retry_after = c.instant_checked_add env.instant_now (db_backoff failures);
        last_db_error = some error;
      }

  unfoldable pub note_db_recovered : Supervisor api → Supervisor api
  note_db_recovered sup = record sup {
    db_failures = 0;
    db_retry_after = none;
    last_db_error = none;
  }

  -- The first lines of `handle_failure`, and of the `NotifyRateLimited` handler.
  unfoldable pub raise_multiplier : Supervisor api → Supervisor api
  raise_multiplier sup = record sup {
    rate_limit_backoff_multiplier = raised_multiplier sup.rate_limit_backoff_multiplier;
  }

  -- The end of `handle_failure`, for the video that it read. A failed write is only logged.
  unfoldable pub persist_failure : Env → ℕ → String → Option String → ℕ → Video → World → World
  persist_failure env max_attempts error error_code id video w =
      let next_retry = retry_time c max_attempts video.attempts env.utc_now in
      let written =
        (mark_video_failed env.utc_now id (persisted_error error_code error) next_retry w).1 in
      log_and_broadcast (elim next_retry [ none ↦ download_failed | some t ↦ retry_scheduled ]) id
        written

  -- The rest of `handle_failure`, once the video is read; `sup` has the multiplier raised.
  unfoldable pub schedule_retry :
      Env
      → ℕ
      → String
      → Option String
      → Supervisor api
      → Runtime api
      → Result DbError Video × World
      → Runtime api
  schedule_retry env id error error_code sup s (err e, w) = record s { sup = sup; world = w }
  schedule_retry env id error error_code sup s (ok video, w) = record s {
    sup = sup;
    world = persist_failure env sup.max_attempts error error_code id video w;
  }

  unfoldable pub handle_failure :
      Env → ℕ → String → Option String → Bool → Runtime api → Runtime api
  handle_failure env id error error_code is_rate_limited s =
      schedule_retry env id error error_code
        (if is_rate_limited then raise_multiplier s.sup else s.sup) s (get_video id s.world)
