-- ===== src/Supervisor/Handlers.antt =====
-- One function for each message of the supervisor, and its start (download_supervisor.rs).
use mathlib.Core.Option
use Prim.Native.String.{String, ◌++◌}
use hofvarpnir.Base.{
  find_key, insert_key, remove_key, ℕ, ◌-◌, Option, none, some, [], ◌∷◌, get_or, remove, length,
  Result, ok, err,
}
use hofvarpnir.Clock.{Calendar}
use hofvarpnir.Settings.{EffectiveSettings}
use hofvarpnir.Semaphore.{SemaphoreApi}
use hofvarpnir.Videos.{failed}
use hofvarpnir.Database.{
  World, DbError, to_string, get_video, update_video_status, defer_video_for_quality,
  log_and_broadcast, download_started, download_completed, download_failed,
}
use hofvarpnir.Supervisor.State.{
  Supervisor, Runtime, Env, EnqueueDownload, DownloadOutcome, success, failure, deferred,
}
use hofvarpnir.Supervisor.Dispatch.{dispatch_download, resize_semaphore}
use hofvarpnir.Supervisor.Failure.{handle_failure, raise_multiplier}

-- What the API and the web panel read.
pub record SupervisorStatus : Type 0 where
  pub active_downloads : ℕ
  pub dispatching : ℕ
  available_permits : ℕ
  rate_limit_backoff : ℕ
  db_backoff_until : Option ℕ
  consecutive_db_failures : ℕ
  pub last_db_error : Option String

unfoldable instant_to_wall_clock : Calendar → Env → ℕ → ℕ
instant_to_wall_clock c env instant = elim (c.from_std (instant - env.instant_now)) [
  | none ↦ env.utc_now
  | some d ↦ get_or (c.checked_add_signed env.utc_now d) env.utc_now
]

module _ (c : Calendar) (api : SemaphoreApi) where
  -- `on_start`, for the cap on concurrent downloads that is in force.
  unfoldable pub on_start :
      EffectiveSettings → (quality_wait_hours max_attempts : ℕ) → Supervisor api
  on_start settings wait_hours attempts = record {
    semaphore = api.create settings.max_concurrent_downloads.value;
    permits_total = settings.max_concurrent_downloads.value;
    last_download_start = none;
    rate_limit_backoff_multiplier = 1;
    active_downloads = [];
    dispatching = [];
    quality_wait_hours = wait_hours;
    max_attempts = attempts;
    db_failures = 0;
    db_retry_after = none;
    last_db_error = none;
  }

  -- `EnqueueDownload`: an error of the dispatch is logged.
  unfoldable pub enqueue_download :
      Env → EnqueueDownload → Runtime api → Runtime api × Result String (Unit {0})
  enqueue_download env msg s = ((dispatch_download api env msg s).0, ok tt)

  -- `DownloadStarting`: the title that it looks up is only for the activity's text.
  unfoldable pub download_starting : Env → ℕ → Runtime api → Runtime api
  download_starting env video s = record s {
    sup = record s.sup { last_download_start = some env.instant_now };
    world = log_and_broadcast download_started video (get_video video s.world).1;
  }

  -- `ApplySemaphoreTarget`
  unfoldable pub apply_semaphore_target : ℕ → Runtime api → Runtime api
  apply_semaphore_target target s = record s { sup = resize_semaphore api target s.sup }

  -- `RegisterWorker`
  unfoldable pub register_worker : ℕ → ℕ → Runtime api → Runtime api
  register_worker video worker s = record s {
    sup = record s.sup { active_downloads = insert_key video worker s.sup.active_downloads };
  }

  -- `DownloadCompleted`
  unfoldable pub download_done : Env → ℕ → Runtime api → Runtime api
  download_done env video s = record s {
    sup = resize_semaphore api env.settings.max_concurrent_downloads.value (record s.sup {
      active_downloads = remove_key video s.sup.active_downloads;
      dispatching = remove video s.sup.dispatching;
    });
  }

  -- `ReportOutcome`
  unfoldable pub report_outcome : Env → DownloadOutcome → Runtime api → Runtime api
  report_outcome env (success video) s = record s {
    sup = record s.sup { rate_limit_backoff_multiplier = 1 };
    world = log_and_broadcast download_completed video s.world;
  }
  report_outcome env (failure video error error_code is_rate_limited) s =
      handle_failure c api env video error error_code is_rate_limited s
  report_outcome env (deferred video recheck_at note) s = record s {
    world = (defer_video_for_quality env.utc_now video recheck_at note s.world).1;
  }

  -- `GetSupervisorStatus`
  unfoldable status_snapshot : Env → Supervisor api → SupervisorStatus
  status_snapshot env sup = record {
    active_downloads = length sup.active_downloads;
    dispatching = length sup.dispatching;
    available_permits = (api.permits sup.semaphore).available;
    rate_limit_backoff = sup.rate_limit_backoff_multiplier;
    db_backoff_until = Option.map (instant_to_wall_clock c env) sup.db_retry_after;
    consecutive_db_failures = sup.db_failures;
    last_db_error = sup.last_db_error;
  }

  -- The first half of `CancelDownload`: the registered worker is told to stop, and the
  -- reservation goes.
  unfoldable pub release_download : ℕ → Runtime api → Runtime api
  release_download video s = record s {
    sup = record s.sup {
      active_downloads = remove_key video s.sup.active_downloads;
      dispatching = remove video s.sup.dispatching;
    };
    stopped = elim (find_key video s.sup.active_downloads) [
      | none ↦ s.stopped
      | some worker ↦ worker ∷ s.stopped
    ];
  }

  -- The rest of `CancelDownload`, once the status is written.
  unfoldable pub report_cancel :
      ℕ → Runtime api → Result DbError (Unit {0}) × World → Runtime api × Result String (Unit {0})
  report_cancel video s (err e, w) =
      (record s { world = w }, err ("Failed to update video status: " ++ to_string e))
  report_cancel video s (ok _, w) =
      (record s { world = log_and_broadcast download_failed video w }, ok tt)

  -- `CancelDownload`, the one handler whose caller sees an error.
  unfoldable pub cancel_download : Env → ℕ → Runtime api → Runtime api × Result String (Unit {0})
  cancel_download env video s =
      report_cancel video (release_download video s)
        (update_video_status env.utc_now video failed s.world)

  -- `NotifyRateLimited`
  unfoldable pub notify_rate_limited : Runtime api → Runtime api
  notify_rate_limited s = record s { sup = raise_multiplier c api s.sup }
