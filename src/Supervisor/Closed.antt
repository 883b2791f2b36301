-- ===== src/Supervisor/Closed.antt =====
-- Nothing starts while downloads are paused or the process drains (download_supervisor.rs).
use Prim.Native.String.{String}
use hofvarpnir.Base.{ℕ, ◌≡◌, refl, ap, true, Option, Result, ok, err}
use hofvarpnir.Clock.{Calendar}
use hofvarpnir.Semaphore.{SemaphoreApi}
use hofvarpnir.Videos.{Video, failed}
use hofvarpnir.Database.{World, DbError, get_video, update_video_status}
use hofvarpnir.Supervisor.State.{
  Supervisor, Runtime, Env, EnqueueDownload, DownloadOutcome, success, failure, deferred,
}
use hofvarpnir.Supervisor.Dispatch.{dispatch_download, is_closed}
use hofvarpnir.Supervisor.Failure.{handle_failure, schedule_retry}
use hofvarpnir.Supervisor.PendingSweep.{process_pending_downloads}
use hofvarpnir.Supervisor.Handlers.{
  enqueue_download, download_starting, apply_semaphore_target, register_worker, download_done,
  report_outcome, cancel_download, release_download, report_cancel, notify_rate_limited,
}
use hofvarpnir.Supervisor.Messages.{
  Message, enqueues, starts, resizes, registers, completes, reports, sweeps, cancels, rate_limits,
  handle,
}

module _ (c : Calendar) (api : SemaphoreApi) (env : Env) where
  closed_dispatch :
      (msg : EnqueueDownload) (s : Runtime api)
      → is_closed env ≡ true
      → dispatch_download api env msg s ≡ (s, ok tt)
  unfolding dispatch_download
  closed_dispatch msg s closed = rw closed refl

  closed_sweep :
      (s : Runtime api) → is_closed env ≡ true → process_pending_downloads c api env s ≡ (s, ok 0)
  unfolding process_pending_downloads
  closed_sweep s closed = rw closed refl

  schedule_retry-tasks :
      (id : ℕ) (error : String) (code : Option String) (sup : Supervisor api) (s : Runtime api)
      (r : Result DbError Video × World)
      → (schedule_retry c api env id error code sup s r).tasks ≡ s.tasks
  unfolding schedule_retry
  schedule_retry-tasks id error code sup s (err e, w) = refl
  schedule_retry-tasks id error code sup s (ok v, w) = refl

  report_outcome-tasks :
      (o : DownloadOutcome) (s : Runtime api) → (report_outcome c api env o s).tasks ≡ s.tasks
  unfolding report_outcome handle_failure
  report_outcome-tasks (success video) s = refl
  report_outcome-tasks (failure video error code limited) s =
      schedule_retry-tasks video error code _ s (get_video video s.world)
  report_outcome-tasks (deferred video recheck_at note) s = refl

  report_cancel-tasks :
      (video : ℕ) (s : Runtime api) (r : Result DbError (Unit {0}) × World)
      → (report_cancel c api video s r).0.tasks ≡ s.tasks
  unfolding report_cancel
  report_cancel-tasks video s (err e, w) = refl
  report_cancel-tasks video s (ok _, w) = refl

  -- While downloads are paused or the process drains, no message starts a task, whoever sends it.
  pub handle_closed :
      (m : Message) (s : Runtime api)
      → is_closed env ≡ true
      → (handle c api env m s).tasks ≡ s.tasks
  unfolding handle enqueue_download download_starting apply_semaphore_target register_worker
      download_done cancel_download release_download notify_rate_limited
  handle_closed (enqueues msg) s h = ap (λ r. r.0.tasks) (closed_dispatch msg s h)
  handle_closed (starts video) s h = refl
  handle_closed (resizes target) s h = refl
  handle_closed (registers video worker) s h = refl
  handle_closed (completes video) s h = refl
  handle_closed (reports outcome) s h = report_outcome-tasks outcome s
  handle_closed sweeps s h = ap (λ r. r.0.tasks) (closed_sweep s h)
  handle_closed (cancels video) s h =
      report_cancel-tasks video (release_download c api video s)
        (update_video_status env.utc_now video failed s.world)
  handle_closed rate_limits s h = refl
