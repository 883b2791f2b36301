-- ===== src/Supervisor/Kept.antt =====
-- What the elementary updates of the supervisor keep, every message keeps
-- (download_supervisor.rs).
use Prim.Native.String.{String}
use hofvarpnir.Base.{ℕ, Bool, true, false, Option, List, Result, ok, err, inl, inr}
use hofvarpnir.Clock.{Calendar}
use hofvarpnir.Semaphore.{SemaphoreApi}
use hofvarpnir.Database.{get_video, update_video_status, World, DbError}
use hofvarpnir.Videos.{Video, failed}
use hofvarpnir.Supervisor.State.{
  Supervisor, Runtime, Env, EnqueueDownload, DownloadOutcome, success, failure, deferred,
}
use hofvarpnir.Supervisor.Dispatch.{dispatch_download, resize_semaphore, spawn_task}
use hofvarpnir.Supervisor.Failure.{
  note_db_failure, note_db_recovered, raise_multiplier, handle_failure, schedule_retry,
}
use hofvarpnir.Supervisor.Admission.{dispatch-cases}
use hofvarpnir.Supervisor.SweepRule.{process_pending_downloads-keeps}
use hofvarpnir.Supervisor.Messages.{
  Message, enqueues, starts, resizes, registers, completes, reports, sweeps, cancels, rate_limits,
  handle,
}
use hofvarpnir.Supervisor.Handlers.{
  enqueue_download, download_starting, apply_semaphore_target, register_worker, download_done,
  report_outcome, cancel_download, notify_rate_limited, release_download, report_cancel,
}

module _ (c : Calendar) (api : SemaphoreApi) where
  -- A property that each elementary update keeps. The registrations, the reservations and the
  -- last start are free.
  pub record Keeps (P : Supervisor api → Type 0) : Type 0 where
    pub noted :
        (env : Env) (e : String) (sup : Supervisor api)
        → P sup
        → P (note_db_failure c api env e sup)
    pub recovered : (sup : Supervisor api) → P sup → P (note_db_recovered c api sup)
    pub raised : (sup : Supervisor api) → P sup → P (raise_multiplier c api sup)
    pub reset :
        (sup : Supervisor api) → P sup → P (record sup { rate_limit_backoff_multiplier = 1 })
    pub resized : (n : ℕ) (sup : Supervisor api) → P sup → P (resize_semaphore api n sup)
    pub registered :
        (a : List (ℕ × ℕ)) (d : List ℕ) (l : Option ℕ) (sup : Supervisor api)
        → P sup
        → P (record sup { active_downloads = a; dispatching = d; last_download_start = l })

module _ (c : Calendar) (api : SemaphoreApi) (P : Supervisor api → Type 0) (k : Keeps c api P)
    (env : Env) where
  dispatch-keeps :
      (msg : EnqueueDownload) (s : Runtime api)
      → P s.sup
      → P (dispatch_download api env msg s).0.sup
  unfolding spawn_task
  dispatch-keeps msg s p = elim (dispatch-cases api env msg s) [
    | inl same ↦ rw same p
    | inr (_, new) ↦ rw new (k.registered _ _ _ s.sup p)
  ]

  schedule_retry-keeps :
      (id : ℕ) (error : String) (code : Option String) (sup : Supervisor api) (s : Runtime api)
      (r : Result DbError Video × World)
      → P sup
      → P (schedule_retry c api env id error code sup s r).sup
  unfolding schedule_retry
  schedule_retry-keeps id error code sup s (err e, w) p = p
  schedule_retry-keeps id error code sup s (ok v, w) p = p

  handle_failure-keeps :
      (id : ℕ) (error : String) (code : Option String) (limited : Bool) (s : Runtime api)
      → P s.sup
      → P (handle_failure c api env id error code limited s).sup
  unfolding handle_failure
  handle_failure-keeps id error code true s p =
      schedule_retry-keeps id error code _ s (get_video id s.world) (k.raised s.sup p)
  handle_failure-keeps id error code false s p =
      schedule_retry-keeps id error code _ s (get_video id s.world) p

  report_cancel-keeps :
      (video : ℕ) (s : Runtime api) (r : Result DbError (Unit {0}) × World)
      → P s.sup
      → P (report_cancel c api video s r).0.sup
  unfolding report_cancel
  report_cancel-keeps video s (err e, w) p = p
  report_cancel-keeps video s (ok _, w) p = p

  report_outcome-keeps :
      (o : DownloadOutcome) (s : Runtime api) → P s.sup → P (report_outcome c api env o s).sup
  unfolding report_outcome
  report_outcome-keeps (success video) s p = k.reset s.sup p
  report_outcome-keeps (failure video error code limited) s p =
      handle_failure-keeps video error code limited s p
  report_outcome-keeps (deferred video recheck_at note) s p = p

  -- Every message keeps such a property.
  pub handle-keeps : (m : Message) (s : Runtime api) → P s.sup → P (handle c api env m s).sup
  unfolding handle enqueue_download download_starting apply_semaphore_target register_worker
      download_done cancel_download notify_rate_limited release_download
  handle-keeps (enqueues msg) s p = dispatch-keeps msg s p
  handle-keeps (starts video) s p = k.registered _ _ _ s.sup p
  handle-keeps (resizes target) s p = k.resized target s.sup p
  handle-keeps (registers video worker) s p = k.registered _ _ _ s.sup p
  handle-keeps (completes video) s p = k.resized _ _ (k.registered _ _ _ s.sup p)
  handle-keeps (reports outcome) s p = report_outcome-keeps outcome s p
  handle-keeps sweeps s p =
      process_pending_downloads-keeps c api env (λ r. P r.sup) (λ w r q. q)
        (λ e r q. k.noted env e r.sup q) (λ r q. k.recovered r.sup q) dispatch-keeps s p
  handle-keeps (cancels video) s p =
      report_cancel-keeps video _ (update_video_status env.utc_now video failed s.world)
        (k.registered _ _ _ s.sup p)
  handle-keeps rate_limits s p = k.raised s.sup p
