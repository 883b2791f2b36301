-- ===== src/Supervisor/Messages.antt =====
-- The supervisor's mailbox: its messages, and what handling one does to the runtime
-- (download_supervisor.rs).
use Prim.Native.String.{String}
use hofvarpnir.Base.{ℕ, Option, none, some, ok, err}
use hofvarpnir.Clock.{Calendar}
use hofvarpnir.Semaphore.{SemaphoreApi}
use hofvarpnir.Supervisor.State.{Runtime, Env, EnqueueDownload, DownloadOutcome}
use hofvarpnir.Supervisor.Handlers.{
  enqueue_download, download_starting, apply_semaphore_target, register_worker, download_done,
  report_outcome, cancel_download, notify_rate_limited,
}
use hofvarpnir.Supervisor.PendingSweep.{process_pending_downloads}

pub data Message : Type 0 where
  enqueues : EnqueueDownload → Message
  starts : ℕ → Message
  resizes : ℕ → Message
  registers : ℕ → ℕ → Message
  completes : ℕ → Message
  reports : DownloadOutcome → Message
  sweeps : Message
  cancels : ℕ → Message
  rate_limits : Message

module _ (c : Calendar) (api : SemaphoreApi) where
  unfoldable pub handle : Env → Message → Runtime api → Runtime api
  handle env (enqueues msg) s = (enqueue_download c api env msg s).0
  handle env (starts video) s = download_starting c api env video s
  handle env (resizes target) s = apply_semaphore_target c api target s
  handle env (registers video worker) s = register_worker c api video worker s
  handle env (completes video) s = download_done c api env video s
  handle env (reports outcome) s = report_outcome c api env outcome s
  handle env sweeps s = (process_pending_downloads c api env s).0
  handle env (cancels video) s = (cancel_download c api env video s).0
  handle env rate_limits s = notify_rate_limited c api s

  -- The error that kameo would take from the handler of a message without a reply channel: an
  -- `Err` stops the actor.
  unfoldable pub told_error : Env → Message → Runtime api → Option String
  told_error env (enqueues msg) s = elim (enqueue_download c api env msg s).1 [
    | ok _ ↦ none
    | err e ↦ some e
  ]
  told_error env (starts video) s = none
  told_error env (resizes target) s = none
  told_error env (registers video worker) s = none
  told_error env (completes video) s = none
  told_error env (reports outcome) s = none
  told_error env sweeps s = elim (process_pending_downloads c api env s).1 [
    | ok _ ↦ none
    | err e ↦ some e
  ]
  told_error env (cancels video) s = elim (cancel_download c api env video s).1 [
    | ok _ ↦ none
    | err e ↦ some e
  ]
  told_error env rate_limits s = none
