-- ===== src/Supervisor/Tasks/Holds.antt =====
-- Every message leaves each running task its permit (download_supervisor.rs).
use Prim.Native.String.{String}
use hofvarpnir.Base.{
  ℕ, ◌-◌, ◌≤◌, ◌≡◌, refl, ap, inl, inr, true, false, Option, count_if, count_if-append, Bool-cases,
  arith, ltb, Result, ok, err,
}
use hofvarpnir.Clock.{Calendar}
use hofvarpnir.Semaphore.{SemaphoreApi}
use hofvarpnir.Videos.{Video}
use hofvarpnir.Database.{World, DbError, get_video}
use hofvarpnir.Supervisor.State.{
  Supervisor, Runtime, Env, EnqueueDownload, DownloadOutcome, success, failure, deferred,
}
use hofvarpnir.Supervisor.Dispatch.{dispatch_download, spawn_task, resize_semaphore}
use hofvarpnir.Supervisor.Admission.{dispatch-cases}
use hofvarpnir.Supervisor.Failure.{
  note_db_failure, note_db_recovered, raise_multiplier, handle_failure, schedule_retry,
}
use hofvarpnir.Supervisor.Handlers.{
  enqueue_download, download_starting, apply_semaphore_target, register_worker, download_done,
  report_outcome, notify_rate_limited,
}
use hofvarpnir.Supervisor.SweepRule.{process_pending_downloads-keeps}
use hofvarpnir.Supervisor.Messages.{
  Message, enqueues, starts, resizes, registers, completes, reports, sweeps, cancels, rate_limits,
  handle,
}
use hofvarpnir.Supervisor.Tasks.{is_cancel}
use hofvarpnir.Supervisor.Tasks.Cap.{has_task_id, runs, occurrences, occurrences-free_many}

-- Task numbers are used once and below the next one, and a task that runs holds a permit.
pub record Holds (api : SemaphoreApi) (s : Runtime api) : Type 0 where
  pub unique : (a : ℕ) → count_if (has_task_id a) s.tasks ≤ 1
  pub unused : (a : ℕ) → s.next_task ≤ a → count_if (has_task_id a) s.tasks ≡ 0
  pub held :
      (a : ℕ) → count_if (runs a) s.tasks ≤ occurrences a (api.permits s.sup.semaphore).holders

module _ (api : SemaphoreApi) where
  dispatch-Holds :
      (env : Env) (msg : EnqueueDownload) (s : Runtime api)
      → Holds api s
      → Holds api (dispatch_download api env msg s).0
  unfolding spawn_task
  dispatch-Holds env msg s q = elim (dispatch-cases api env msg s) [
    | inl same ↦ rw same q
    | inr (_, new) ↦ rw new (record {
      unique = λ a. rw (count_if-append) (ground (arith, q.unique a, q.unused a));
      unused = λ a h. rw (count_if-append) (ground (arith, q.unused a, h));
      held = λ a. rw (count_if-append) (ground (arith, q.held a));
    })
  ]

  resize_semaphore-holders :
      (a n : ℕ) (sup : Supervisor api)
      → occurrences a (api.permits sup.semaphore).holders
        ≤ occurrences a (api.permits (resize_semaphore api n sup).semaphore).holders
  unfolding resize_semaphore
  resize_semaphore-holders a n sup = elim (Bool-cases (ltb sup.permits_total n)) [
    | inl grows ↦
        rw (grows, api.permits-add)
          (occurrences-free_many a (n - sup.permits_total) (api.permits sup.semaphore))
    | inr stays ↦ elim (Bool-cases (ltb n sup.permits_total)) [
      | inl shrinks ↦ rw (stays, shrinks, api.permits-forget) (omega arith)
      | inr same ↦ rw (stays, same) (omega arith)
    ]
  ]

  resized-Holds :
      (n : ℕ) (sup : Supervisor api) (s : Runtime api)
      → sup.semaphore ≡ s.sup.semaphore
      → Holds api s
      → Holds api (record s { sup = resize_semaphore api n sup })
  resized-Holds n sup s same q = record {
    unique = q.unique;
    unused = q.unused;
    held = λ a. omega (
      arith,
      q.held a,
      resize_semaphore-holders a n sup,
      ap (λ u. occurrences a (api.permits u).holders) same,
    );
  }

module _ (c : Calendar) (api : SemaphoreApi) (env : Env) where
  schedule_retry-Holds :
      (id : ℕ) (error : String) (code : Option String) (sup : Supervisor api) (s : Runtime api)
      (r : Result DbError Video × World)
      → sup.semaphore ≡ s.sup.semaphore
      → Holds api s
      → Holds api (schedule_retry c api env id error code sup s r)
  unfolding schedule_retry
  schedule_retry-Holds id error code sup s (err e, w) same q = record {
    unique = q.unique;
    unused = q.unused;
    held = λ a. rw same (q.held a);
  }
  schedule_retry-Holds id error code sup s (ok v, w) same q = record {
    unique = q.unique;
    unused = q.unused;
    held = λ a. rw same (q.held a);
  }

  report_outcome-Holds :
      (o : DownloadOutcome) (s : Runtime api)
      → Holds api s
      → Holds api (report_outcome c api env o s)
  unfolding report_outcome handle_failure raise_multiplier
  report_outcome-Holds (success video) s q = record {
    unique = q.unique;
    unused = q.unused;
    held = q.held;
  }
  report_outcome-Holds (failure video error code true) s q =
      schedule_retry-Holds video error code _ s (get_video video s.world) refl q
  report_outcome-Holds (failure video error code false) s q =
      schedule_retry-Holds video error code _ s (get_video video s.world) refl q
  report_outcome-Holds (deferred video recheck_at note) s q = record {
    unique = q.unique;
    unused = q.unused;
    held = q.held;
  }

  pub handle-Holds :
      (m : Message) (s : Runtime api)
      → is_cancel m ≡ false
      → Holds api s
      → Holds api (handle c api env m s)
  unfolding handle enqueue_download download_starting apply_semaphore_target register_worker
      download_done notify_rate_limited raise_multiplier note_db_failure note_db_recovered
  handle-Holds (enqueues msg) s h q = dispatch-Holds api env msg s q
  handle-Holds (starts video) s h q = record { unique = q.unique; unused = q.unused; held = q.held }
  handle-Holds (resizes target) s h q = resized-Holds api target s.sup s refl q
  handle-Holds (registers video worker) s h q = record {
    unique = q.unique;
    unused = q.unused;
    held = q.held;
  }
  handle-Holds (completes video) s h q = resized-Holds api _ _ s refl q
  handle-Holds (reports outcome) s h q = report_outcome-Holds outcome s q
  handle-Holds sweeps s h q =
      process_pending_downloads-keeps c api env (Holds api)
        (λ w t r. record { unique = r.unique; unused = r.unused; held = r.held })
        (λ e t r. record { unique = r.unique; unused = r.unused; held = r.held })
        (λ t r. record { unique = r.unique; unused = r.unused; held = r.held })
        (dispatch-Holds api env) s q
  handle-Holds (cancels video) s h q = ground arith
  handle-Holds rate_limits s h q = record { unique = q.unique; unused = q.unused; held = q.held }
