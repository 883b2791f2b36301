-- ===== src/Supervisor/Tasks/Single.antt =====
-- One task for each reservation (download_supervisor.rs).
use Prim.Native.String.{String}
use hofvarpnir.Base.{
  ℕ, ◌+◌, ◌≤◌, ◌≡◌, refl, ap, sym, ◌∙◌, inl, inr, Bool, true, false, Option, none, some, List, [],
  ◌∷◌, ◌++◌, ◌==◌, contains, count_if, count_if-append, contains-remove, Result, ok, err, arith,
  if◌then◌else◌,
}
use hofvarpnir.Clock.{Calendar}
use hofvarpnir.Semaphore.{SemaphoreApi}
use hofvarpnir.Videos.{Video}
use hofvarpnir.Database.{World, DbError, get_video}
use hofvarpnir.Supervisor.State.{
  Supervisor, Runtime, Env, EnqueueDownload, Task, Phase, sleeping, acquiring, starting, working,
  released, completed, DownloadOutcome, success, failure, deferred,
}
use hofvarpnir.Supervisor.Dispatch.{dispatch_download, spawn_task, resize_semaphore}
use hofvarpnir.Supervisor.Admission.{dispatch-cases}
use hofvarpnir.Supervisor.Failure.{
  note_db_failure, note_db_recovered, raise_multiplier, handle_failure, schedule_retry,
}
use hofvarpnir.Supervisor.Handlers.{
  enqueue_download, download_starting, apply_semaphore_target, register_worker, download_done,
  report_outcome, notify_rate_limited,
}
use hofvarpnir.Supervisor.SweepRule.{process_pending_downloads-keeps}
use hofvarpnir.Supervisor.Messages.{
  Message, enqueues, starts, resizes, registers, completes, reports, sweeps, cancels, rate_limits,
  handle,
}
use hofvarpnir.Supervisor.Tasks.{
  System, Step, handles, arrives, writes, goes_on, Run, done, then_step, advance, is_live,
  completes_video, is_cancel, is_external,
}

-- 1 for a member of the set, 0 for any other number.
abbrev pub one_if : Bool → ℕ
one_if b = if b then 1 else 0

module _ (api : SemaphoreApi) where
  -- For each video, the live tasks and `k` messages that one is over make up its reservation.
  abbrev Balanced : (ℕ → ℕ) → Runtime api → Type 0
  Balanced k s =
      (v : ℕ) → count_if (is_live v) s.tasks + k v ≡ one_if (contains s.sup.dispatching v)

  dispatch-Balanced :
      (k : ℕ → ℕ) (env : Env) (msg : EnqueueDownload) (s : Runtime api)
      → Balanced k s
      → Balanced k (dispatch_download api env msg s).0
  unfolding spawn_task
  dispatch-Balanced k env msg s b v = elim (dispatch-cases api env msg s) [
    | inl same ↦ rw same (b v)
    | inr (admitted, new) ↦ rw (new, count_if-append) (ground (arith, b v, admitted.not_reserved))
  ]

  -- The parts of the runtime that the balance is about.
  abbrev SameLedger : Runtime api → Runtime api → Type 0
  SameLedger s t = (t.tasks ≡ s.tasks) × (t.sup.dispatching ≡ s.sup.dispatching)

  SameLedger-Balanced :
      (k : ℕ → ℕ) (s t : Runtime api) → SameLedger s t → Balanced k s → Balanced k t
  SameLedger-Balanced k s t (tasks, dispatching) b v = rw (tasks, dispatching) (b v)

  drop_zero : (k : ℕ → ℕ) (s : Runtime api) → Balanced (λ v. 0 + k v) s → Balanced k s
  drop_zero k s b v = omega (arith, b v)

  resize_semaphore-dispatching :
      (n : ℕ) (sup : Supervisor api) → (resize_semaphore api n sup).dispatching ≡ sup.dispatching
  unfolding resize_semaphore
  resize_semaphore-dispatching n sup = ground arith

module _ (c : Calendar) (api : SemaphoreApi) (env : Env) where
  schedule_retry-SameLedger :
      (id : ℕ) (error : String) (code : Option String) (sup : Supervisor api) (s : Runtime api)
      (r : Result DbError Video × World)
      → sup.dispatching ≡ s.sup.dispatching
      → SameLedger api s (schedule_retry c api env id error code sup s r)
  unfolding schedule_retry
  schedule_retry-SameLedger id error code sup s (err e, w) h = (refl, h)
  schedule_retry-SameLedger id error code sup s (ok v, w) h = (refl, h)

  report_outcome-SameLedger :
      (o : DownloadOutcome) (s : Runtime api) → SameLedger api s (report_outcome c api env o s)
  unfolding report_outcome handle_failure raise_multiplier
  report_outcome-SameLedger (success video) s = (refl, refl)
  report_outcome-SameLedger (failure video error code true) s =
      schedule_retry-SameLedger video error code _ s (get_video video s.world) refl
  report_outcome-SameLedger (failure video error code false) s =
      schedule_retry-SameLedger video error code _ s (get_video video s.world) refl
  report_outcome-SameLedger (deferred video recheck_at note) s = (refl, refl)

  -- Handling a message that says that a task is over takes the reservation away with it.
  download_done-Balanced :
      (k : ℕ → ℕ) (video : ℕ) (s : Runtime api)
      → Balanced api (λ v. one_if (video == v) + k v) s
      → Balanced api k (download_done c api env video s)
  unfolding download_done
  download_done-Balanced k video s b v =
      rw (resize_semaphore-dispatching, contains-remove) (ground (arith, b v))

  handle-Balanced :
      (k : ℕ → ℕ) (m : Message) (s : Runtime api)
      → is_cancel m ≡ false
      → Balanced api (λ v. one_if (completes_video v m) + k v) s
      → Balanced api k (handle c api env m s)
  unfolding handle enqueue_download download_starting apply_semaphore_target register_worker
      notify_rate_limited raise_multiplier note_db_failure note_db_recovered
  handle-Balanced k (enqueues msg) s h b = dispatch-Balanced api k env msg s (drop_zero api k s b)
  handle-Balanced k (starts video) s h b = drop_zero api k s b
  handle-Balanced k (resizes target) s h b =
      SameLedger-Balanced api k s (apply_semaphore_target c api target s)
        (refl, resize_semaphore-dispatching api target s.sup) (drop_zero api k s b)
  handle-Balanced k (registers video worker) s h b = drop_zero api k s b
  handle-Balanced k (completes video) s h b = download_done-Balanced k video s b
  handle-Balanced k (reports outcome) s h b =
      SameLedger-Balanced api k s (report_outcome c api env outcome s)
        (report_outcome-SameLedger outcome s) (drop_zero api k s b)
  handle-Balanced k sweeps s h b =
      process_pending_downloads-keeps c api env (Balanced api k) (λ w t q. q) (λ e t q. q)
        (λ t q. q) (dispatch-Balanced api k env) s (drop_zero api k s b)
  handle-Balanced k (cancels video) s h b = ground arith
  handle-Balanced k rate_limits s h b = drop_zero api k s b

-- Each video's reservation stands for one live task, or for one message that its task is over.
pub record IsSingle (api : SemaphoreApi) (x : System api) : Type 0 where
  pub single :
      (v : ℕ)
      → count_if (is_live v) x.runtime.tasks + count_if (completes_video v) x.mailbox
        ≡ one_if (contains x.runtime.sup.dispatching v)

rebalance :
    (b a o o' n m told d : ℕ)
    → o' + told ≡ o
    → b + (o + a) ≡ n
    → n + m ≡ d
    → b + (o' + a) + (m + told) ≡ d
rebalance b a o o' n m told d balance split before = omega (arith, balance, split, before)

module _ (c : Calendar) (api : SemaphoreApi) where
  external-completes : (m : Message) (v : ℕ) → is_external m ≡ true → completes_video v m ≡ false
  external-completes (enqueues msg) v h = refl
  external-completes (starts video) v h = refl
  external-completes (resizes target) v h = refl
  external-completes (registers video worker) v h = refl
  external-completes (completes video) v h = ground arith
  external-completes (reports outcome) v h = refl
  external-completes sweeps v h = refl
  external-completes (cancels video) v h = refl
  external-completes rate_limits v h = refl

  -- What a task does keeps the sum of its liveness and of its messages that it is over.
  advance-balance :
      (now : ℕ) (outcome : Option DownloadOutcome) (p : Phase) (t : Task)
      (semaphore : api.Semaphore) (v : ℕ)
      → let (phase, semaphore', told) =
          advance api now outcome (record t { phase = p }) semaphore in
        one_if (is_live v (record t { phase = phase })) + count_if (completes_video v) told
        ≡ one_if (is_live v (record t { phase = p }))
  unfolding advance
  advance-balance now outcome sleeping t semaphore v = ground arith
  advance-balance now outcome acquiring t semaphore v = ground arith
  advance-balance now outcome starting t semaphore v = ground arith
  advance-balance now outcome (working worker) t semaphore v = ground arith
  advance-balance now outcome (released answer) t semaphore v = ground arith
  advance-balance now outcome (completed none) t semaphore v = ground arith
  advance-balance now outcome (completed (some answer)) t semaphore v = ground arith

  pub count-middle :
      (p : Task → Bool) (before after : List Task) (t : Task)
      → count_if p (before ++ t ∷ after) ≡ count_if p before + (one_if (p t) + count_if p after)
  count-middle p before after t = count_if-append p before (t ∷ after) ∙ ground arith

  Step-IsSingle : (x y : System api) → Step c api x y → IsSingle api x → IsSingle api y
  Step-IsSingle _ _ (handles env m ms s h) q = record {
    single =
        handle-Balanced c api env (λ v. count_if (completes_video v) ms) m s h
          (λ v. ground (arith, q.single v));
  }
  Step-IsSingle _ _ (arrives m x h) q = record {
    single = λ v. rw (count_if-append) (ground (arith, q.single v, external-completes m v h));
  }
  Step-IsSingle _ _ (writes w x) q = record { single = q.single }
  Step-IsSingle _ _ (goes_on now outcome before after t x e) q = record {
    single = λ v.
        rw (count-middle, count_if-append)
          (rebalance (count_if (is_live v) before) (count_if (is_live v) after) _ _ _
            (count_if (completes_video v) x.mailbox)
            (count_if (completes_video v) (advance api now outcome t x.runtime.sup.semaphore).2) _
            (advance-balance now outcome t.phase t x.runtime.sup.semaphore v)
            (sym (count-middle (is_live v) before after t) ∙ ap (count_if (is_live v)) (sym e))
            (q.single v));
  }

  -- From a state in which each reservation stands for one task, every state that is reached
  -- without a cancel is so.
  pub run-IsSingle : (x y : System api) → Run c api x y → IsSingle api x → IsSingle api y
  run-IsSingle _ _ (done x) q = q
  run-IsSingle _ _ (then_step x y z r s) q = Step-IsSingle y z s (run-IsSingle x y r q)

  -- No two tasks: in a run from an idle system in which no download is cancelled, at most one
  -- task at a time has a video, and only while the video's dispatch is reserved. So once no
  -- reservation is left, no task downloads, waits, or has yet to tell that it is over.
  pub run-one_task :
      (x y : System api)
      → Run c api x y
      → x.runtime.tasks ≡ []
      → x.mailbox ≡ []
      → x.runtime.sup.dispatching ≡ []
      → (video : ℕ)
      → count_if (is_live video) y.runtime.tasks ≤ one_if (contains y.runtime.sup.dispatching video)
  run-one_task x y r tasks mailbox dispatching video =
      let q = run-IsSingle x y r (record { single = λ v. rw (tasks, mailbox, dispatching) refl }) in
      omega (arith, q.single video)
