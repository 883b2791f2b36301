-- ===== src/Supervisor/Tasks.antt =====
-- The download tasks beside the supervisor, and the mailbox between them
-- (download_supervisor.rs, the task that `dispatch_download` spawns).
pub mod Single
pub mod Cap
pub mod Holds
pub mod Limit
mod Examples
use Prim.Native.String.{String}
use hofvarpnir.Base.{
  ℕ, suc, ◌+◌, ◌-◌, ◌≡◌, Bool, true, false, ◌&&◌, Option, none, some, List, [], ◌∷◌, ◌++◌, ◌==◌,
  leb, if◌then◌else◌, contains, count_if,
}
use hofvarpnir.Clock.{Calendar}
use hofvarpnir.Semaphore.{SemaphoreApi}
use hofvarpnir.Database.{World}
use hofvarpnir.Supervisor.State.{
  Supervisor, Runtime, Env, Task, Phase, sleeping, acquiring, starting, working, released,
  completed, DownloadOutcome,
}
use hofvarpnir.Supervisor.Messages.{
  Message, enqueues, starts, resizes, registers, completes, reports, sweeps, cancels, rate_limits,
  handle,
}

-- The wait for the rate limit is over: `elapsed` has reached the delay.
abbrev pub sleep_over : ℕ → Task → Bool
sleep_over now t = elim t.last_download_start [
  | none ↦ true
  | some start ↦ leb t.rate_limit_delay (now - start)
]

-- What a task does next, up to its next wait: its new phase, and what it tells the supervisor.
-- `outcome` is the worker's answer to `StartDownload`, `none` if the worker stops instead; the
-- worker has the task's number.
module _ (api : SemaphoreApi) where
  unfoldable pub advance :
      (now : ℕ) (outcome : Option DownloadOutcome)
      → Task
      → api.Semaphore
      → Phase × api.Semaphore × List Message
  advance now outcome t semaphore = elim t.phase [
    | sleeping ↦
        if sleep_over now t
        then (acquiring, api.acquire semaphore t.id, [])
        else (sleeping, semaphore, [])
    | acquiring ↦
        if contains (api.permits semaphore).holders t.id
        then (starting, semaphore, starts t.video.id ∷ [])
        else (acquiring, semaphore, [])
    | starting ↦ (working t.id, semaphore, registers t.video.id t.id ∷ [])
    | working worker ↦ (released outcome, api.drop_permit semaphore t.id, [])
    | released answer ↦ (completed answer, semaphore, completes t.video.id ∷ [])
    | completed none ↦ (completed none, semaphore, [])
    | completed (some answer) ↦ (completed none, semaphore, reports answer ∷ [])
  ]

-- The supervisor with its tasks, and the messages that wait for it, the oldest first.
pub record System (api : SemaphoreApi) : Type 0 where
  pub runtime : Runtime api
  pub mailbox : List Message

-- The messages that come from elsewhere: the API, the scheduler, the settings.
abbrev pub is_external : Message → Bool
is_external (enqueues msg) = true
is_external (resizes target) = true
is_external sweeps = true
is_external rate_limits = true
is_external _ = false

abbrev pub is_cancel : Message → Bool
is_cancel (cancels video) = true
is_cancel _ = false

-- One step of a run in which no download is cancelled: the supervisor handles its oldest message,
-- a message arrives, the database changes, or a task goes on.
pub data Step (c : Calendar) (api : SemaphoreApi) : System api → System api → Type 0 where
  handles :
      (env : Env) (m : Message) (ms : List Message) (s : Runtime api)
      → is_cancel m ≡ false
      → Step c api
          (record { runtime = s; mailbox = m ∷ ms })
          (record { runtime = handle c api env m s; mailbox = ms })
  arrives :
      (m : Message) (x : System api)
      → is_external m ≡ true
      → Step c api x (record x { mailbox = x.mailbox ++ m ∷ [] })
  writes :
      (w : World) (x : System api)
      → Step c api x (record x { runtime = record x.runtime { world = w } })
  goes_on :
      (now : ℕ) (outcome : Option DownloadOutcome) (before after : List Task) (t : Task)
      (x : System api)
      → x.runtime.tasks ≡ before ++ t ∷ after
      → Step c api x (
          let (phase, semaphore, told) = advance api now outcome t x.runtime.sup.semaphore in
          record {
            runtime = record x.runtime {
              sup = record x.runtime.sup { semaphore = semaphore };
              tasks = before ++ record t { phase = phase } ∷ after;
            };
            mailbox = x.mailbox ++ told;
          })

pub data Run (c : Calendar) (api : SemaphoreApi) : System api → System api → Type 0 where
  done : (x : System api) → Run c api x x
  then_step : (x y z : System api) → Run c api x y → Step c api y z → Run c api x z

-- A task of the video that has not yet told that it is over.
abbrev is_over : Phase → Bool
is_over (completed answer) = true
is_over _ = false

abbrev pub is_live : ℕ → Task → Bool
is_live video t = t.video.id == video && (if is_over t.phase then false else true)

abbrev pub completes_video : ℕ → Message → Bool
completes_video video (completes v) = v == video
completes_video video _ = false
