-- ===== src/Supervisor/State.antt =====
-- The supervisor's state, the download tasks that it spawns, and what a handler reads of the rest
-- of the program (download_supervisor.rs, download_worker.rs).
use Prim.Native.String.{String}
use hofvarpnir.Base.{ℕ, Bool, Option, List}
use hofvarpnir.Settings.{EffectiveSettings}
use hofvarpnir.Drain.{DrainToken}
use hofvarpnir.Videos.{Video}
use hofvarpnir.Database.{World, Source, Profile}
use hofvarpnir.Semaphore.{SemaphoreApi}

-- `DownloadOutcome`: the fields that the supervisor acts on. `note` is the text that the
-- supervisor formats for a deferral.
pub data DownloadOutcome : Type 0 where
  success : ℕ → DownloadOutcome
  failure : ℕ → String → Option String → Bool → DownloadOutcome
  deferred : ℕ → ℕ → String → DownloadOutcome

abbrev pub video_id : DownloadOutcome → ℕ
video_id (success video) = video
video_id (failure video error error_code is_rate_limited) = video
video_id (deferred video recheck_at note) = video

-- Where a spawned task is. `acquiring` waits for a permit or has just been given one; the worker
-- of `working` is the one that it spawned; from `released` on, the permit is dropped.
pub data Phase : Type 0 where
  sleeping acquiring starting : Phase
  working : ℕ → Phase
  released completed : Option DownloadOutcome → Phase

-- A spawned task, with what its closure captured.
pub record Task : Type 0 where
  pub id : ℕ
  pub video : Video
  pub profile : Profile
  pub source : Source
  pub rate_limit_delay : ℕ
  pub last_download_start : Option ℕ
  pub phase : Phase

-- The fields that tasks only copy (`ytdlp`, `progress_tx`, `download_timeout`,
-- `verify_downloads`, `broadcaster`) are left out; `pool`, `config_rx` and `drain` are `World`
-- and `Env`.
pub record Supervisor (api : SemaphoreApi) : Type 0 where
  pub semaphore : api.Semaphore
  pub permits_total : ℕ
  pub last_download_start : Option ℕ
  pub rate_limit_backoff_multiplier : ℕ
  pub active_downloads : List (ℕ × ℕ)
  pub dispatching : List ℕ
  pub quality_wait_hours : ℕ
  pub max_attempts : ℕ
  pub db_failures : ℕ
  pub db_retry_after : Option ℕ
  pub last_db_error : Option String

-- What a handler can change: the actor, the database, the tasks, and the workers that it has told
-- to stop.
pub record Runtime (api : SemaphoreApi) : Type 0 where
  pub sup : Supervisor api
  pub world : World
  pub tasks : List Task
  pub next_task : ℕ
  pub stopped : List ℕ

-- What a handler reads: the settings in force, the drain token and the two clocks, each read once
-- in a handler.
pub record Env : Type 0 where
  pub settings : EffectiveSettings
  pub drain : DrainToken
  pub utc_now : ℕ
  pub instant_now : ℕ

pub record EnqueueDownload : Type 0 where
  pub video : Video
  pub profile : Profile
  pub source : Source
