-- ===== src/Lib.antt =====
-- Hofvarpnir downloads the videos of subscribed sources. This library models the part of it that
-- decides what is downloaded and when, and proves that part correct.
--
-- The parts, and the files that model them (paths from the repository's root):
--
-- - Base, Clock, Semaphore, Samples: shared names and lemmas; the calendar and monotonic clock
--   (chrono, tokio) and tokio's semaphore as interfaces, a record of operations with their
--   documented laws, so that a theorem holds for every implementation; and the concrete inputs of
--   the examples.
-- - Gate: crates/hof-core/src/quality_gate.rs. `new` is `QualityGate::new`, `evaluate` the decision
--   of one check of the formats.
-- - Settings: crates/hof-core/src/runtime_config.rs and crates/hof-core/src/db/runtime_settings.rs.
--   `resolve` layers the database row over the environment over the defaults.
-- - Drain: `DrainToken` of runtime_config.rs, and the watcher `poll_until_quiescent` of
--   crates/hof-core/src/startup.rs. The watcher runs on fuel, one unit for each round; enough is one
--   more than the half seconds up to the deadline.
-- - Watchdog: crates/hof-core/src/watchdog.rs. `cycle` is one round of `spawn`.
-- - Videos: the row of crates/hof-core/src/domain/video.rs and the statements of
--   crates/hof-core/src/db/video.rs, each SET clause a function on the row.
-- - Database: the queries as the actors run them. A list of faults says of each query to come
--   whether it is served, refused, or carried out with its reply lost, so a theorem over all worlds
--   covers every schedule of database failures.
-- - Supervisor: crates/hof-core/src/actors/download_supervisor.rs. State has the actor's fields and
--   the spawned tasks, Handlers one function for each message, Dispatch `dispatch_download` and
--   `resize_semaphore`, PendingSweep the handler of `ProcessPendingDownloads`, Failure
--   `handle_failure` and the database backoff. Tasks is the interleaving: the spawned tasks, their
--   messages and the supervisor's mailbox as a relation of steps.
-- - Verify: crates/hof-core/src/verify.rs. The answers of ffprobe and ffmpeg and the replies of
--   `read` are inputs; `f64` is an interface without laws.
-- - Acquire: the classes of errors and `with_acquire_retry` of crates/hof-core/src/db/mod.rs, for
--   any operation on any state. The loop runs on fuel of three, and is proved to end within it.
-- - Sources: the statements of crates/hof-core/src/db/source.rs that decide when a source is due.
-- - Text, Indexing: strings as code points with the operations of Rust's standard library that are
--   called; the counts of crates/hof-core/src/actors/source_indexer.rs, their message, and the
--   parser of crates/hof-core/src/domain/activity.rs. `usize` has 64 bits. Walk and Execute are
--   `execute_indexing` of the same indexer, by structural recursion on the entries; what yt-dlp and
--   the database answer about an entry is given with it, and so is the lower case of a string.
--   A number stands for a video's platform and its id there; an entry has the one that it is looked
--   up by, and its metadata the one that it is stored under, which may differ.
-- - Scheduler: crates/hof-core/src/actors/scheduler.rs. Run is the sequence of its messages and of
--   the results of its indexers.
-- - Cleanup: crates/hof-core/src/actors/cleanup.rs and its queries of crates/hof-core/src/db. Run is
--   one run of the actor over the database and the files; a list of faults says which queries fail.
-- - Ytdlp: crates/hof-core/src/ytdlp.rs, its errors and the format policy. Fallback has the
--   attempts of a download, which an argument runs; the height that the crate yt_dlp aims at for a
--   quality is a parameter with the values that it documents. Template renders the output path; its
--   loop over doubled extensions runs on fuel, the length of the name, of which each round takes some
--   away. Download is `download_video_to_dir`. Whether a character is white space or a control is a
--   parameter.
-- - Worker: crates/hof-core/src/actors/download_worker.rs. Files is `move_to_completed` on a disk, a
--   function from paths to files; Download is `execute_download`, with what the client leaves below
--   `incomplete/` and what it, the file system and the tools answer as inputs.
--
-- How they interact: a handler of the supervisor reads the settings in force, the drain token and
-- the clocks (`Env`), changes its own fields, and runs queries on `World`; the tasks that it spawns
-- share its semaphore and answer through its mailbox. The quality gate and the watchdog are called
-- by the download worker and at a timer; the drain token closes the supervisor's gates and the
-- scheduler's. The scheduler reads the same settings, and each of its ticks ends with the message to
-- the supervisor that starts a sweep.
--
-- Numbers are natural numbers: times and durations count nanoseconds, ids are numbers. A `u32` or
-- `u64` that the source saturates is saturated here, and the shift of the database backoff keeps
-- its word of 64 bits; an `i32` is an integer, whose increments are taken not to overflow, as the
-- attempts of a video do not reach 2^31. A handler reads each clock once. The mailbox has no bound:
-- a full one only makes a task wait. Nothing closes the semaphore, so a task that waits for a permit
-- is never turned away.
--
-- Not modelled: logs, metrics and the texts of the other activities; HTTP, the web panel and the
-- terminal client; the root supervisor; the temporary files that the cleanup removes; the
-- validation of templates; the channel's columns and the files for Jellyfin that a run of an
-- indexer writes; SQL check constraints.
pub mod Acquire
pub mod Base
pub mod Cleanup
pub mod Clock
pub mod Gate
pub mod Settings
pub mod Drain
pub mod Watchdog
pub mod Videos
pub mod Database
pub mod Semaphore
pub mod Supervisor
pub mod Sources
pub mod Scheduler
pub mod Verify
pub mod Indexing
pub mod Samples
pub mod Text
pub mod Ytdlp
pub mod Worker
