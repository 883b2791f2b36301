-- ===== src/Worker.antt =====
-- crates/hof-core/src/actors/download_worker.rs: one download, from the claim of the video to the
-- file in `completed/`. yt-dlp, the file system and the tools that verify a file answer as they are
-- given.
pub mod Paths
pub mod Files
pub mod Download
pub mod Moved
pub mod Recorded
pub mod Published
pub mod Allowed
pub mod Errors
pub mod Library
mod Examples
use Prim.Native.String.{String}
use hofvarpnir.Base.{
  ℕ, suc, ◌+◌, ◌/◌, ◌≡◌, Bool, true, false, not, ◌&&◌, ◌||◌, Option, none, some, ℤ, List, [], ◌∷◌,
  ◌++◌, ltb, leb, leb_ℤ, ◌==◌, if◌then◌else◌, get_or, filter_if, sort_by, any_if, map,
  flatten_options, Result, ok, err,
}
use hofvarpnir.Clock.{Calendar, hours}
use hofvarpnir.Text.{Text, codes, equal_text}
use hofvarpnir.Gate
use hofvarpnir.Gate.{
  Quality, best, q4320p, q2160p, q1440p, q1080p, q720p, q480p, audio_only, QualityGate,
}
use hofvarpnir.Videos.{Video, DeliveredVideo, find_by_id}
use hofvarpnir.Database.{
  World, Db, DbError, to_string, query, or_not_found, mark_video_downloading, mark_video_completed,
}
use hofvarpnir.Cleanup.{is_linked, list_videos_for_source, maximum}
use hofvarpnir.Verify.{Float, Media, Expectations, VerificationError, verify_media}
use hofvarpnir.Ytdlp.{
  OutputPreset, YtdlpError, initialization_error, metadata_error, playlist_error,
  format_unavailable, format_invalid_preset, download_execution_failed, video_unavailable,
  age_restricted, rate_limited, quality_pending, machine_code, FormatPolicy, policy_from,
  download_execution_failed_code, download_verification_failed,
}
use hofvarpnir.Supervisor.State.{DownloadOutcome, success, failure, deferred}

-- A path by its components.
abbrev pub FilePath : Type 0
FilePath = List Text

abbrev pub equal_path : FilePath → FilePath → Bool
equal_path [] [] = true
equal_path [] (b ∷ bs) = false
equal_path (a ∷ as_) [] = false
equal_path (a ∷ as_) (b ∷ bs) = equal_text a b && equal_path as_ bs

-- `Path::strip_prefix`.
abbrev pub strip_path : FilePath → FilePath → Option FilePath
strip_path [] path = some path
strip_path (d ∷ dir) [] = none
strip_path (d ∷ dir) (c ∷ path) =
    let rest = strip_path dir path in if equal_text d c then rest else none

pub record DownloadConfig : Type 0 where
  pub quality : Quality
  pub output_preset : OutputPreset
  pub output_dir : FilePath
  pub source_id : ℕ
  pub verify_downloads : Bool
  pub quality_wait_hours : ℕ

abbrev pub incomplete_dir : DownloadConfig → FilePath
incomplete_dir config = config.output_dir ++ codes "incomplete" ∷ []

abbrev pub completed_dir : DownloadConfig → FilePath
completed_dir config = config.output_dir ++ codes "completed" ∷ []

pub record DownloadResult : Type 0 where
  pub file_path : FilePath
  pub file_size_bytes : ℤ
  pub video_height : Option ℤ
  pub video_codec : Option String

-- What a request to the client depends on, the rest of it being fixed by the video.
pub record DownloadRequest : Type 0 where
  pub episode_index : ℕ
  pub format_policy : FormatPolicy
  pub quality_gate : Option QualityGate

unfoldable pub video_skips_quality_gate : ℕ → Db Bool
video_skips_quality_gate id = query (λ w.
    or_not_found (elim (find_by_id id w.videos) [ none ↦ none | some v ↦ some v.skip_quality_gate ])
      w)

abbrev pub heights : ℕ → World → List ℤ
heights source w = flatten_options (
    map (λ (v : Video). v.video_height)
      (filter_if (λ (v : Video). is_linked source v.id w.source_videos) w.videos))

unfoldable pub source_best_delivered_height : ℕ → Db (Option ℤ)
source_best_delivered_height source = query (λ w. (ok (maximum (heights source w)), w))

-- An answer that is an error counts as this one.
abbrev pub ok_or : {A : Type 0} → A → Result DbError A → A
ok_or d (ok a) = a
ok_or d (err e) = d

unfoldable pub quality_gate : Calendar → DownloadConfig → Video → World → Option QualityGate × World
unfolding video_skips_quality_gate source_best_delivered_height
quality_gate c config v w =
    if config.quality_wait_hours == 0
    then (none, w)
    else let (skips, w1) = video_skips_quality_gate v.id w in
      if ok_or false skips
      then (none, w1)
      else let (height, w2) = source_best_delivered_height config.source_id w1 in
        (
          Gate.new c config.quality config.quality_wait_hours v.published_at v.created_at
              (ok_or none height),
          w2,
        )

abbrev pub publication_time : Video → ℕ
publication_time v = get_or v.published_at v.created_at

abbrev pub day_of : ℕ → ℕ
day_of t = t / hours 24

-- By the time, and by the id.
abbrev pub published_before : Video → Video → Bool
published_before a b =
    ltb (publication_time a) (publication_time b)
    || publication_time a == publication_time b && leb a.id b.id

abbrev pub position : ℕ → List Video → Option ℕ
position id [] = none
position id (v ∷ vs) =
    let later = position id vs in
    if v.id == id then some 0 else elim later [ none ↦ none | some n ↦ some (suc n) ]

unfoldable pub episode_index_for_day : DownloadConfig → Video → List Video → Option ℕ
episode_index_for_day config v videos =
    elim (position v.id (
      sort_by published_before (
        filter_if (λ (u : Video). day_of (publication_time u) == day_of (publication_time v))
          videos))) [ none ↦ none | some n ↦ some (suc n) ]

unfoldable pub build_template_data : DownloadConfig → Video → World → ℕ × World
unfolding list_videos_for_source episode_index_for_day
build_template_data config v w =
    let (videos, w') = list_videos_for_source config.source_id w in
    (get_or (episode_index_for_day config v (ok_or [] videos)) 1, w')

unfoldable pub handle_error :
    ℕ
    → (show : YtdlpError → String) (note : Option ℤ → ℤ → ℕ → String) → YtdlpError
    → DownloadOutcome
unfolding machine_code
handle_error id show note (quality_pending available target recheck_at) =
    deferred id recheck_at (note available target recheck_at)
handle_error id show note (rate_limited e) =
    failure id (show (rate_limited e)) (machine_code (rate_limited e)) true
handle_error id show note (initialization_error e) =
    failure id (show (initialization_error e)) none false
handle_error id show note (metadata_error e) = failure id (show (metadata_error e)) none false
handle_error id show note (playlist_error e) = failure id (show (playlist_error e)) none false
handle_error id show note (video_unavailable e) = failure id (show (video_unavailable e)) none false
handle_error id show note (age_restricted e) = failure id (show (age_restricted e)) none false
handle_error id show note (format_unavailable p q stage e) =
    failure id (show (format_unavailable p q stage e))
      (machine_code (format_unavailable p q stage e)) false
handle_error id show note (format_invalid_preset p q e) =
    failure id (show (format_invalid_preset p q e)) (machine_code (format_invalid_preset p q e))
      false
handle_error id show note (download_execution_failed p q stage e) =
    failure id (show (download_execution_failed p q stage e))
      (machine_code (download_execution_failed p q stage e)) false

abbrev pub execution_failed : ℕ → String → DownloadOutcome
execution_failed id error = failure id error (some download_execution_failed_code) false
