-- ===== src/Ytdlp.antt =====
-- crates/hof-core/src/ytdlp.rs: the errors of the yt-dlp client and the format policy of a download.
pub mod Template
pub mod Trim
pub mod Segments
pub mod Extension
pub mod Rendered
pub mod Download
pub mod Held
pub mod Fallback
pub mod Attempts
pub mod Coded
mod Examples
use Prim.Native.String.{String}
use hofvarpnir.Base.{ℕ, ◌||◌, Option, none, some, ℤ, if◌then◌else◌}
use hofvarpnir.Gate.{Quality}
use hofvarpnir.Text.{Text, codes}
use hofvarpnir.Indexing.{contains_text}

-- crates/hof-core/src/domain/profile.rs
pub data OutputPreset : Type 0 where
  auto browser tv : OutputPreset

pub data FallbackStage : Type 0 where
  preferred_codec_pair preferred_video_codec any_codec : FallbackStage

pub data YtdlpError : Type 0 where
  initialization_error metadata_error playlist_error : Text → YtdlpError
  format_unavailable : OutputPreset → Quality → Option FallbackStage → String → YtdlpError
  format_invalid_preset : OutputPreset → Quality → String → YtdlpError
  download_execution_failed : OutputPreset → Quality → Option FallbackStage → String → YtdlpError
  video_unavailable age_restricted rate_limited : Text → YtdlpError
  quality_pending : (available_height : Option ℤ) (target_height : ℤ) (recheck_at : ℕ) → YtdlpError

abbrev pub download_format_unavailable : String
download_format_unavailable = "DOWNLOAD_FORMAT_UNAVAILABLE"

abbrev pub download_format_invalid_preset : String
download_format_invalid_preset = "DOWNLOAD_FORMAT_INVALID_PRESET"

abbrev pub download_execution_failed_code : String
download_execution_failed_code = "DOWNLOAD_EXECUTION_FAILED"

abbrev pub download_verification_failed : String
download_verification_failed = "DOWNLOAD_VERIFICATION_FAILED"

unfoldable pub machine_code : YtdlpError → Option String
machine_code (format_unavailable preset quality stage detail) = some download_format_unavailable
machine_code (format_invalid_preset preset quality detail) = some download_format_invalid_preset
machine_code (download_execution_failed preset quality stage detail) =
    some download_execution_failed_code
machine_code (initialization_error e) = none
machine_code (metadata_error e) = none
machine_code (playlist_error e) = none
machine_code (video_unavailable e) = none
machine_code (age_restricted e) = none
machine_code (rate_limited e) = none
machine_code (quality_pending available target recheck_at) = none

unfoldable pub fallback_stage : YtdlpError → Option FallbackStage
fallback_stage (format_unavailable preset quality stage detail) = stage
fallback_stage (download_execution_failed preset quality stage detail) = stage
fallback_stage (format_invalid_preset preset quality detail) = none
fallback_stage (initialization_error e) = none
fallback_stage (metadata_error e) = none
fallback_stage (playlist_error e) = none
fallback_stage (video_unavailable e) = none
fallback_stage (age_restricted e) = none
fallback_stage (rate_limited e) = none
fallback_stage (quality_pending available target recheck_at) = none

-- `From<yt_dlp::error::Error>`, of the error's text.
unfoldable pub from_error : (to_lowercase : Text → Text) → Text → YtdlpError
unfolding contains_text
from_error to_lowercase msg =
    let msg_lower = to_lowercase msg in
    if contains_text (codes "confirm your age") msg_lower
      || contains_text (codes "inappropriate for some users") msg_lower
    then age_restricted msg
    else if contains_text (codes "429") msg
        || contains_text (codes "rate limit") msg_lower
        || contains_text (codes "confirm you're not a bot") msg_lower
        || contains_text (codes "too many requests") msg_lower
    then rate_limited msg
    else if contains_text (codes "unavailable") msg_lower
        || contains_text (codes "private") msg_lower
        || contains_text (codes "removed") msg_lower
        || contains_text (codes "not found") msg_lower
    then video_unavailable msg
    else metadata_error msg

-- The values of the crate's types that the source uses.
pub data VideoQuality : Type 0 where
  best_video high medium low worst : VideoQuality
  custom_height : ℕ → VideoQuality

pub data VideoCodec : Type 0 where
  any_video browser_ranked tv_ranked : VideoCodec

pub data AudioCodec : Type 0 where
  any_audio aac : AudioCodec

pub record FormatPolicy : Type 0 where
  pub quality : Quality
  pub preset : OutputPreset
  pub video_codec : VideoCodec
  pub audio_codec : AudioCodec
  pub container_ext : Text

-- `browser_ranked` is AVC1 before AV1, `tv_ranked` HEVC before those.
unfoldable pub policy_from : Quality → OutputPreset → FormatPolicy
policy_from quality auto = record {
  quality = quality;
  preset = auto;
  video_codec = any_video;
  audio_codec = any_audio;
  container_ext = codes "mkv";
}
policy_from quality browser = record {
  quality = quality;
  preset = browser;
  video_codec = browser_ranked;
  audio_codec = aac;
  container_ext = codes "mp4";
}
policy_from quality tv = record {
  quality = quality;
  preset = tv;
  video_codec = tv_ranked;
  audio_codec = aac;
  container_ext = codes "mp4";
}
