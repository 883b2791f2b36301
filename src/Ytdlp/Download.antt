-- ===== src/Ytdlp/Download.antt =====
-- `download_video_to_dir` of crates/hof-core/src/ytdlp.rs: the quality gate, the output path and the
-- attempts. The crate yt_dlp and the file system answer as they are given.
use Prim.Native.String.{String, ◌++◌ as ◌++s◌}
use hofvarpnir.Base.{
  ℕ, Bool, true, false, Option, none, some, ℤ, List, [], ◌∷◌, if◌then◌else◌, Result, ok, err,
}
use hofvarpnir.Clock.{Calendar}
use hofvarpnir.Gate.{
  Quality, best, q4320p, q2160p, q1440p, q1080p, q720p, q480p, audio_only, QualityGate,
  GateDecision, evaluate,
}
use hofvarpnir.Gate
use hofvarpnir.Text.{Text}
use hofvarpnir.Ytdlp.{
  YtdlpError, download_execution_failed, quality_pending, from_error, VideoQuality, VideoCodec,
  FormatPolicy, FallbackStage,
}
use hofvarpnir.Ytdlp.Fallback.{
  FallbackAttempt, fallback_attempts, AttemptError, try_next_stage, abort,
  execute_fallback_attempts,
}
use hofvarpnir.Ytdlp.Template.{OutputTemplateData, trim, is_full, render_output_relative_path}

-- What the crate tells of a video; a height that no `i32` holds is none.
pub record FetchedVideo : Type 0 where
  pub id : Text
  pub title : Text
  pub select_height : VideoQuality → VideoCodec → Option ℤ

abbrev pub forces_extension : Quality → Bool
forces_extension audio_only = false
forces_extension _ = true

-- The height that the first attempt would select.
abbrev pub available_height : FetchedVideo → List FallbackAttempt → Option ℤ
available_height v [] = none
available_height v (first ∷ rest) = v.select_height first.video_quality first.video_codec

pub data AttemptFailure : Type 0 where
  timed_out other_error : String → AttemptFailure

abbrev pub to_attempt_error : AttemptFailure → AttemptError
to_attempt_error (timed_out detail) = abort detail
to_attempt_error (other_error detail) = try_next_stage detail

-- Characters and the calendar, and on what the downloads work, `S`, with what they deliver, `D`.
module _ (c : Calendar) (is_whitespace is_control : ℕ → Bool) (to_lowercase : Text → Text)
    (D S : Type 0) where
  pub record Backend : Type 0 where
    pub output_dir_fault : Option String
    pub fetched : Result Text FetchedVideo
    pub now : ℕ
    pub subdirectory_fault : Option String
    pub remove_leftover : List Text → S → Result String (Unit {0}) × S
    pub run : List Text → FallbackAttempt → S → Result AttemptFailure D × S

  abbrev pub attempted : Result AttemptFailure D × S → Result AttemptError D × S
  attempted (ok details, s) = (ok details, s)
  attempted (err e, s) = (err (to_attempt_error e), s)

  abbrev pub after_removal :
      Backend
      → List Text
      → FallbackAttempt
      → Result String (Unit {0}) × S
      → Result AttemptError D × S
  after_removal backend path a (err e, s) =
      (err (abort ("Failed to remove leftover output: " ++s e)), s)
  after_removal backend path a (ok u, s) = attempted (backend.run path a s)

  -- A stage that failed leaves no file to the next one.
  unfoldable pub run_attempt : Backend → List Text → FallbackAttempt → S → Result AttemptError D × S
  run_attempt backend path a s = after_removal backend path a (backend.remove_leftover path s)

  abbrev pub failed_execution : FormatPolicy → String → YtdlpError
  failed_execution policy detail =
      download_execution_failed policy.preset policy.quality none detail

  unfoldable pub output_path : FormatPolicy → Text → OutputTemplateData → FetchedVideo → List Text
  unfolding render_output_relative_path
  output_path policy naming_template t v =
      render_output_relative_path is_whitespace is_control naming_template
        (if is_full (trim is_whitespace is_control v.title) then v.title else t.fallback_title) v.id
        t policy.container_ext (forces_extension policy.quality)

  unfoldable pub download_fetched :
      Backend
      → FormatPolicy
      → Text
      → OutputTemplateData
      → FetchedVideo
      → S
      → Result YtdlpError (D × FallbackStage) × S
  unfolding output_path fallback_attempts execute_fallback_attempts run_attempt
  download_fetched backend policy naming_template t v s = elim backend.subdirectory_fault [
    | some e ↦ (err (failed_execution policy ("Failed to create output subdirectory: " ++s e)), s)
    | none ↦
        execute_fallback_attempts (run_attempt backend (output_path policy naming_template t v))
          policy (fallback_attempts policy) s
  ]

  -- The gate is asked about the height that the first attempt would select.
  unfoldable pub download_gated :
      Backend
      → FormatPolicy
      → Text
      → OutputTemplateData
      → QualityGate
      → FetchedVideo
      → S
      → Result YtdlpError (D × FallbackStage) × S
  unfolding evaluate fallback_attempts download_fetched
  download_gated backend policy naming_template t gate v s =
      let available = available_height v (fallback_attempts policy) in
      elim (evaluate c gate available backend.now) [
        | Gate.download ↦ download_fetched backend policy naming_template t v s
        | Gate.wait recheck_at ↦ (err (quality_pending available gate.target_height recheck_at), s)
      ]

  unfoldable pub download_video :
      Backend
      → FormatPolicy
      → Text
      → OutputTemplateData
      → Option QualityGate
      → S
      → Result YtdlpError (D × FallbackStage) × S
  unfolding download_gated download_fetched from_error
  download_video backend policy naming_template t gate s = elim backend.fetched [
    | err e ↦ (err (from_error to_lowercase e), s)
    | ok v ↦ elim gate [
      | none ↦ download_fetched backend policy naming_template t v s
      | some g ↦ download_gated backend policy naming_template t g v s
    ]
  ]

  unfoldable pub download_video_to_dir :
      Backend
      → FormatPolicy
      → Text
      → OutputTemplateData
      → Option QualityGate
      → S
      → Result YtdlpError (D × FallbackStage) × S
  unfolding download_video
  download_video_to_dir backend policy naming_template t gate s = elim backend.output_dir_fault [
    | some e ↦ (err (failed_execution policy ("Failed to create output dir: " ++s e)), s)
    | none ↦ download_video backend policy naming_template t gate s
  ]
