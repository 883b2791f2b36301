-- ===== src/Ytdlp/Fallback.antt =====
-- The attempts of a download, one after the other (crates/hof-core/src/ytdlp.rs).
use Prim.Native.String.{String}
use native.Mathlib.Decide.{ℕ_discrete}
use hofvarpnir.Base.{
  Bool, true, false, Option, none, some, List, [], ◌∷◌, ◌++◌, if◌then◌else◌, Result, ok, err,
}
use hofvarpnir.Gate.{Quality, best, q4320p, q2160p, q1440p, q1080p, q720p, q480p, audio_only}
use hofvarpnir.Ytdlp.{
  YtdlpError, VideoCodec, FallbackStage, VideoQuality, AudioCodec, FormatPolicy, OutputPreset, auto,
  browser, tv, preferred_codec_pair, preferred_video_codec, any_codec, format_unavailable,
  download_execution_failed, best_video, high, medium, low, worst, custom_height, any_video,
  any_audio,
}

unfoldable pub quality_fallback_chain : Quality → List VideoQuality
quality_fallback_chain best = best_video ∷ high ∷ medium ∷ low ∷ worst ∷ []
quality_fallback_chain q4320p =
    custom_height 4320
    ∷ custom_height 2160
    ∷ custom_height 1440
    ∷ custom_height 1080
    ∷ custom_height 720
    ∷ custom_height 480
    ∷ high
    ∷ medium
    ∷ low
    ∷ worst
    ∷ []
quality_fallback_chain q2160p =
    custom_height 2160
    ∷ custom_height 1440
    ∷ custom_height 1080
    ∷ custom_height 720
    ∷ custom_height 480
    ∷ high
    ∷ medium
    ∷ low
    ∷ worst
    ∷ []
quality_fallback_chain q1440p =
    custom_height 1440
    ∷ custom_height 1080
    ∷ custom_height 720
    ∷ custom_height 480
    ∷ high
    ∷ medium
    ∷ low
    ∷ worst
    ∷ []
quality_fallback_chain q1080p =
    custom_height 1080 ∷ custom_height 720 ∷ custom_height 480 ∷ high ∷ medium ∷ low ∷ worst ∷ []
quality_fallback_chain q720p = custom_height 720 ∷ custom_height 480 ∷ medium ∷ low ∷ worst ∷ []
quality_fallback_chain q480p = custom_height 480 ∷ low ∷ worst ∷ []
quality_fallback_chain audio_only = worst ∷ []

pub record FallbackAttempt : Type 0 where
  pub stage : FallbackStage
  pub video_quality : VideoQuality
  pub video_codec : VideoCodec
  pub audio_codec : AudioCodec

-- The attempts at one quality.
abbrev pub attempts_at : FormatPolicy → OutputPreset → VideoQuality → List FallbackAttempt
attempts_at policy auto q =
    record {
      stage = any_codec;
      video_quality = q;
      video_codec = any_video;
      audio_codec = any_audio;
    }
    ∷ []
attempts_at policy browser q =
    record {
      stage = preferred_codec_pair;
      video_quality = q;
      video_codec = policy.video_codec;
      audio_codec = policy.audio_codec;
    }
    ∷ record {
      stage = preferred_video_codec;
      video_quality = q;
      video_codec = policy.video_codec;
      audio_codec = any_audio;
    }
    ∷ record {
      stage = any_codec;
      video_quality = q;
      video_codec = any_video;
      audio_codec = any_audio;
    }
    ∷ []
attempts_at policy tv q =
    record {
      stage = preferred_codec_pair;
      video_quality = q;
      video_codec = policy.video_codec;
      audio_codec = policy.audio_codec;
    }
    ∷ record {
      stage = preferred_video_codec;
      video_quality = q;
      video_codec = policy.video_codec;
      audio_codec = any_audio;
    }
    ∷ record {
      stage = any_codec;
      video_quality = q;
      video_codec = any_video;
      audio_codec = any_audio;
    }
    ∷ []

unfoldable pub all_attempts : FormatPolicy → List VideoQuality → List FallbackAttempt
all_attempts policy [] = []
all_attempts policy (q ∷ qs) = attempts_at policy policy.preset q ++ all_attempts policy qs

unfoldable pub FallbackAttempt-discrete : Discrete FallbackAttempt
unfolding ℕ_discrete
FallbackAttempt-discrete = hlevel (ℕ_discrete)

abbrev pub contains_attempt : List FallbackAttempt → FallbackAttempt → Bool
contains_attempt [] a = false
contains_attempt (x ∷ xs) a = elim (FallbackAttempt-discrete x a) [
  | yes _ ↦ true
  | no _ ↦ contains_attempt xs a
]

-- Each attempt once, in the order of its first place; `deduped` are those before.
unfoldable pub dedup :
    List FallbackAttempt → (deduped : List FallbackAttempt) → List FallbackAttempt
dedup [] deduped = deduped
dedup (a ∷ rest) deduped =
    dedup rest (if contains_attempt deduped a then deduped else deduped ++ a ∷ [])

unfoldable pub fallback_attempts : FormatPolicy → List FallbackAttempt
unfolding quality_fallback_chain all_attempts dedup
fallback_attempts policy = dedup (all_attempts policy (quality_fallback_chain policy.quality)) []

pub data AttemptError : Type 0 where
  try_next_stage abort : String → AttemptError

-- `detail` is the last error, if any.
abbrev pub exhausted : FormatPolicy → Option FallbackStage → Option String → YtdlpError
exhausted policy last_stage none =
    format_unavailable policy.preset policy.quality last_stage "no compatible format found"
exhausted policy last_stage (some detail) =
    format_unavailable policy.preset policy.quality last_stage detail

-- The attempts are run by `execute`, on what they change.
module _ {D S : Type 0} (execute : FallbackAttempt → S → Result AttemptError D × S) where
  unfoldable pub try_attempts :
      FormatPolicy
      → List FallbackAttempt
      → (last_stage : Option FallbackStage) (last_error : Option String) → S
      → Result YtdlpError (D × FallbackStage) × S
  try_attempts policy [] last_stage last_error s = (err (exhausted policy last_stage last_error), s)
  try_attempts policy (a ∷ rest) last_stage last_error s = elim (execute a s).0 [
    | ok details ↦ (ok (details, a.stage), (execute a s).1)
    | err e ↦ elim e [
      | abort detail ↦ (
        err (download_execution_failed policy.preset policy.quality (some a.stage) detail),
        (execute a s).1,
      )
      | try_next_stage detail ↦
          try_attempts policy rest (some a.stage) (some detail) (execute a s).1
    ]
  ]

  unfoldable pub execute_fallback_attempts :
      FormatPolicy → List FallbackAttempt → S → Result YtdlpError (D × FallbackStage) × S
  unfolding try_attempts
  execute_fallback_attempts policy attempts s = try_attempts policy attempts none none s
