-- ===== src/Worker/Errors.antt =====
-- What becomes of a download whose attempts all fail (actors/download_worker.rs, ytdlp.rs).
use Prim.Native.String.{String}
use hofvarpnir.Base.{ℕ, ◌≡◌, refl, subst, Option, none, some, ℤ, List, Result, err, false, arith}
use hofvarpnir.Supervisor.State.{failure}
use hofvarpnir.Ytdlp.{
  YtdlpError, initialization_error, metadata_error, playlist_error, format_unavailable,
  format_invalid_preset, download_execution_failed, video_unavailable, age_restricted, rate_limited,
  quality_pending, machine_code, FormatPolicy, download_format_unavailable,
  download_format_invalid_preset, download_execution_failed_code,
}
use hofvarpnir.Ytdlp.Fallback.{FallbackAttempt, AttemptError, execute_fallback_attempts}
use hofvarpnir.Ytdlp.Coded.{IsCoded, try_attempts-IsCoded}
use hofvarpnir.Worker.{handle_error}

-- Whatever the attempts of a download answer, a failure of all of them is reported with a machine
-- code and never as a rate limit.
pub handle_error-attempts :
    {D S : Type 0} (execute : FallbackAttempt → S → Result AttemptError D × S)
    (policy : FormatPolicy) (attempts : List FallbackAttempt) (s : S) (id : ℕ)
    (show : YtdlpError → String) (note : Option ℤ → ℤ → ℕ → String) (e : YtdlpError)
    → (execute_fallback_attempts execute policy attempts s).0 ≡ err e
    → (code : String) × (handle_error id show note e ≡ failure id (show e) (some code) false)
unfolding handle_error machine_code execute_fallback_attempts
handle_error-attempts execute policy attempts s id show note e fails = go e (
    subst (IsCoded execute policy) fails (try_attempts-IsCoded execute policy attempts none none s))
  where
    go :
        (e : YtdlpError)
        → IsCoded execute policy (err e)
        → (code : String) × (handle_error id show note e ≡ failure id (show e) (some code) false)
    go (format_unavailable p q stage d) is = (download_format_unavailable, refl)
    go (format_invalid_preset p q d) is = (download_format_invalid_preset, refl)
    go (download_execution_failed p q stage d) is = (download_execution_failed_code, refl)
    go (initialization_error d) is = absurd (ground arith)
    go (metadata_error d) is = absurd (ground arith)
    go (playlist_error d) is = absurd (ground arith)
    go (video_unavailable d) is = absurd (ground arith)
    go (age_restricted d) is = absurd (ground arith)
    go (rate_limited d) is = absurd (ground arith)
    go (quality_pending a t r) is = absurd (ground arith)
