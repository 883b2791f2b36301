-- ===== src/Ytdlp/Held.antt =====
-- A video that the quality gate holds (ytdlp.rs).
use Prim.Native.String.{String}
use hofvarpnir.Base.{
  ℕ, ◌≡◌, refl, Bool, true, false, Option, none, some, ℤ, List, Result, ok, err, ◌⊎◌, inl, inr,
  arith,
}
use hofvarpnir.Clock.{Calendar}
use hofvarpnir.Gate.{QualityGate, GateDecision, evaluate}
use hofvarpnir.Gate
use hofvarpnir.Gate.Decision.{IsReady, IsReady-download, download-IsReady}
use hofvarpnir.Text.{Text}
use hofvarpnir.Ytdlp.{
  YtdlpError, quality_pending, initialization_error, metadata_error, playlist_error,
  format_unavailable, format_invalid_preset, download_execution_failed, video_unavailable,
  age_restricted, rate_limited, machine_code, FormatPolicy, FallbackStage,
}
use hofvarpnir.Ytdlp.Fallback.{
  FallbackAttempt, AttemptError, fallback_attempts, execute_fallback_attempts,
}
use hofvarpnir.Ytdlp.Template.{OutputTemplateData}
use hofvarpnir.Ytdlp.Download.{
  FetchedVideo, available_height, Backend, run_attempt, output_path, download_fetched,
  download_gated, download_video, download_video_to_dir,
}
use hofvarpnir.Ytdlp.Coded.{IsCoded, try_attempts-IsCoded}

module _ (c : Calendar) (is_whitespace is_control : ℕ → Bool) (to_lowercase : Text → Text)
    (D S : Type 0) (backend : Backend c is_whitespace is_control to_lowercase D S)
    (policy : FormatPolicy) (naming_template : Text) (t : OutputTemplateData)
    (v : FetchedVideo) where
  abbrev is_pending_error : YtdlpError → Bool
  is_pending_error (quality_pending available target recheck_at) = true
  is_pending_error _ = false

  abbrev pub is_pending : Result YtdlpError (D × FallbackStage) → Bool
  is_pending (ok details) = false
  is_pending (err e) = is_pending_error e

  coded_not_pending :
      (execute : FallbackAttempt → S → Result AttemptError D × S)
      → (r : Result YtdlpError (D × FallbackStage)) → IsCoded execute policy r
      → is_pending r ≡ false
  unfolding machine_code
  coded_not_pending execute (ok details) coded = refl
  coded_not_pending execute (err (quality_pending available target recheck_at)) coded =
      absurd (ground (arith, coded))
  coded_not_pending execute (err (initialization_error e)) coded = refl
  coded_not_pending execute (err (metadata_error e)) coded = refl
  coded_not_pending execute (err (playlist_error e)) coded = refl
  coded_not_pending execute (err (format_unavailable p q stage e)) coded = refl
  coded_not_pending execute (err (format_invalid_preset p q e)) coded = refl
  coded_not_pending execute (err (download_execution_failed p q stage e)) coded = refl
  coded_not_pending execute (err (video_unavailable e)) coded = refl
  coded_not_pending execute (err (age_restricted e)) coded = refl
  coded_not_pending execute (err (rate_limited e)) coded = refl

  -- The attempts end with no error that a gate gives.
  download_fetched-is_pending :
      (s : S)
      → is_pending
          (download_fetched c is_whitespace is_control to_lowercase D S backend policy
            naming_template t v s).0
        ≡ false
  unfolding download_fetched execute_fallback_attempts
  download_fetched-is_pending s = go backend.subdirectory_fault refl
    where
      path : List Text
      path = output_path c is_whitespace is_control to_lowercase D S policy naming_template t v

      execute : FallbackAttempt → S → Result AttemptError D × S
      execute = run_attempt c is_whitespace is_control to_lowercase D S backend path

      go :
          (fault : Option String)
          → backend.subdirectory_fault ≡ fault
          → is_pending
              (download_fetched c is_whitespace is_control to_lowercase D S backend policy
                naming_template t v s).0
            ≡ false
      go (some e) fails = rw (fails, download_fetched) refl
      go none fails =
          rw (fails, download_fetched)
            (coded_not_pending execute
              (execute_fallback_attempts execute policy (fallback_attempts policy) s).0
              (try_attempts-IsCoded execute policy (fallback_attempts policy) none none s))

-- A video that is looked up behind a gate is ready, and then its download does not end with a hold; or
-- it is not, and then nothing is run, and the error names what is on offer, the target and the time
-- of the recheck, which is the gate's.
pub download_video_to_dir-held :
    (c : Calendar) (is_whitespace is_control : ℕ → Bool) (to_lowercase : Text → Text) (D S : Type 0)
    (backend : Backend c is_whitespace is_control to_lowercase D S) (policy : FormatPolicy)
    (naming_template : Text) (t : OutputTemplateData) (gate : QualityGate) (v : FetchedVideo)
    (s : S)
    → backend.output_dir_fault ≡ none
    → backend.fetched ≡ ok v
    → (IsReady c gate (available_height v (fallback_attempts policy)) backend.now
        × (is_pending c is_whitespace is_control to_lowercase D S backend policy naming_template t v
              (download_video_to_dir c is_whitespace is_control to_lowercase D S backend policy
                naming_template t
                (some gate)
                s).0
            ≡ false))
      ⊎ ((¬ IsReady c gate (available_height v (fallback_attempts policy)) backend.now)
          × ((r : ℕ) × (evaluate c gate (available_height v (fallback_attempts policy)) backend.now
                ≡ Gate.wait r)
              × (download_video_to_dir c is_whitespace is_control to_lowercase D S backend policy
                    naming_template t
                    (some gate)
                    s
                  ≡ (
                    err (
                        quality_pending
                          (available_height v (fallback_attempts policy))
                          gate.target_height
                          r),
                    s,
                  ))))
unfolding download_video_to_dir download_video download_gated
download_video_to_dir-held c is_whitespace is_control to_lowercase D S backend policy
      naming_template t gate v s made found =
    go (evaluate c gate available backend.now) refl
  where
    available : Option ℤ
    available = available_height v (fallback_attempts policy)

    go :
        (d : GateDecision)
        → evaluate c gate available backend.now ≡ d
        → (IsReady c gate available backend.now
            × (is_pending c is_whitespace is_control to_lowercase D S backend policy naming_template
                  t v
                  (download_video_to_dir c is_whitespace is_control to_lowercase D S backend policy
                    naming_template t
                    (some gate)
                    s).0
                ≡ false))
          ⊎ ((¬ IsReady c gate available backend.now)
              × ((r : ℕ) × (evaluate c gate available backend.now ≡ Gate.wait r)
                  × (download_video_to_dir c is_whitespace is_control to_lowercase D S backend
                        policy naming_template t
                        (some gate)
                        s
                      ≡ (err (quality_pending available gate.target_height r), s))))
    go Gate.download is = inl (
      download-IsReady c gate available backend.now is,
      rw (made, found, is, download_video_to_dir, download_video, download_gated)
          (download_fetched-is_pending c is_whitespace is_control to_lowercase D S backend policy
            naming_template t v s),
    )
    go (Gate.wait r) is = inr (
      (λ ready. absurd (cc (is, IsReady-download c gate available backend.now ready))),
      (r, is, rw (made, found, is, download_video_to_dir, download_video, download_gated) refl),
    )
