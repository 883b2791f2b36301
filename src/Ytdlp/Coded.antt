-- ===== src/Ytdlp/Coded.antt =====
-- The errors that the attempts of a download end with (ytdlp.rs).
use Prim.Native.String.{String}
use hofvarpnir.Base.{Result, ok, err, ◌⊎◌, inl, inr, ◌≡◌, refl, Option, none, some, List, [], ◌∷◌}
use hofvarpnir.Ytdlp.{
  FallbackStage, YtdlpError, machine_code, download_format_unavailable,
  download_execution_failed_code, FormatPolicy,
}
use hofvarpnir.Ytdlp.Fallback.{AttemptError, abort, try_next_stage, try_attempts, FallbackAttempt}

module _ {D S : Type 0} (execute : FallbackAttempt → S → Result AttemptError D × S)
    (policy : FormatPolicy) where
  -- The error of the attempts has a machine code, that of the formats or that of the execution.
  abbrev pub IsCoded : Result YtdlpError (D × FallbackStage) → Type 0
  IsCoded (ok d) = Unit
  IsCoded (err e) =
      (machine_code e ≡ some download_format_unavailable)
      ⊎ (machine_code e ≡ some download_execution_failed_code)

  pub try_attempts-IsCoded :
      (attempts : List FallbackAttempt) (last_stage : Option FallbackStage)
      (last_error : Option String) (s : S)
      → IsCoded (try_attempts execute policy attempts last_stage last_error s).0
  unfolding try_attempts machine_code
  try_attempts-IsCoded [] last_stage none s = inl refl
  try_attempts-IsCoded [] last_stage (some e) s = inl refl
  try_attempts-IsCoded (a ∷ rest) last_stage last_error s =
      go (execute a s).0 refl
        (λ detail. try_attempts-IsCoded rest (some a.stage) (some detail) (execute a s).1)
    where
      go :
          (r : Result AttemptError D)
          → (execute a s).0 ≡ r
          → ((detail : String)
              → IsCoded
                  (try_attempts execute policy rest (some a.stage) (some detail) (execute a s).1).0)
          → IsCoded (try_attempts execute policy (a ∷ rest) last_stage last_error s).0
      go (ok d) is later = rw (is, try_attempts) tt
      go (err (abort detail)) is later = rw (is, try_attempts) (inr refl)
      go (err (try_next_stage detail)) is later = rw (is, try_attempts) (later detail)
