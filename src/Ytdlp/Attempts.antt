-- ===== src/Ytdlp/Attempts.antt =====
-- The formats that a download tries (ytdlp.rs).
use hofvarpnir.Base.{
  ℕ, ◌≤◌, ◌≢◌, All, Bool-cases, arith, ℤ, ◌≤ℤ◌, ◌++◌, ◌⊎◌, inl, inr, ◌≡◌, refl, Option, none, some,
  List, [], ◌∷◌, pos,
}
use hofvarpnir.Gate.{
  Quality, best, q4320p, q2160p, q1440p, q1080p, q720p, q480p, audio_only, requested_height,
}
use hofvarpnir.Ytdlp.{
  OutputPreset, auto, browser, tv, VideoQuality, best_video, high, medium, low, worst,
  custom_height, any_codec, FormatPolicy, any_video, any_audio, policy_from,
}
use hofvarpnir.Ytdlp.Fallback.{
  FallbackAttempt, FallbackAttempt-discrete, fallback_attempts, quality_fallback_chain, attempts_at,
  all_attempts, contains_attempt, dedup,
}

abbrev pub head : List FallbackAttempt → Option FallbackAttempt
head [] = none
head (a ∷ rest) = some a

abbrev pub last : List FallbackAttempt → Option FallbackAttempt
last [] = none
last (a ∷ []) = some a
last (a ∷ b ∷ rest) = last (b ∷ rest)

-- The height that the crate yt_dlp aims at for a quality, as it documents it; for the best quality
-- that is the tallest format of the video.
pub record Targets : Type 0 where
  pub target_height_for : VideoQuality → Option ℤ
  pub high_is : target_height_for high ≡ some (pos 1080)
  pub medium_is : target_height_for medium ≡ some (pos 720)
  pub low_is : target_height_for low ≡ some (pos 480)
  pub worst_is : target_height_for worst ≡ none
  pub custom_is : (h : ℕ) → target_height_for (custom_height h) ≡ some (pos h)

abbrev pub anything : FallbackAttempt
anything = record {
  stage = any_codec;
  video_quality = worst;
  video_codec = any_video;
  audio_codec = any_audio;
}

module _ (targets : Targets) where
  open targets use {target_height_for}

  -- Under the best quality there is no limit; under another one, a quality is within the limit if it
  -- is not the best and aims at no height, or at one that is not above the profile's.
  abbrev pub IsUnder : (limit : Option ℤ) → VideoQuality → Type 0
  IsUnder limit q =
      (q ≢ best_video)
      × ((target_height_for q ≡ none)
          ⊎ ((h p : ℤ) × (target_height_for q ≡ some h) × (limit ≡ some p) × (h ≤ℤ p)))

  abbrev pub IsWithin : Quality → VideoQuality → Type 0
  IsWithin best q = Unit
  IsWithin q4320p q = IsUnder (requested_height q4320p) q
  IsWithin q2160p q = IsUnder (requested_height q2160p) q
  IsWithin q1440p q = IsUnder (requested_height q1440p) q
  IsWithin q1080p q = IsUnder (requested_height q1080p) q
  IsWithin q720p q = IsUnder (requested_height q720p) q
  IsWithin q480p q = IsUnder (requested_height q480p) q
  IsWithin audio_only q = IsUnder none q

  -- The first attempt aims at what the profile asks for.
  abbrev pub Aims : Quality → VideoQuality → Type 0
  Aims quality q =
      ((quality ≡ best) × (q ≡ best_video))
      ⊎ ((quality ≢ best) × (target_height_for q ≡ requested_height quality))

  abbrev pub IsFallback : Quality → List FallbackAttempt → Type 0
  IsFallback quality attempts =
      All (λ (a : FallbackAttempt). IsWithin quality a.video_quality) attempts
      × ((first : FallbackAttempt) × (head attempts ≡ some first)
          × Aims quality first.video_quality)
      × (last attempts ≡ some anything)

  at_most :
      (q : VideoQuality) (h p : ℕ)
      → q ≢ best_video
      → target_height_for q ≡ some (pos h)
      → h ≤ p
      → IsUnder (some (pos p)) q
  at_most q h p other is le = (other, inr (pos h, pos p, is, refl, omega (arith, le)))

  custom-IsUnder : (h p : ℕ) → h ≤ p → IsUnder (some (pos p)) (custom_height h)
  custom-IsUnder h p le = at_most (custom_height h) h p (λ e. absurd cc) (targets.custom_is h) le

  high-IsUnder : (p : ℕ) → 1080 ≤ p → IsUnder (some (pos p)) high
  high-IsUnder p le = at_most high 1080 p (λ e. absurd cc) targets.high_is le

  medium-IsUnder : (p : ℕ) → 720 ≤ p → IsUnder (some (pos p)) medium
  medium-IsUnder p le = at_most medium 720 p (λ e. absurd cc) targets.medium_is le

  low-IsUnder : (p : ℕ) → 480 ≤ p → IsUnder (some (pos p)) low
  low-IsUnder p le = at_most low 480 p (λ e. absurd cc) targets.low_is le

  worst-IsUnder : (limit : Option ℤ) → IsUnder limit worst
  worst-IsUnder limit = ((λ e. absurd cc), inl targets.worst_is)

  abbrev AllUnder : ℕ → List VideoQuality → Type 0
  AllUnder p = All (IsUnder (some (pos p)))

  from_low : (p : ℕ) → 480 ≤ p → AllUnder p (low ∷ worst ∷ [])
  from_low p le = (low-IsUnder p le, (worst-IsUnder (some (pos p)), tt))

  from_medium : (p : ℕ) → 720 ≤ p → AllUnder p (medium ∷ low ∷ worst ∷ [])
  from_medium p le = (medium-IsUnder p le, from_low p (omega (arith, le)))

  from_1080 : (p : ℕ) → 1080 ≤ p → AllUnder p (quality_fallback_chain q1080p)
  unfolding quality_fallback_chain
  from_1080 p le = (
    custom-IsUnder 1080 p le,
    (
      custom-IsUnder 720 p (omega (arith, le)),
      (
        custom-IsUnder 480 p (omega (arith, le)),
        (high-IsUnder p le, from_medium p (omega (arith, le))),
      ),
    ),
  )

  from_1440 : (p : ℕ) → 1440 ≤ p → AllUnder p (quality_fallback_chain q1440p)
  unfolding quality_fallback_chain
  from_1440 p le = (custom-IsUnder 1440 p le, from_1080 p (omega (arith, le)))

  from_2160 : (p : ℕ) → 2160 ≤ p → AllUnder p (quality_fallback_chain q2160p)
  unfolding quality_fallback_chain
  from_2160 p le = (custom-IsUnder 2160 p le, from_1440 p (omega (arith, le)))

  quality_fallback_chain-IsWithin :
      (quality : Quality) → All (IsWithin quality) (quality_fallback_chain quality)
  unfolding quality_fallback_chain requested_height
  quality_fallback_chain-IsWithin best = (tt, (tt, (tt, (tt, (tt, tt)))))
  quality_fallback_chain-IsWithin q4320p =
      (custom-IsUnder 4320 4320 (omega arith), from_2160 4320 (omega arith))
  quality_fallback_chain-IsWithin q2160p = from_2160 2160 (omega arith)
  quality_fallback_chain-IsWithin q1440p = from_1440 1440 (omega arith)
  quality_fallback_chain-IsWithin q1080p = from_1080 1080 (omega arith)
  quality_fallback_chain-IsWithin q720p = (
    custom-IsUnder 720 720 (omega arith),
    (custom-IsUnder 480 720 (omega arith), from_medium 720 (omega arith)),
  )
  quality_fallback_chain-IsWithin q480p =
      (custom-IsUnder 480 480 (omega arith), from_low 480 (omega arith))
  quality_fallback_chain-IsWithin audio_only = (worst-IsUnder none, tt)

  -- A property of the qualities is one of the attempts.
  module _ (P : VideoQuality → Type 0) (policy : FormatPolicy) where
    abbrev AllTry : List FallbackAttempt → Type 0
    AllTry = All (λ (a : FallbackAttempt). P a.video_quality)

    AllTry-append : (xs ys : List FallbackAttempt) → AllTry xs → AllTry ys → AllTry (xs ++ ys)
    AllTry-append [] ys all also = also
    AllTry-append (x ∷ xs) ys (h, all) also = (h, AllTry-append xs ys all also)

    attempts_at-AllTry :
        (preset : OutputPreset) (q : VideoQuality) → P q → AllTry (attempts_at policy preset q)
    attempts_at-AllTry auto q h = (h, tt)
    attempts_at-AllTry browser q h = (h, (h, (h, tt)))
    attempts_at-AllTry tv q h = (h, (h, (h, tt)))

    all_attempts-AllTry : (qs : List VideoQuality) → All P qs → AllTry (all_attempts policy qs)
    unfolding all_attempts
    all_attempts-AllTry [] all = tt
    all_attempts-AllTry (q ∷ qs) (h, all) =
        AllTry-append (attempts_at policy policy.preset q) (all_attempts policy qs)
          (attempts_at-AllTry policy.preset q h) (all_attempts-AllTry qs all)

    dedup-AllTry :
        (xs deduped : List FallbackAttempt) → AllTry xs → AllTry deduped → AllTry (dedup xs deduped)
    unfolding dedup
    dedup-AllTry [] deduped all also = also
    dedup-AllTry (a ∷ rest) deduped (h, all) also = elim (Bool-cases (contains_attempt deduped a)) [
      | inl seen ↦ rw (seen, dedup) (dedup-AllTry rest deduped all also)
      | inr new ↦
          rw (new, dedup)
            (dedup-AllTry rest (deduped ++ a ∷ []) all
              (AllTry-append deduped (a ∷ []) also (h, tt)))
    ]

  within :
      (quality : Quality) (policy : FormatPolicy)
      → All
          (λ (a : FallbackAttempt). IsWithin quality a.video_quality)
          (dedup (all_attempts policy (quality_fallback_chain quality)) [])
  within quality policy =
      dedup-AllTry (IsWithin quality) policy (all_attempts policy (quality_fallback_chain quality))
        []
        (all_attempts-AllTry (IsWithin quality) policy (quality_fallback_chain quality)
          (quality_fallback_chain-IsWithin quality))
        tt

  fallback_attempts-IsWithin :
      (quality : Quality) (preset : OutputPreset)
      → All
          (λ (a : FallbackAttempt). IsWithin quality a.video_quality)
          (fallback_attempts (policy_from quality preset))
  unfolding fallback_attempts policy_from
  fallback_attempts-IsWithin quality auto = within quality (policy_from quality auto)
  fallback_attempts-IsWithin quality browser = within quality (policy_from quality browser)
  fallback_attempts-IsWithin quality tv = within quality (policy_from quality tv)

  fallback_attempts_ends :
      (quality : Quality) (preset : OutputPreset)
      → ((first : FallbackAttempt) × (head (fallback_attempts (policy_from quality preset))
            ≡ some first)
          × Aims quality first.video_quality)
        × (last (fallback_attempts (policy_from quality preset)) ≡ some anything)
  unfolding fallback_attempts policy_from FallbackAttempt-discrete requested_height
      quality_fallback_chain all_attempts dedup
  fallback_attempts_ends best auto = ((_, refl, inl (refl, refl)), refl)
  fallback_attempts_ends best browser = ((_, refl, inl (refl, refl)), refl)
  fallback_attempts_ends best tv = ((_, refl, inl (refl, refl)), refl)
  fallback_attempts_ends q4320p auto =
      ((_, refl, inr ((λ e. absurd cc), targets.custom_is 4320)), refl)
  fallback_attempts_ends q4320p browser =
      ((_, refl, inr ((λ e. absurd cc), targets.custom_is 4320)), refl)
  fallback_attempts_ends q4320p tv =
      ((_, refl, inr ((λ e. absurd cc), targets.custom_is 4320)), refl)
  fallback_attempts_ends q2160p auto =
      ((_, refl, inr ((λ e. absurd cc), targets.custom_is 2160)), refl)
  fallback_attempts_ends q2160p browser =
      ((_, refl, inr ((λ e. absurd cc), targets.custom_is 2160)), refl)
  fallback_attempts_ends q2160p tv =
      ((_, refl, inr ((λ e. absurd cc), targets.custom_is 2160)), refl)
  fallback_attempts_ends q1440p auto =
      ((_, refl, inr ((λ e. absurd cc), targets.custom_is 1440)), refl)
  fallback_attempts_ends q1440p browser =
      ((_, refl, inr ((λ e. absurd cc), targets.custom_is 1440)), refl)
  fallback_attempts_ends q1440p tv =
      ((_, refl, inr ((λ e. absurd cc), targets.custom_is 1440)), refl)
  fallback_attempts_ends q1080p auto =
      ((_, refl, inr ((λ e. absurd cc), targets.custom_is 1080)), refl)
  fallback_attempts_ends q1080p browser =
      ((_, refl, inr ((λ e. absurd cc), targets.custom_is 1080)), refl)
  fallback_attempts_ends q1080p tv =
      ((_, refl, inr ((λ e. absurd cc), targets.custom_is 1080)), refl)
  fallback_attempts_ends q720p auto =
      ((_, refl, inr ((λ e. absurd cc), targets.custom_is 720)), refl)
  fallback_attempts_ends q720p browser =
      ((_, refl, inr ((λ e. absurd cc), targets.custom_is 720)), refl)
  fallback_attempts_ends q720p tv = ((_, refl, inr ((λ e. absurd cc), targets.custom_is 720)), refl)
  fallback_attempts_ends q480p auto =
      ((_, refl, inr ((λ e. absurd cc), targets.custom_is 480)), refl)
  fallback_attempts_ends q480p browser =
      ((_, refl, inr ((λ e. absurd cc), targets.custom_is 480)), refl)
  fallback_attempts_ends q480p tv = ((_, refl, inr ((λ e. absurd cc), targets.custom_is 480)), refl)
  fallback_attempts_ends audio_only auto =
      ((_, refl, inr ((λ e. absurd cc), targets.worst_is)), refl)
  fallback_attempts_ends audio_only browser =
      ((_, refl, inr ((λ e. absurd cc), targets.worst_is)), refl)
  fallback_attempts_ends audio_only tv = ((_, refl, inr ((λ e. absurd cc), targets.worst_is)), refl)

  -- For every quality and preset, no attempt aims above the profile's height, or at the best quality
  -- unless the profile does; the first one aims at the profile's height, or at the best quality for a
  -- profile that does, or at no height for one without; and the last one takes any codec at the
  -- worst quality.
  pub fallback_attempts-IsFallback :
      (quality : Quality) (preset : OutputPreset)
      → IsFallback quality (fallback_attempts (policy_from quality preset))
  fallback_attempts-IsFallback quality preset =
      let (aims, ends) = fallback_attempts_ends quality preset in
      (fallback_attempts-IsWithin quality preset, aims, ends)
