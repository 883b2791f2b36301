-- ===== src/Ytdlp/Examples.antt =====
-- Examples of the attempts of a download and of its output path.
use hofvarpnir.Base.{
  Option, ℕ, suc, ◌≡◌, refl, Bool, true, false, none, some, ℤ, pos, [], ◌∷◌, ok, err, ◌⊎◌, ◌==◌,
  ltb,
}
use hofvarpnir.Clock.{hours}
use hofvarpnir.Samples.{calendar}
use hofvarpnir.Gate.{q720p, q1080p, QualityGate, evaluate}
use hofvarpnir.Gate
use hofvarpnir.Gate.Decision.{IsReady}
use hofvarpnir.Text.{codes, strip_prefix, equal_text, split, split_after, format, digits}
use hofvarpnir.Ytdlp.{
  VideoQuality, best_video, high, medium, low, worst, custom_height, browser, policy_from,
  quality_pending,
}
use hofvarpnir.Ytdlp.Fallback.{fallback_attempts}
use hofvarpnir.Ytdlp.Template.{
  OutputTemplateData, extension, replace, replace_after, sanitize_filename_component,
  replace_placeholders, segments_of, drop_duplicates, with_extension, finish,
  render_output_relative_path,
}
use hofvarpnir.Ytdlp.Rendered.{IsRendered, render_output_relative_path-IsRendered}
use hofvarpnir.Ytdlp.Download.{
  FetchedVideo, available_height, other_error, Backend, download_video_to_dir,
}
use hofvarpnir.Ytdlp.Held.{is_pending, download_video_to_dir-held}
use hofvarpnir.Ytdlp.Attempts.{Targets, IsFallback, fallback_attempts-IsFallback}

abbrev documented : VideoQuality → Option ℤ
documented best_video = none
documented high = some (pos 1080)
documented medium = some (pos 720)
documented low = some (pos 480)
documented worst = none
documented (custom_height h) = some (pos h)

abbrev targets : Targets
targets = record {
  target_height_for = documented;
  high_is = refl;
  medium_is = refl;
  low_is = refl;
  worst_is = refl;
  custom_is = λ h. refl;
}

fallback_attempts-IsFallback_example :
    IsFallback targets q720p (fallback_attempts (policy_from q720p browser))
fallback_attempts-IsFallback_example = fallback_attempts-IsFallback targets q720p browser

-- ASCII characters.
abbrev is_whitespace : ℕ → Bool
is_whitespace c = c == b' '

abbrev is_control : ℕ → Bool
is_control c = ltb c 32

abbrev episode : OutputTemplateData
episode = record {
  source_name = codes "F1 Channel";
  season_year = codes "2026";
  episode_year = codes "2026";
  episode_date = codes "20260318";
  episode_index = 7;
  fallback_title = codes "A video";
}

render_output_relative_path-IsRendered_example :
    IsRendered (policy_from q1080p browser).container_ext true (
      render_output_relative_path is_whitespace is_control
        (codes "../{title}/{id}")
        (codes "a/b:c*?")
        (codes "id/1")
        episode
        (policy_from q1080p browser).container_ext
        true)
render_output_relative_path-IsRendered_example =
    render_output_relative_path-IsRendered is_whitespace is_control (refl, refl, refl)
      (codes "../{title}/{id}") (codes "a/b:c*?") (codes "id/1") episode q1080p browser true

-- The repository's own test of a template that names the extension twice.
doubled_extension :
    render_output_relative_path is_whitespace is_control
      (codes "{title}-{id}.{ext}.%(ext)s")
      (codes "F1 overtakes")
      (codes "Hx4xrg6wVNI")
      episode
      (codes "mkv")
      true
    ≡ codes "F1 overtakes-Hx4xrg6wVNI.mkv" ∷ []
unfolding render_output_relative_path replace_placeholders sanitize_filename_component replace
    replace_after strip_prefix segments_of split split_after equal_text finish drop_duplicates
    with_extension extension format digits
doubled_extension = refl

-- A placeholder in the title is replaced as if the template had it.
title_replaced :
    render_output_relative_path is_whitespace is_control
      (codes "{{ title }}")
      (codes "Top {year}")
      (codes "x1")
      episode
      (codes "mkv")
      true
    ≡ codes "Top 2026.mkv" ∷ []
unfolding render_output_relative_path replace_placeholders sanitize_filename_component replace
    replace_after strip_prefix segments_of split split_after equal_text finish drop_duplicates
    with_extension extension format digits
title_replaced = refl

abbrev gate : QualityGate
gate = record {
  target_height = pos 1080;
  deadline = hours 34;
  source_best_height = some (pos 1080);
}

abbrev processed_to : ℤ → FetchedVideo
processed_to h = record {
  id = codes "x1";
  title = codes "Race";
  select_height = λ quality codec. some h;
}

-- The attempts are counted, and each fails.
abbrev backend : Backend calendar is_whitespace is_control (λ s. s) (Unit {0}) ℕ
backend = record {
  output_dir_fault = none;
  fetched = ok (processed_to (pos 720));
  now = hours 30;
  subdirectory_fault = none;
  remove_leftover = λ path n. (ok tt, n);
  run = λ path a n. (err (other_error "no format"), suc n);
}

download_video_to_dir-held_example :
    (IsReady calendar gate
        (available_height (processed_to (pos 720)) (fallback_attempts (policy_from q1080p browser)))
        (hours 30)
      × (is_pending calendar is_whitespace is_control
            (λ s. s)
            (Unit {0})
            ℕ
            backend
            (policy_from q1080p browser)
            (codes "{title}")
            episode
            (processed_to (pos 720))
            (download_video_to_dir calendar is_whitespace is_control
              (λ s. s)
              (Unit {0})
              ℕ
              backend
              (policy_from q1080p browser)
              (codes "{title}")
              episode
              (some gate)
              0).0
          ≡ false))
    ⊎ ((¬ IsReady calendar gate
          (available_height
            (processed_to (pos 720))
            (fallback_attempts (policy_from q1080p browser)))
          (hours 30))
        × ((r : ℕ) × (evaluate calendar gate
                (available_height
                  (processed_to (pos 720))
                  (fallback_attempts (policy_from q1080p browser)))
                (hours 30)
              ≡ Gate.wait r)
            × (download_video_to_dir calendar is_whitespace is_control
                  (λ s. s)
                  (Unit {0})
                  ℕ
                  backend
                  (policy_from q1080p browser)
                  (codes "{title}")
                  episode
                  (some gate)
                  0
                ≡ (
                  err (
                      quality_pending
                        (available_height
                          (processed_to (pos 720))
                          (fallback_attempts (policy_from q1080p browser)))
                        (pos 1080)
                        r),
                  0,
                ))))
download_video_to_dir-held_example =
    download_video_to_dir-held calendar is_whitespace is_control (λ s. s) (Unit {0}) ℕ backend
      (policy_from q1080p browser) (codes "{title}") episode gate (processed_to (pos 720)) 0 refl
      refl
