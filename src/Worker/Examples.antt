-- ===== src/Worker/Examples.antt =====
-- Examples of a download.
use Prim.Native.String.{String}
use hofvarpnir.Base.{
  ℕ, suc, if◌then◌else◌, Result, ◌≡◌, ◌⊎◌, refl, Bool, true, false, Option, none, some, List, [],
  ◌∷◌, pos, ok, err,
}
use hofvarpnir.Text.{codes, equal_text}
use hofvarpnir.Samples.{calendar, video, world, seconds, clip}
use hofvarpnir.Gate.{q1080p}
use hofvarpnir.Verify.{
  Media, verify_media, run_probe, read_lines, check_probe, check_streams, check_duration,
  usable_duration, run_demux, scan_for_zero_runs, scan_reads, scan_chunk,
}
use hofvarpnir.Videos.{
  Video, VideoStatus, downloading, find_by_id, has_id, update_by_id, set_downloading, set_completed,
}
use hofvarpnir.Database.{
  served, refused, mark_video_downloading, mark_video_completed, execute_by_id,
}
use hofvarpnir.Cleanup.{list_videos_for_source}
use hofvarpnir.Supervisor.State.{success, failure}
use hofvarpnir.Ytdlp.{browser, format_unavailable, any_codec, policy_from}
use hofvarpnir.Ytdlp.Fallback.{
  FallbackAttempt, FallbackAttempt-discrete, AttemptError, try_next_stage, fallback_attempts,
  quality_fallback_chain, all_attempts, dedup, try_attempts, execute_fallback_attempts,
}
use hofvarpnir.Worker.Errors.{handle_error-attempts}
use hofvarpnir.Worker.{
  handle_error, build_template_data, quality_gate, video_skips_quality_gate,
  source_best_delivered_height, equal_path, DownloadConfig, DownloadResult,
}
use hofvarpnir.Worker.Files.{
  Disk, MoveReplies, renamed, rename_file, replace_file, move_to_completed,
}
use hofvarpnir.Worker.Download.{
  expectations, download, write_all, handle_reply, request, Site, finished, Replies,
  reject_if_unverified, publish, handle_success, execute_download,
}
use hofvarpnir.Worker.Library.{Allowed, execute_download-verified}
use hofvarpnir.Worker.Published.{IsPublished, handle_success-IsPublished}

-- A file is whole or damaged.
abbrev media : Option Bool → Media seconds
media (some true) = clip
media (some false) = record clip { open_error = some "damaged" }
media none = record clip { open_error = some "missing" }

abbrev config : DownloadConfig
config = record {
  quality = q1080p;
  output_preset = browser;
  output_dir = codes "media" ∷ [];
  source_id = 5;
  verify_downloads = true;
  quality_wait_hours = 24;
}

abbrev fetched : DownloadResult
fetched = record {
  file_path = codes "media" ∷ codes "incomplete" ∷ codes "a.mp4" ∷ [];
  file_size_bytes = pos 4000;
  video_height = some (pos 1080);
  video_codec = some "avc1";
}

abbrev moves : MoveReplies Bool
moves = record {
  directory_fault = none;
  exists_fault = none;
  clear_fault = none;
  rename_reply = renamed;
  copy_fault = none;
  remove_fault = none;
}

abbrev replies : Bool → Replies calendar seconds Bool media
replies whole = record {
  started = 9000;
  ended = 9500;
  client =
      λ asked. record { writes = (codes "a.mp4" ∷ [], some whole) ∷ []; reply = finished fetched };
  discard_fails = false;
  move = moves;
  show = λ e. "error";
  note = λ available target recheck_at. "waits";
  show_verification = λ e. "damaged";
  show_timeout = "Download timed out";
  to_string_lossy = λ path. "media/completed/a.mp4";
}

abbrev empty : Disk Bool
empty path = none

abbrev holding : Bool → Site calendar seconds Bool media
holding whole = record {
  world = world;
  disk = λ path. if equal_path path fetched.file_path then some whole else none;
}

handle_success-IsPublished_example :
    IsPublished calendar seconds Bool media
      (replies true)
      config
      video
      fetched
      (holding true)
      (handle_success calendar seconds Bool media
        (replies true)
        config
        video
        fetched
        (holding true)).1
    × ((config.verify_downloads ≡ false)
        ⊎ (verify_media seconds
              (media ((holding true).disk fetched.file_path))
              (expectations calendar seconds Bool media config video)
            ≡ ok tt))
unfolding handle_success reject_if_unverified publish verify_media run_probe read_lines check_probe
    check_streams check_duration usable_duration run_demux scan_for_zero_runs scan_reads scan_chunk
    move_to_completed replace_file rename_file equal_text
handle_success-IsPublished_example =
    handle_success-IsPublished calendar seconds Bool media (replies true) config video fetched
      (holding true) refl

execute_download-verified_example :
    Allowed calendar seconds Bool media (replies true) config video empty (codes "a.mp4" ∷ []) true
unfolding execute_download mark_video_downloading execute_by_id has_id update_by_id set_downloading
    download write_all handle_reply handle_success reject_if_unverified publish verify_media
    run_probe read_lines check_probe check_streams check_duration usable_duration run_demux
    scan_for_zero_runs scan_reads scan_chunk move_to_completed replace_file rename_file equal_text
execute_download-verified_example =
    execute_download-verified calendar seconds Bool media (replies true) config video
      (record { world = world; disk = empty }) refl (codes "a.mp4" ∷ []) true refl

-- A download that is damaged leaves nothing.
damaged_file :
    (execute_download calendar seconds Bool media
        (replies false)
        config
        video
        (record { world = world; disk = empty })).1.disk
      fetched.file_path
    ≡ none
unfolding execute_download mark_video_downloading execute_by_id has_id update_by_id set_downloading
    download write_all handle_reply handle_success reject_if_unverified publish verify_media
    run_probe read_lines check_probe check_streams check_duration usable_duration run_demux
    scan_for_zero_runs scan_reads scan_chunk move_to_completed replace_file rename_file equal_text
damaged_file = refl

-- The completion is refused: the download has succeeded and the row says `downloading`.
abbrev outage : Site calendar seconds Bool media
outage = record {
  world = record world { faults = served ∷ served ∷ served ∷ served ∷ refused "timed out" ∷ [] };
  disk = empty;
}

abbrev statuses : List Video → List VideoStatus
statuses [] = []
statuses (v ∷ vs) = v.status ∷ statuses vs

unrecorded :
    ((execute_download calendar seconds Bool media (replies true) config video outage).0
      ≡ success 7)
    × (statuses
          (execute_download calendar seconds Bool media
            (replies true)
            config
            video
            outage).1.world.videos
        ≡ downloading ∷ [])
unfolding execute_download mark_video_downloading execute_by_id has_id update_by_id set_downloading
    download write_all handle_reply handle_success reject_if_unverified publish verify_media
    run_probe read_lines check_probe check_streams check_duration usable_duration run_demux
    scan_for_zero_runs scan_reads scan_chunk move_to_completed replace_file rename_file equal_text
    request build_template_data quality_gate video_skips_quality_gate source_best_delivered_height
    mark_video_completed list_videos_for_source set_completed find_by_id
unrecorded = (refl, refl)

-- A site that answers that there were too many requests; the attempts are counted.
abbrev refusing : FallbackAttempt → ℕ → Result AttemptError ℕ × ℕ
refusing a n = (err (try_next_stage "HTTP Error 429: Too Many Requests"), suc n)

handle_error-attempts_example :
    (code : String) × (handle_error 7
        (λ e. "no format")
        (λ available target recheck_at. "waits")
        (format_unavailable browser q1080p (some any_codec) "HTTP Error 429: Too Many Requests")
      ≡ failure 7 "no format" (some code) false)
unfolding execute_fallback_attempts try_attempts fallback_attempts policy_from
    quality_fallback_chain all_attempts dedup FallbackAttempt-discrete
handle_error-attempts_example =
    handle_error-attempts refusing (policy_from q1080p browser)
      (fallback_attempts (policy_from q1080p browser)) 0 7 (λ e. "no format")
      (λ available target recheck_at. "waits")
      (format_unavailable browser q1080p (some any_codec) "HTTP Error 429: Too Many Requests") refl
