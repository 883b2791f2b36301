-- ===== src/Cleanup/Examples.antt =====
-- Examples of the cleanup.
use text.Mathlib.Text.{◌==◌ as ◌=s◌}
use hofvarpnir.Base.{
  ℕ, ◌≡◌, refl, not, ◌&&◌, ◌||◌, true, false, none, some, List, [], ◌∷◌, pos, any_if, ◌+ℤ◌, ◌-ℤ◌,
}
use hofvarpnir.Samples.{video, source, world}
use hofvarpnir.Videos.{
  Video, VideoStatus, completed, cleaned, find_by_id, has_id, update_by_id, set_status,
}
use hofvarpnir.Database.{
  World, Source, find_profile, execute_by_id, update_video_status, log_and_broadcast,
}
use hofvarpnir.Cleanup.{
  sources_of, effective_retention, keeps, is_past_retention, past_retention, is_pending_deletion,
  list_videos_past_retention, list_profiles, list_sources_for_profile, sources_for_profile,
  list_videos_for_source, videos_for_source,
}
use hofvarpnir.Cleanup.Run.{
  Cleaner, nothing, remove_video_file, clean_video, clean_each, cleanup_retention, count_videos,
  usage_of, calculate_profile_usage, insert_ids, protected_ids, add_candidates, candidates_of,
  get_profile_videos_by_age, evict, enforce_quota, enforce_each, enforce_quotas, run_cleanup,
}
use hofvarpnir.Cleanup.Due.{past_retention-pending}
use hofvarpnir.Cleanup.Excluded.{run_cleanup-excluded}
use hofvarpnir.Cleanup.Quota.{IsShortest, evict-IsShortest}

abbrev delivered : Video
delivered = record video {
  status = completed;
  file_path = some "a.mp4";
  file_size_bytes = some (pos 4000);
  downloaded_at = some 1000;
}

abbrev excluded : Source
excluded = record source { exclude_from_cleanup = true }

abbrev library : World
library = record world { videos = delivered ∷ []; sources = excluded ∷ [] }

abbrev disk : World → Cleaner
disk w = record { world = w; exists = λ path. path =s "a.mp4" }

past_retention-pending_example : is_past_retention library (some (pos 30)) 9000 delivered ≡ (
    not (any_if (λ (s : Source). s.exclude_from_cleanup) (sources_of library 7))
    && (not (any_if (λ (s : Source). true) (sources_of library 7))
        || is_pending_deletion library (some (pos 30)) none (some (pos 0)) 9000 delivered))
past_retention-pending_example =
    past_retention-pending library (some (pos 30)) 9000 1000 delivered refl refl

run_cleanup-excluded_example :
    find_by_id 7 (run_cleanup (λ path. false) (some (pos 0)) 9000 (disk library)).1.world.videos
    ≡ find_by_id 7 (delivered ∷ [])
unfolding find_by_id
run_cleanup-excluded_example =
    run_cleanup-excluded (λ path. false) (some (pos 0)) 9000 7 3 (disk library)
      (((λ h. refl), tt), refl, (delivered, refl))

evict-IsShortest_example :
    (n : ℕ) × IsShortest
      (λ path. false)
      9000
      (pos 3000)
      (delivered ∷ video ∷ [])
      nothing
      (disk library)
      n
evict-IsShortest_example =
    evict-IsShortest (λ path. false) 9000 (pos 3000) (delivered ∷ video ∷ []) nothing (disk library)

-- A video that a source of another profile protects is evicted by this profile's quota.
abbrev shared : World
shared = record library {
  sources = source ∷ record excluded { id = 6; profile_id = 4 } ∷ [];
  source_videos = (5, 7) ∷ (6, 7) ∷ [];
}

abbrev statuses : List Video → List VideoStatus
statuses [] = []
statuses (v ∷ vs) = v.status ∷ statuses vs

shared_evicted :
    statuses (run_cleanup (λ path. false) none 9000 (disk shared)).1.world.videos ≡ cleaned ∷ []
unfolding run_cleanup cleanup_retention enforce_quotas list_videos_past_retention past_retention
    is_past_retention keeps sources_of effective_retention find_profile clean_each clean_video
    list_profiles enforce_each enforce_quota calculate_profile_usage list_sources_for_profile
    sources_for_profile usage_of list_videos_for_source videos_for_source count_videos
    get_profile_videos_by_age protected_ids insert_ids candidates_of add_candidates evict
    remove_video_file update_video_status execute_by_id has_id update_by_id set_status
    log_and_broadcast ◌+ℤ◌ ◌-ℤ◌
shared_evicted = refl

-- A video that has lost its sources is deleted at once, though nothing says that it expires.
abbrev orphaned : World
orphaned = record library { source_videos = [] }

orphan_past : is_past_retention orphaned none 9000 delivered ≡ true
unfolding is_past_retention keeps sources_of effective_retention find_profile
orphan_past = refl
