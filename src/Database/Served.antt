-- ===== src/Database/Served.antt =====
-- Queries while the database serves them.
use hofvarpnir.Base.{ℕ, ◌≡◌, ap, ◌∙◌, some, [], ok}
use hofvarpnir.Videos.{Video, find_by_id, list_videos_ready_for_download}
use hofvarpnir.Database.{
  World, Db, Source, Profile, query, under_faults, or_not_found, get_video, get_sources_for_video,
  get_source, get_profile, list_ready, linked_sources, find_source, find_profile,
}

query-served : {A : Type 0} (q : Db A) (w : World) → w.faults ≡ [] → query q w ≡ q w
query-served q w served = ap (λ fs. under_faults q fs w) served

pub get_video-served :
    (id : ℕ) (v : Video) (w : World)
    → w.faults ≡ []
    → find_by_id id w.videos ≡ some v
    → get_video id w ≡ (ok v, w)
unfolding get_video
get_video-served id v w served found =
    query-served (λ u. or_not_found (find_by_id id u.videos) u) w served
    ∙ ap (λ o. or_not_found o w) found

pub list_ready-served :
    (now : ℕ) (w : World)
    → w.faults ≡ []
    → list_ready now w ≡ (ok (list_videos_ready_for_download now w.videos), w)
unfolding list_ready
list_ready-served now w served =
    query-served (λ u. (ok (list_videos_ready_for_download now u.videos), u)) w served

pub get_sources_for_video-served :
    (id : ℕ) (w : World)
    → w.faults ≡ []
    → get_sources_for_video id w ≡ (ok (linked_sources id w.source_videos), w)
unfolding get_sources_for_video
get_sources_for_video-served id w served =
    query-served (λ u. (ok (linked_sources id u.source_videos), u)) w served

pub get_source-served :
    (id : ℕ) (s : Source) (w : World)
    → w.faults ≡ []
    → find_source id w.sources ≡ some s
    → get_source id w ≡ (ok s, w)
unfolding get_source
get_source-served id s w served found =
    query-served (λ u. or_not_found (find_source id u.sources) u) w served
    ∙ ap (λ o. or_not_found o w) found

pub get_profile-served :
    (id : ℕ) (p : Profile) (w : World)
    → w.faults ≡ []
    → find_profile id w.profiles ≡ some p
    → get_profile id w ≡ (ok p, w)
unfolding get_profile
get_profile-served id p w served found =
    query-served (λ u. or_not_found (find_profile id u.profiles) u) w served
    ∙ ap (λ o. or_not_found o w) found
