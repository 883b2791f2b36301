-- ===== src/Database.antt =====
-- The database as the actors use it: crates/hof-core/src/db/video.rs and the lookups of
-- db/source.rs and db/profile.rs. A query may fail in two ways, which `faults` chooses: it does
-- not run, or it runs and its reply is lost.
pub mod Served
use Prim.Native.String.{String}
use hofvarpnir.Base.{
  ℕ, ◌≡◌, Bool, true, false, Option, none, some, ℤ, pos, List, [], ◌∷◌, ◌==◌, if◌then◌else◌, Result,
  ok, err,
}
use hofvarpnir.Gate.{Quality}
use hofvarpnir.Videos.{
  Video, VideoStatus, DeliveredVideo, update_by_id, has_id, find_by_id, set_status, set_downloading,
  set_completed, set_deferred, set_failed, list_videos_ready_for_download,
}

-- The variants that the queries here return.
pub data DbError : Type 0 where
  not_found : DbError
  query_failed : String → DbError

unfoldable pub to_string : DbError → String
to_string not_found = "Entity not found"
to_string (query_failed e) = e

pub data Fault : Type 0 where
  served : Fault
  refused : String → Fault
  unacknowledged : String → Fault

-- crates/hof-core/src/domain/source.rs: the fields that a download or the cleanup reads.
pub record Source : Type 0 where
  pub id : ℕ
  pub profile_id : ℕ
  pub url : String
  pub custom_name : Option String
  pub exclude_from_cleanup : Bool
  pub retention_days : Option ℤ
  pub created_at : ℕ

-- crates/hof-core/src/domain/profile.rs: the fields that a download or the cleanup reads.
pub record Profile : Type 0 where
  pub id : ℕ
  pub quality : Quality
  pub quality_wait_hours : Option ℤ
  pub storage_quota_bytes : ℤ
  pub retention_days : Option ℤ
  pub created_at : ℕ

pub data ActivityEventType : Type 0 where
  download_started download_completed download_failed retry_scheduled video_cleaned :
      ActivityEventType

pub record Activity : Type 0 where
  event_type : ActivityEventType
  pub video_id : ℕ

-- The tables, the activity log (newest first), and what happens to the queries to come; past the
-- end of `faults` they are served.
pub record World : Type 0 where
  pub videos : List Video
  pub source_videos : List (ℕ × ℕ)
  pub sources : List Source
  pub profiles : List Profile
  pub activities : List Activity
  pub faults : List Fault

abbrev pub Db : Type 0 → Type 0
Db A = World → Result DbError A × World

abbrev pub under_faults : {A : Type 0} → Db A → List Fault → Db A
under_faults q [] w = q w
under_faults q (served ∷ rest) w = q (record w { faults = rest })
under_faults q (refused e ∷ rest) w = (err (query_failed e), record w { faults = rest })
under_faults q (unacknowledged e ∷ rest) w =
    (err (query_failed e), (q (record w { faults = rest })).1)

abbrev pub query : {A : Type 0} → Db A → Db A
query q w = under_faults q w.faults w

abbrev pub or_not_found : {A : Type 0} → Option A → World → Result DbError A × World
or_not_found none w = (err not_found, w)
or_not_found (some a) w = (ok a, w)

unfoldable pub get_video : ℕ → Db Video
get_video id = query (λ w. or_not_found (find_by_id id w.videos) w)

unfoldable pub list_ready : ℕ → Db (List Video)
list_ready now = query (λ w. (ok (list_videos_ready_for_download now w.videos), w))

unfoldable pub linked_sources : ℕ → List (ℕ × ℕ) → List ℕ
linked_sources video [] = []
linked_sources video ((s, v) ∷ links) =
    let rest = linked_sources video links in if v == video then s ∷ rest else rest

unfoldable pub get_sources_for_video : ℕ → Db (List ℕ)
unfolding linked_sources
get_sources_for_video id = query (λ w. (ok (linked_sources id w.source_videos), w))

unfoldable pub find_source : ℕ → List Source → Option Source
find_source id [] = none
find_source id (s ∷ ss) = if s.id == id then some s else find_source id ss

unfoldable pub get_source : ℕ → Db Source
unfolding find_source
get_source id = query (λ w. or_not_found (find_source id w.sources) w)

unfoldable pub find_profile : ℕ → List Profile → Option Profile
find_profile id [] = none
find_profile id (p ∷ ps) = if p.id == id then some p else find_profile id ps

unfoldable pub get_profile : ℕ → Db Profile
unfolding find_profile
get_profile id = query (λ w. or_not_found (find_profile id w.profiles) w)

-- An UPDATE by id, and `NotFound` if it changes no row.
unfoldable pub execute_by_id : ℕ → ℕ → (Video → Video) → Db (Unit {0})
execute_by_id now id set = query λ w.
    if has_id id w.videos
    then (ok tt, record w { videos = update_by_id now id set w.videos })
    else (err not_found, w)

unfoldable pub update_video_status : ℕ → ℕ → VideoStatus → Db (Unit {0})
unfolding execute_by_id
update_video_status now id s = execute_by_id now id (set_status s)

unfoldable pub mark_video_downloading : ℕ → ℕ → Db (Unit {0})
unfolding execute_by_id
mark_video_downloading now id = execute_by_id now id set_downloading

unfoldable pub mark_video_completed : ℕ → ℕ → DeliveredVideo → Db (Unit {0})
unfolding execute_by_id
mark_video_completed now id d = execute_by_id now id (set_completed now d)

unfoldable pub defer_video_for_quality : ℕ → ℕ → ℕ → String → Db (Unit {0})
unfolding execute_by_id
defer_video_for_quality now id recheck_at note = execute_by_id now id (set_deferred recheck_at note)

unfoldable pub mark_video_failed : ℕ → ℕ → String → Option ℕ → Db (Unit {0})
unfolding execute_by_id
mark_video_failed now id error next_retry = execute_by_id now id (set_failed error next_retry)

-- `log_and_broadcast`: a failed write of the log is swallowed.
unfoldable pub log_and_broadcast : ActivityEventType → ℕ → World → World
log_and_broadcast event id w =
    (query {A = Unit {0}}
      (λ u. (
        ok tt,
        record u { activities = record { event_type = event; video_id = id } ∷ u.activities },
      ))
      w).1
