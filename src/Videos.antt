-- ===== src/Videos.antt =====
-- crates/hof-core/src/domain/video.rs and the statements of crates/hof-core/src/db/video.rs, on
-- the rows of the `videos` table. Timestamps are those of the calendar, an id is a number, and
-- `now` is what the database reads for NOW().
pub mod Rows
pub mod Lifecycle
pub mod Sweep
mod Examples
use Prim.Native.String.{String}
use hofvarpnir.Base.{
  ℕ, ◌≤◌, ◌<◌, ◌≡◌, Bool, true, false, ◌&&◌, ◌||◌, Option, none, some, ℤ, pos, List, [], ◌∷◌, leb,
  ◌==◌, if◌then◌else◌, is_some_and, is_some, count_if, filter_if, add_one_ℤ, sub_one_or_zero,
}

pub data VideoStatus : Type 0 where
  pending awaiting_quality downloading completed failed skipped cleaned permanently_failed :
      VideoStatus

VideoStatus-discrete : Discrete VideoStatus
VideoStatus-discrete = hlevel

-- A row: the fields of `Video`, and the column `skip_quality_gate`.
pub record Video : Type 0 where
  pub id : ℕ
  pub platform : String
  pub platform_video_id : String
  pub title : String
  pub description : Option String
  pub duration_secs : Option ℤ
  pub published_at : Option ℕ
  pub thumbnail_url : Option String
  pub status : VideoStatus
  pub attempts : ℤ
  pub next_retry : Option ℕ
  pub last_error : Option String
  pub file_path : Option String
  pub file_size_bytes : Option ℤ
  pub video_height : Option ℤ
  pub video_codec : Option String
  pub downloaded_at : Option ℕ
  pub created_at : ℕ
  pub updated_at : ℕ
  pub skip_quality_gate : Bool

pub record DeliveredVideo : Type 0 where
  pub file_path : String
  pub file_size_bytes : ℤ
  pub video_height : Option ℤ
  pub video_codec : Option String

-- What an UPDATE with `WHERE id = $1` does to the table. The trigger on the table stamps each row
-- that it changes.
unfoldable pub update_by_id : ℕ → ℕ → (Video → Video) → List Video → List Video
update_by_id now id set [] = []
update_by_id now id set (v ∷ vs) =
    (if v.id == id then record (set v) { updated_at = now } else v) ∷ update_by_id now id set vs

unfoldable pub has_id : ℕ → List Video → Bool
has_id id [] = false
has_id id (v ∷ vs) = v.id == id || has_id id vs

unfoldable pub find_by_id : ℕ → List Video → Option Video
find_by_id id [] = none
find_by_id id (v ∷ vs) = if v.id == id then some v else find_by_id id vs

-- The SET clauses, one for each statement.

abbrev is_awaiting_quality : VideoStatus → Bool
is_awaiting_quality awaiting_quality = true
is_awaiting_quality _ = false

unfoldable pub set_status : VideoStatus → Video → Video
set_status s v = record v {
  status = s;
  next_retry = if is_awaiting_quality v.status then none else v.next_retry;
}

unfoldable pub set_downloading : Video → Video
set_downloading v = record v {
  status = downloading;
  attempts = add_one_ℤ v.attempts;
  next_retry = none;
  last_error = none;
}

unfoldable pub set_completed : ℕ → DeliveredVideo → Video → Video
set_completed now d v = record v {
  status = completed;
  file_path = some d.file_path;
  file_size_bytes = some d.file_size_bytes;
  video_height = d.video_height;
  video_codec = d.video_codec;
  downloaded_at = some now;
  next_retry = none;
  last_error = none;
}

unfoldable pub set_deferred : ℕ → String → Video → Video
set_deferred recheck_at note v = record v {
  status = awaiting_quality;
  attempts = sub_one_or_zero v.attempts;
  next_retry = some recheck_at;
  last_error = some note;
}

unfoldable pub set_failed : String → Option ℕ → Video → Video
set_failed error next_retry v = record v {
  status = if is_some next_retry then failed else permanently_failed;
  last_error = some error;
  next_retry = next_retry;
}

-- `release_from_quality_gate`, on a row in `awaiting_quality`.
unfoldable set_released : Video → Video
set_released v = record v {
  status = pending;
  next_retry = none;
  last_error = none;
  skip_quality_gate = true;
}

-- `reset_stuck_downloads`, on the whole table.
abbrev is_downloading : VideoStatus → Bool
is_downloading downloading = true
is_downloading _ = false

unfoldable reset_stuck_downloads : ℕ → List Video → List Video
reset_stuck_downloads now [] = []
reset_stuck_downloads now (v ∷ vs) =
    (if is_downloading v.status then record v { status = pending; updated_at = now } else v)
    ∷ reset_stuck_downloads now vs

-- The WHERE clause of `list_videos_ready_for_download`.
unfoldable pub is_ready : ℕ → Video → Bool
is_ready now v = elim v.status [
  | pending ↦ true
  | failed ↦ is_some_and v.next_retry (λ t. leb t now)
  | awaiting_quality ↦ is_some_and v.next_retry (λ t. leb t now)
  | _ ↦ false
]

-- ORDER BY created_at ASC: an insertion by the order; rows of one instant keep theirs.
insert_by_created_at : Video → List Video → List Video
insert_by_created_at v [] = v ∷ []
insert_by_created_at v (u ∷ us) =
    if leb v.created_at u.created_at then v ∷ u ∷ us else u ∷ insert_by_created_at v us

order_by_created_at : List Video → List Video
unfolding insert_by_created_at
order_by_created_at [] = []
order_by_created_at (v ∷ vs) = insert_by_created_at v (order_by_created_at vs)

unfoldable pub list_videos_ready_for_download : ℕ → List Video → List Video
unfolding order_by_created_at is_ready
list_videos_ready_for_download now vs = order_by_created_at (filter_if (is_ready now) vs)
