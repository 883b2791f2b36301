-- ===== src/Worker/Recorded.antt =====
-- What the completion of a video leaves in its row (`mark_video_completed` of db/video.rs).
use hofvarpnir.Base.{
  ℕ, ◌≡◌, refl, Bool, true, false, Bool-cases, ◌⊎◌, inl, inr, some, List, [], ◌∷◌, ◌==◌, err, arith,
}
use hofvarpnir.Videos.{
  Video, DeliveredVideo, completed, set_completed, has_id, find_by_id, update_by_id,
}
use hofvarpnir.Database.{
  World, DbError, Fault, served, refused, unacknowledged, execute_by_id, mark_video_completed,
  not_found, query_failed,
}

module _ (now id : ℕ) (d : DeliveredVideo) where
  -- The row of the video is completed and names the delivered file.
  abbrev pub IsCompleted : World → Type 0
  IsCompleted w =
      (row : Video) × (find_by_id id w.videos ≡ some row)
      × (row.status ≡ completed)
      × (row.file_path ≡ some d.file_path)

  -- The completion was answered with an error, or it has completed the row.
  abbrev pub IsRecorded : (before : World) → Type 0
  IsRecorded before =
      ((e : DbError) × ((mark_video_completed now id d before).0 ≡ err e))
      ⊎ IsCompleted (mark_video_completed now id d before).1

  completed_row :
      (vs : List Video)
      → has_id id vs ≡ true
      → (row : Video) × (find_by_id id (update_by_id now id (set_completed now d) vs) ≡ some row)
        × (row.status ≡ completed)
        × (row.file_path ≡ some d.file_path)
  unfolding has_id find_by_id update_by_id set_completed
  completed_row [] has = absurd (cc)
  completed_row (v ∷ vs) has = elim (Bool-cases (v.id == id)) [
    | inl same ↦
        (record (set_completed now d v) { updated_at = now }, ground (arith, same), refl, refl)
    | inr other ↦
        let (row, found, is, at) = completed_row vs (ground (arith, has, other)) in
        (row, ground (arith, other, found), is, at)
  ]

  pub mark_video_completed-IsRecorded : (w : World) → IsRecorded w
  unfolding mark_video_completed execute_by_id
  mark_video_completed-IsRecorded w = go w.faults refl (has_id id w.videos) refl
    where
      go :
          (faults : List Fault)
          → w.faults ≡ faults
          → (has : Bool) → has_id id w.videos ≡ has
          → IsRecorded w
      go [] is true has = inr (
          let (row, found, done, at) = completed_row w.videos has in
          (row, rw (is, has) found, done, at))
      go [] is false has = inl (not_found, rw (is, has) refl)
      go (served ∷ faults) is true has = inr (
          let (row, found, done, at) = completed_row w.videos has in
          (row, rw (is, has) found, done, at))
      go (served ∷ faults) is false has = inl (not_found, rw (is, has) refl)
      go (refused e ∷ faults) is has here = inl (query_failed e, rw (is) refl)
      go (unacknowledged e ∷ faults) is has here = inl (query_failed e, rw (is) refl)
