-- ===== src/Worker/Published.antt =====
-- A download that succeeds (actors/download_worker.rs).
use Prim.Native.String.{◌++◌ as ◌++s◌}
use hofvarpnir.Base.{
  ◌≡◌, refl, ap, subst, sym, ◌∙◌, true, false, Option, none, some, Result, ok, err, Bool-cases, ◌⊎◌,
  inl, inr,
}
use hofvarpnir.Clock.{Calendar}
use hofvarpnir.Videos.{Video, DeliveredVideo}
use hofvarpnir.Database.{World, DbError, mark_video_completed}
use hofvarpnir.Verify.{Float, Media, VerificationError, verify_media}
use hofvarpnir.Supervisor.State.{DownloadOutcome, success, failure}
use hofvarpnir.Worker.{
  execution_failed, FilePath, strip_path, DownloadConfig, DownloadResult, incomplete_dir,
  completed_dir,
}
use hofvarpnir.Ytdlp.{download_verification_failed}
use hofvarpnir.Worker.Files.{Moving, move_to_completed}
use hofvarpnir.Worker.Recorded.{IsCompleted, mark_video_completed-IsRecorded}
use hofvarpnir.Worker.Moved.{IsMoved, move_to_completed-IsMoved}
use hofvarpnir.Worker.Allowed.{completed_path}
use hofvarpnir.Worker.Download.{
  Site, Replies, expectations, delivered_at, reject_if_unverified, publish, handle_success,
}

module _ (c : Calendar) (float : Float) (File : Type 0) (media : Option File → Media float)
    (replies : Replies c float File media) (config : DownloadConfig) (v : Video)
    (result : DownloadResult) where
  -- The file that the client named, at its place below `completed/` and no longer where it was, and
  -- the write of the completed row, which ended in an error or has completed the row with that place.
  abbrev pub IsPublished : (before after : Site c float File media) → Type 0
  IsPublished before after =
      (rest : FilePath) × (file : File) × (strip_path (incomplete_dir config) result.file_path
        ≡ some rest)
      × (before.disk result.file_path ≡ some file)
      × (after.disk (completed_path config.output_dir rest) ≡ some file)
      × (after.disk result.file_path ≡ none)
      × (after.world
          ≡ (mark_video_completed replies.ended v.id
              (delivered_at c float File media
                (replies.to_string_lossy (completed_path config.output_dir rest)) result)
              before.world).1)
      × (((e : DbError) × ((mark_video_completed replies.ended v.id
                (delivered_at c float File media
                  (replies.to_string_lossy (completed_path config.output_dir rest)) result)
                before.world).0
              ≡ err e))
          ⊎ IsCompleted replies.ended v.id
              (delivered_at c float File media
                (replies.to_string_lossy (completed_path config.output_dir rest)) result)
              after.world)

  publish-IsPublished :
      (s : Site c float File media)
      → (publish c float File media replies config v result s).0 ≡ success v.id
      → IsPublished s (publish c float File media replies config v result s).1
  unfolding publish
  publish-IsPublished s succeeds =
      go
        (move_to_completed File replies.move result.file_path (incomplete_dir config)
          (completed_dir config) s.disk)
        refl (move_to_completed-IsMoved File replies.move result.file_path config.output_dir s.disk)
    where
      place : FilePath → DeliveredVideo
      place rest =
          delivered_at c float File media
            (replies.to_string_lossy (completed_path config.output_dir rest)) result

      recorded :
          (rest : FilePath) {w : World}
          → w ≡ (mark_video_completed replies.ended v.id (place rest) s.world).1
          → ((e : DbError) × ((mark_video_completed replies.ended v.id (place rest) s.world).0
                ≡ err e))
            ⊎ IsCompleted replies.ended v.id (place rest) w
      recorded rest told =
          subst
            (λ (u : World).
              ((e : DbError) × ((mark_video_completed replies.ended v.id (place rest) s.world).0
                  ≡ err e))
              ⊎ IsCompleted replies.ended v.id (place rest) u)
            (sym told) (mark_video_completed-IsRecorded replies.ended v.id (place rest) s.world)

      go :
          (m : Moving File)
          → move_to_completed File replies.move result.file_path
              (incomplete_dir config)
              (completed_dir config)
              s.disk
            ≡ m
          → IsMoved File s.disk config.output_dir result.file_path m
          → IsPublished s (publish c float File media replies config v result s).1
      go (ok path, d) is (rest, below, (named, (file, had, has), gone)) =
          simp (is, publish)
            (let told =
                ap
                  (λ (p : FilePath).
                    (mark_video_completed replies.ended v.id
                      (delivered_at c float File media (replies.to_string_lossy p) result)
                      s.world).1)
                  named in
              (rest, file, below, had, has, gone, told, recorded rest told))
      go (err e, d) is moved =
          let fails : (publish c float File media replies config v result s).0
              ≡ execution_failed v.id
                  ("Downloaded media but failed to move file into completed directory: " ++s e) =
            simp (is, publish) refl in
          absurd (cc)

  by_publish :
      (s : Site c float File media)
      → handle_success c float File media replies config v result s
        ≡ publish c float File media replies config v result s
      → (handle_success c float File media replies config v result s).0 ≡ success v.id
      → IsPublished s (handle_success c float File media replies config v result s).1
  by_publish s runs succeeds =
      subst (λ (m : DownloadOutcome × Site c float File media). IsPublished s m.1) (sym runs)
        (publish-IsPublished s
          (sym (ap (λ (m : DownloadOutcome × Site c float File media). m.0) runs) ∙ succeeds))

-- If a download is reported as a success, the file that the client named has moved from `incomplete/`
-- to the same place below `completed/`; the verification, where it is on, accepts the file; and the
-- write of the completed row with that place either was answered with an error, which is not
-- reported, or has left the row completed and naming that place.
pub handle_success-IsPublished :
    (c : Calendar) (float : Float) (File : Type 0) (media : Option File → Media float)
    (replies : Replies c float File media) (config : DownloadConfig) (v : Video)
    (result : DownloadResult) (s : Site c float File media)
    → (handle_success c float File media replies config v result s).0 ≡ success v.id
    → IsPublished c float File media replies config v result s
        (handle_success c float File media replies config v result s).1
      × ((config.verify_downloads ≡ false)
          ⊎ (verify_media float
                (media (s.disk result.file_path))
                (expectations c float File media config v)
              ≡ ok tt))
unfolding handle_success reject_if_unverified
handle_success-IsPublished c float File media replies config v result s succeeds =
    go (Bool-cases config.verify_downloads)
      (verify_media float (media (s.disk result.file_path))
        (expectations c float File media config v))
      refl
  where
    go :
        (config.verify_downloads ≡ true) ⊎ (config.verify_downloads ≡ false)
        → (r : Result (VerificationError float) (Unit {0}))
        → verify_media float
            (media (s.disk result.file_path))
            (expectations c float File media config v)
          ≡ r
        → IsPublished c float File media replies config v result s
            (handle_success c float File media replies config v result s).1
          × ((config.verify_downloads ≡ false)
              ⊎ (verify_media float
                    (media (s.disk result.file_path))
                    (expectations c float File media config v)
                  ≡ ok tt))
    go (inr off) r is = (
      by_publish c float File media replies config v result s (simp (off, handle_success) refl)
          succeeds,
      inl off,
    )
    go (inl on) (ok u) is = (
      by_publish c float File media replies config v result s
          (simp (on, is, handle_success, reject_if_unverified) refl) succeeds,
      inr is,
    )
    go (inl on) (err e) is =
        let fails : (handle_success c float File media replies config v result s).0
            ≡ failure v.id ("Downloaded file failed verification: " ++s replies.show_verification e)
                (some download_verification_failed) false =
          simp (on, is, handle_success, reject_if_unverified) refl in
        absurd (cc)
