-- ===== src/Worker/Library.antt =====
-- What a download puts into `completed/` (actors/download_worker.rs).
use Prim.Native.String.{String}
use hofvarpnir.Base.{
  ◌≡◌, refl, sym, Bool, true, false, Option, none, some, List, [], ◌∷◌, ◌++◌, Result, ok, err, ◌⊎◌,
  inl, inr,
}
use hofvarpnir.Clock.{Calendar}
use hofvarpnir.Videos.{Video}
use hofvarpnir.Database.{World, DbError, mark_video_downloading}
use hofvarpnir.Verify.{Float, Media, VerificationError, verify_media}
use hofvarpnir.Supervisor.State.{DownloadOutcome}
use hofvarpnir.Worker.{
  FilePath, DownloadConfig, DownloadResult, DownloadRequest, incomplete_dir, completed_dir,
}
use hofvarpnir.Worker.Files.{Disk, put_file, move_to_completed}
use hofvarpnir.Worker.Paths.{incomplete_apart}
use hofvarpnir.Worker.Allowed.{
  completed_path, AllAllowed, put_file-AllAllowed, move_to_completed-AllAllowed,
}
use hofvarpnir.Worker.Download.{
  Site, Client, DownloadReply, finished, refused, timed_out, Replies, write_all, expectations,
  reject_if_unverified, publish, handle_success, handle_reply, download, request, execute_download,
}

module _ (c : Calendar) (float : Float) (File : Type 0) (media : Option File → Media float)
    (replies : Replies c float File media) (config : DownloadConfig) (v : Video)
    (before : Disk File) where
  -- The file was there, or is one that the verification accepts, or is what a copy left that failed.
  abbrev pub Allowed : FilePath → File → Type 0
  Allowed rest file =
      (before (completed_path config.output_dir rest) ≡ some file)
      ⊎ ((verify_media float (media (some file)) (expectations c float File media config v) ≡ ok tt)
          ⊎ ((e : String) × (replies.move.copy_fault ≡ some (e, some file))))

  abbrev Stays : Disk File → Type 0
  Stays = AllAllowed File config.output_dir Allowed

  write_all-Stays :
      (writes : List (FilePath × Option File)) (disk : Disk File)
      → Stays disk
      → Stays (write_all c float File media (incomplete_dir config) writes disk)
  unfolding write_all
  write_all-Stays [] disk all = all
  write_all-Stays ((path, file) ∷ writes) disk all =
      write_all-Stays writes (put_file File (incomplete_dir config ++ path) file disk) (
        put_file-AllAllowed File config.output_dir Allowed (incomplete_dir config ++ path) file disk
          (λ rest f same is. absurd (cc (same, incomplete_apart config.output_dir path rest))) all)

  abbrev HoldsGood : DownloadResult → Disk File → Type 0
  HoldsGood result disk =
      (file : File)
      → disk result.file_path ≡ some file
      → verify_media float (media (some file)) (expectations c float File media config v) ≡ ok tt

  publish-Stays :
      (result : DownloadResult) (s : Site c float File media)
      → HoldsGood result s.disk
      → Stays s.disk
      → Stays (publish c float File media replies config v result s).1.disk
  unfolding publish
  publish-Stays result s good all =
      go
        (move_to_completed File replies.move result.file_path (incomplete_dir config)
          (completed_dir config) s.disk).0
        refl
        (move_to_completed-AllAllowed File config.output_dir Allowed replies.move result.file_path
          (incomplete_dir config) (completed_dir config) s.disk
          ((λ rest file has. inr (inl (good file has))), (λ rest e file left. inr (inr (e, left))))
          all)
    where
      go :
          (m : Result String FilePath)
          → (move_to_completed File replies.move result.file_path
              (incomplete_dir config)
              (completed_dir config)
              s.disk).0
            ≡ m
          → Stays
              (move_to_completed File replies.move result.file_path
                (incomplete_dir config)
                (completed_dir config)
                s.disk).1
          → Stays (publish c float File media replies config v result s).1.disk
      go (ok path) is after = rw (is, publish) after
      go (err e) is after = rw (is, publish) after

  reject_if_unverified-Stays :
      (result : DownloadResult) (disk : Disk File)
      → Stays disk
      → Stays (reject_if_unverified c float File media replies config v result disk).1
        × ((reject_if_unverified c float File media replies config v result disk).0 ≡ none
            → HoldsGood result
                (reject_if_unverified c float File media replies config v result disk).1)
  unfolding reject_if_unverified
  reject_if_unverified-Stays result disk all =
      go
        (verify_media float (media (disk result.file_path))
          (expectations c float File media config v))
        refl replies.discard_fails refl
    where
      go :
          (r : Result (VerificationError float) (Unit {0}))
          → verify_media float
              (media (disk result.file_path))
              (expectations c float File media config v)
            ≡ r
          → (fails : Bool) → replies.discard_fails ≡ fails
          → Stays (reject_if_unverified c float File media replies config v result disk).1
            × ((reject_if_unverified c float File media replies config v result disk).0 ≡ none
                → HoldsGood result
                    (reject_if_unverified c float File media replies config v result disk).1)
      go (ok u) is fails is' = rw (is, reject_if_unverified) (all, λ e file has. rw (sym has) is)
      go (err e) is true is' = rw (is, is', reject_if_unverified) (all, λ h. absurd (cc))
      go (err e) is false is' =
          rw (is, is', reject_if_unverified)
            (
              put_file-AllAllowed File config.output_dir Allowed result.file_path none disk
                  (λ rest f same leaves. absurd (cc)) all,
              λ h. absurd (cc),
            )

  handle_success-Stays :
      config.verify_downloads ≡ true
      → (result : DownloadResult) (s : Site c float File media) → Stays s.disk
      → Stays (handle_success c float File media replies config v result s).1.disk
  unfolding handle_success
  handle_success-Stays verifies result s all =
      let (after, good) = reject_if_unverified-Stays result s.disk all in
      go (reject_if_unverified c float File media replies config v result s.disk).0 refl after good
    where
      disk : Disk File
      disk = (reject_if_unverified c float File media replies config v result s.disk).1

      go :
          (r : Option DownloadOutcome)
          → (reject_if_unverified c float File media replies config v result s.disk).0 ≡ r
          → Stays disk
          → ((reject_if_unverified c float File media replies config v result s.disk).0 ≡ none
              → HoldsGood result disk)
          → Stays (handle_success c float File media replies config v result s).1.disk
      go (some failed) is after good = simp (verifies, is, handle_success) after
      go none is after good =
          simp (verifies, is, handle_success)
            (publish-Stays result (record { world = s.world; disk = disk }) (good is) after)

  handle_reply-Stays :
      config.verify_downloads ≡ true
      → (reply : DownloadReply c float File media) (s : Site c float File media) → Stays s.disk
      → Stays (handle_reply c float File media replies config v reply s).1.disk
  unfolding handle_reply
  handle_reply-Stays verifies (finished result) s all = handle_success-Stays verifies result s all
  handle_reply-Stays verifies (refused e) s all = all
  handle_reply-Stays verifies timed_out s all = all

  download-Stays :
      config.verify_downloads ≡ true
      → (asked : DownloadRequest × World) (disk : Disk File) → Stays disk
      → Stays (download c float File media replies config v asked disk).1.disk
  unfolding download
  download-Stays verifies (asked, w) disk all =
      let client : Client c float File media = replies.client asked in
      handle_reply-Stays verifies client.reply
        (record {
          world = w;
          disk = write_all c float File media (incomplete_dir config) client.writes disk;
        })
        (write_all-Stays client.writes disk all)

-- Whatever the client, the file system and the database answer: if downloads are verified, then each
-- file that `completed/` holds after a download was there before it, or is one that the verification
-- accepts, or is what a copy to another device left that failed.
pub execute_download-verified :
    (c : Calendar) (float : Float) (File : Type 0) (media : Option File → Media float)
    (replies : Replies c float File media) (config : DownloadConfig) (v : Video)
    (s : Site c float File media)
    → config.verify_downloads ≡ true
    → (rest : FilePath) (file : File)
    → (execute_download c float File media replies config v s).1.disk
        (completed_path config.output_dir rest)
      ≡ some file
    → Allowed c float File media replies config v s.disk rest file
unfolding execute_download
execute_download-verified c float File media replies config v s verifies =
    go (mark_video_downloading replies.started v.id s.world).0 refl
  where
    all :
        AllAllowed File config.output_dir
          (Allowed c float File media replies config v s.disk)
          s.disk
    all rest file is = inl is

    w : World
    w = (mark_video_downloading replies.started v.id s.world).1

    go :
        (m : Result DbError (Unit {0}))
        → (mark_video_downloading replies.started v.id s.world).0 ≡ m
        → AllAllowed File config.output_dir
            (Allowed c float File media replies config v s.disk)
            (execute_download c float File media replies config v s).1.disk
    go (err e) is = simp (is, execute_download) all
    go (ok u) is =
        simp (is, execute_download)
          (download-Stays c float File media replies config v s.disk verifies
            (request c float File media config v w) s.disk all)
