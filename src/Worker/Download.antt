-- ===== src/Worker/Download.antt =====
-- The handler of `StartDownload` (crates/hof-core/src/actors/download_worker.rs).
use Prim.Native.String.{String}
use Prim.Native.String.{◌++◌ as ◌++s◌}
use hofvarpnir.Base.{
  ℕ, Bool, true, false, not, Option, none, some, ℤ, List, [], ◌∷◌, ◌++◌, if◌then◌else◌, ok, err,
}
use hofvarpnir.Clock.{Calendar}
use hofvarpnir.Gate.{Quality, audio_only}
use hofvarpnir.Videos.{Video, DeliveredVideo}
use hofvarpnir.Database.{World, to_string, mark_video_downloading, mark_video_completed}
use hofvarpnir.Verify.{Float, Media, Expectations, VerificationError, verify_media}
use hofvarpnir.Ytdlp.{YtdlpError, policy_from, download_verification_failed}
use hofvarpnir.Supervisor.State.{DownloadOutcome, success, failure}
use hofvarpnir.Worker.{
  FilePath, DownloadConfig, DownloadResult, DownloadRequest, incomplete_dir, completed_dir,
  quality_gate, build_template_data, handle_error, execution_failed,
}
use hofvarpnir.Worker.Files.{Disk, put_file, MoveReplies, move_to_completed}

abbrev pub expects_video : Quality → Bool
expects_video audio_only = false
expects_video _ = true

-- `media` is what the tools that verify a file say of what is at a path.
module _ (c : Calendar) (float : Float) (File : Type 0) (media : Option File → Media float) where
  pub record Site : Type 0 where
    pub world : World
    pub disk : Disk File

  -- What the client of yt-dlp leaves below `incomplete/`, and what it answers in time.
  pub data DownloadReply : Type 0 where
    finished : DownloadResult → DownloadReply
    refused : YtdlpError → DownloadReply
    timed_out : DownloadReply

  pub record Client : Type 0 where
    pub writes : List (FilePath × Option File)
    pub reply : DownloadReply

  -- What is answered during a download, and the texts that the log and the errors show.
  pub record Replies : Type 0 where
    pub started : ℕ
    pub ended : ℕ
    pub client : DownloadRequest → Client
    pub discard_fails : Bool
    pub move : MoveReplies File
    pub show : YtdlpError → String
    pub note : Option ℤ → ℤ → ℕ → String
    pub show_verification : VerificationError float → String
    pub show_timeout : String
    pub to_string_lossy : FilePath → String

  unfoldable pub write_all : FilePath → List (FilePath × Option File) → Disk File → Disk File
  write_all dir [] disk = disk
  write_all dir ((path, file) ∷ writes) disk =
      write_all dir writes (put_file File (dir ++ path) file disk)

  abbrev pub expectations : DownloadConfig → Video → Expectations
  expectations config v = record {
    expect_video = expects_video config.quality;
    expect_audio = true;
    duration_secs = v.duration_secs;
  }

  -- A file that is not what it should be is removed.
  unfoldable pub reject_if_unverified :
      Replies
      → DownloadConfig
      → Video
      → DownloadResult
      → Disk File
      → Option DownloadOutcome × Disk File
  unfolding verify_media
  reject_if_unverified replies config v result disk =
      elim (verify_media float (media (disk result.file_path)) (expectations config v)) [
        | ok _ ↦ (none, disk)
        | err e ↦ (
          some (
              failure v.id ("Downloaded file failed verification: " ++s replies.show_verification e)
                (some download_verification_failed) false),
          if replies.discard_fails then disk else put_file File result.file_path none disk,
        )
      ]

  abbrev pub delivered_at : String → DownloadResult → DeliveredVideo
  delivered_at path result = record {
    file_path = path;
    file_size_bytes = result.file_size_bytes;
    video_height = result.video_height;
    video_codec = result.video_codec;
  }

  -- A completion that the database does not take is only logged.
  unfoldable pub publish :
      Replies → DownloadConfig → Video → DownloadResult → Site → DownloadOutcome × Site
  unfolding move_to_completed mark_video_completed
  publish replies config v result s =
      let (moved, disk) =
        move_to_completed File replies.move result.file_path (incomplete_dir config)
          (completed_dir config) s.disk in
      elim moved [
        | err e ↦ (
          execution_failed v.id
              ("Downloaded media but failed to move file into completed directory: " ++s e),
          record { world = s.world; disk = disk },
        )
        | ok path ↦ (
          success v.id,
          record {
            world =
                (mark_video_completed replies.ended v.id
                  (delivered_at (replies.to_string_lossy path) result) s.world).1;
            disk = disk;
          },
        )
      ]

  unfoldable pub handle_success :
      Replies → DownloadConfig → Video → DownloadResult → Site → DownloadOutcome × Site
  unfolding reject_if_unverified publish
  handle_success replies config v result s =
      if not config.verify_downloads
      then publish replies config v result s
      else let (rejected, disk) = reject_if_unverified replies config v result s.disk in
        elim rejected [
          | some failed ↦ (failed, record { world = s.world; disk = disk })
          | none ↦ publish replies config v result (record { world = s.world; disk = disk })
        ]

  unfoldable pub handle_reply :
      Replies → DownloadConfig → Video → DownloadReply → Site → DownloadOutcome × Site
  unfolding handle_success handle_error
  handle_reply replies config v (finished result) s = handle_success replies config v result s
  handle_reply replies config v (refused e) s = (handle_error v.id replies.show replies.note e, s)
  handle_reply replies config v timed_out s = (execution_failed v.id replies.show_timeout, s)

  unfoldable pub request : DownloadConfig → Video → World → DownloadRequest × World
  unfolding build_template_data quality_gate policy_from
  request config v w =
      let (episode_index, w1) = build_template_data config v w in
      let (gate, w2) = quality_gate c config v w1 in
      (
        record {
          episode_index = episode_index;
          format_policy = policy_from config.quality config.output_preset;
          quality_gate = gate;
        },
        w2,
      )

  -- The client's run, on the disk and with what it answers.
  unfoldable pub download :
      Replies
      → DownloadConfig
      → Video
      → DownloadRequest × World
      → Disk File
      → DownloadOutcome × Site
  unfolding write_all handle_reply
  download replies config v (asked, w) disk =
      let client = replies.client asked in
      handle_reply replies config v client.reply
        (record { world = w; disk = write_all (incomplete_dir config) client.writes disk })

  unfoldable pub execute_download : Replies → DownloadConfig → Video → Site → DownloadOutcome × Site
  unfolding mark_video_downloading request download to_string
  execute_download replies config v s =
      let (claimed, w) = mark_video_downloading replies.started v.id s.world in
      elim claimed [
        | err e ↦ (
          execution_failed v.id ("Database error: " ++s to_string e),
          record { world = w; disk = s.disk },
        )
        | ok _ ↦ download replies config v (request config v w) s.disk
      ]
