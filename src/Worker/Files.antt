-- ===== src/Worker/Files.antt =====
-- `move_to_completed` of crates/hof-core/src/actors/download_worker.rs, on the files of a disk.
use Prim.Native.String.{String}
use hofvarpnir.Base.{Option, none, some, [], ◌∷◌, ◌++◌, if◌then◌else◌, Result, ok, err}
use hofvarpnir.Worker.{FilePath, equal_path, strip_path}

module _ (File : Type 0) where
  abbrev pub Disk : Type 0
  Disk = FilePath → Option File

  abbrev pub put_file : FilePath → Option File → Disk → Disk
  put_file path file disk = λ other. if equal_path path other then file else disk other

  -- `rename`; a file that moves to another device is copied instead.
  pub data RenameReply : Type 0 where
    renamed crosses_devices : RenameReply
    not_renamed : String → RenameReply

  -- What the file system answers during the move. A copy that fails leaves what it wrote.
  pub record MoveReplies : Type 0 where
    pub directory_fault : Option String
    pub exists_fault : Option String
    pub clear_fault : Option String
    pub rename_reply : RenameReply
    pub copy_fault : Option (String × Option File)
    pub remove_fault : Option String

  abbrev pub Moving : Type 0
  Moving = Result String FilePath × Disk

  -- The branch for another device.
  unfoldable pub copy_file : MoveReplies → (source destination : FilePath) → File → Disk → Moving
  copy_file replies source destination file disk = elim replies.copy_fault [
    | some (e, partial) ↦ (err e, put_file destination partial disk)
    | none ↦ elim replies.remove_fault [
      | some e ↦ (err e, put_file destination (some file) disk)
      | none ↦ (ok destination, put_file source none (put_file destination (some file) disk))
    ]
  ]

  unfoldable pub rename_file : MoveReplies → (source destination : FilePath) → Disk → Moving
  unfolding copy_file
  rename_file replies source destination disk = elim (disk source) [
    | none ↦ (err "No such file or directory", disk)
    | some file ↦ elim replies.rename_reply [
      | renamed ↦ (ok destination, put_file source none (put_file destination (some file) disk))
      | crosses_devices ↦ copy_file replies source destination file disk
      | not_renamed e ↦ (err e, disk)
    ]
  ]

  unfoldable pub replace_file : MoveReplies → (source destination : FilePath) → Disk → Moving
  unfolding rename_file
  replace_file replies source destination disk = elim (disk destination) [
    | none ↦ rename_file replies source destination disk
    | some old ↦ elim replies.clear_fault [
      | some e ↦ (err e, disk)
      | none ↦ rename_file replies source destination (put_file destination none disk)
    ]
  ]

  unfoldable pub move_to_completed :
      MoveReplies → (source incomplete completed : FilePath) → Disk → Moving
  unfolding replace_file
  move_to_completed replies source incomplete completed disk = elim (strip_path incomplete source) [
    | none ↦ (err "prefix not found", disk)
    | some relative ↦ elim relative [
      | [] ↦ (err "Downloaded file path has no filename", disk)
      | c ∷ path ↦ elim replies.directory_fault [
        | some e ↦ (err e, disk)
        | none ↦ elim replies.exists_fault [
          | some e ↦ (err e, disk)
          | none ↦ replace_file replies source (completed ++ c ∷ path) disk
        ]
      ]
    ]
  ]
