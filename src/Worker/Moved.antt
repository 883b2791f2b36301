-- ===== src/Worker/Moved.antt =====
-- A move into `completed/` that succeeds (actors/download_worker.rs).
use Prim.Native.String.{String}
use hofvarpnir.Base.{◌≡◌, refl, sym, ◌∙◌, false, Option, none, some, [], ◌∷◌, ◌++◌, ok, err, arith}
use hofvarpnir.Text.{codes}
use hofvarpnir.Worker.{FilePath, equal_path, strip_path}
use hofvarpnir.Worker.Files.{
  Disk, put_file, MoveReplies, RenameReply, renamed, crosses_devices, not_renamed, Moving,
  copy_file, rename_file, replace_file, move_to_completed,
}
use hofvarpnir.Worker.Paths.{equal_path_refl, strip_path-append, incomplete_apart, completed_apart}
use hofvarpnir.Worker.Allowed.{completed_path}

module _ (File : Type 0) where
  -- `was` is the disk before.
  abbrev pub IsAt : (was : Disk File) (source destination : FilePath) → Moving File → Type 0
  IsAt was source destination (err e, disk) = Unit
  IsAt was source destination (ok path, disk) =
      (path ≡ destination)
      × ((file : File) × (was source ≡ some file) × (disk destination ≡ some file))
      × (disk source ≡ none)

  module _ (replies : MoveReplies File) (source destination : FilePath)
      (apart : equal_path source destination ≡ false)
      (apart' : equal_path destination source ≡ false) where
    replaced :
        (was disk : Disk File) (file : File)
        → was source ≡ some file
        → IsAt was source destination
            (ok destination, put_file File source none (put_file File destination (some file) disk))
    replaced was disk file held = (
      refl,
      (file, held, ground (arith, apart, equal_path_refl destination)),
      ground (arith, equal_path_refl source),
    )

    rename_file-IsAt :
        (was disk : Disk File)
        → disk source ≡ was source
        → IsAt was source destination (rename_file File replies source destination disk)
    unfolding rename_file copy_file
    rename_file-IsAt was disk same =
        go (disk source) refl replies.rename_reply refl replies.copy_fault refl replies.remove_fault
          refl
      where
        go :
            (held : Option File)
            → disk source ≡ held
            → (reply : RenameReply File) → replies.rename_reply ≡ reply
            → (copied : Option (String × Option File)) → replies.copy_fault ≡ copied
            → (removed : Option String) → replies.remove_fault ≡ removed
            → IsAt was source destination (rename_file File replies source destination disk)
        go none a reply b copied c removed d = rw (a, rename_file) tt
        go (some file) a renamed b copied c removed d =
            rw (a, b, rename_file) (replaced was disk file (sym same ∙ a))
        go (some file) a (not_renamed e) b copied c removed d = rw (a, b, rename_file) tt
        go (some file) a crosses_devices b (some (e, part)) c removed d =
            rw (a, b, c, rename_file, copy_file) tt
        go (some file) a crosses_devices b none c (some e) d =
            rw (a, b, c, d, rename_file, copy_file) tt
        go (some file) a crosses_devices b none c none d =
            rw (a, b, c, d, rename_file, copy_file) (replaced was disk file (sym same ∙ a))

    replace_file-IsAt :
        (was : Disk File)
        → IsAt was source destination (replace_file File replies source destination was)
    unfolding replace_file
    replace_file-IsAt was = go (was destination) refl replies.clear_fault refl
      where
        go :
            (old : Option File)
            → was destination ≡ old
            → (fault : Option String) → replies.clear_fault ≡ fault
            → IsAt was source destination (replace_file File replies source destination was)
        go none a fault b = rw (a, replace_file) (rename_file-IsAt was was refl)
        go (some old) a (some e) b = rw (a, b, replace_file) tt
        go (some old) a none b =
            rw (a, b, replace_file)
              (rename_file-IsAt was (put_file File destination none was) (ground (arith, apart')))

  abbrev pub IsMoved : (was : Disk File) (out source : FilePath) → Moving File → Type 0
  IsMoved was out source (err e, disk) = Unit
  IsMoved was out source (ok path, disk) =
      (rest : FilePath) × (strip_path (out ++ codes "incomplete" ∷ []) source ≡ some rest)
      × IsAt was source (completed_path out rest) (ok path, disk)

  pub move_to_completed-IsMoved :
      (replies : MoveReplies File) (source out : FilePath) (was : Disk File)
      → IsMoved was out source (
          move_to_completed File replies source
            (out ++ codes "incomplete" ∷ [])
            (out ++ codes "completed" ∷ [])
            was)
  unfolding move_to_completed
  move_to_completed-IsMoved replies source out was =
      go (strip_path (out ++ codes "incomplete" ∷ []) source) refl replies.directory_fault refl
        replies.exists_fault refl
    where
      go :
          (relative : Option FilePath)
          → strip_path (out ++ codes "incomplete" ∷ []) source ≡ relative
          → (made : Option String) → replies.directory_fault ≡ made
          → (tried : Option String) → replies.exists_fault ≡ tried
          → IsMoved was out source (
              move_to_completed File replies source
                (out ++ codes "incomplete" ∷ [])
                (out ++ codes "completed" ∷ [])
                was)
      go none a made b tried c = rw (a, move_to_completed) tt
      go (some []) a made b tried c = rw (a, move_to_completed) tt
      go (some (x ∷ path)) a (some e) b tried c = rw (a, b, move_to_completed) tt
      go (some (x ∷ path)) a none b (some e) c = rw (a, b, c, move_to_completed) tt
      go (some (x ∷ path)) a none b none c =
          rw (a, b, c, move_to_completed)
            (at_rest (replace_file File replies source (completed_path out (x ∷ path)) was) (
              replace_file-IsAt replies source (completed_path out (x ∷ path))
                (rw below (incomplete_apart out (x ∷ path) (x ∷ path)))
                (rw below (completed_apart out (x ∷ path) (x ∷ path))) was))
        where
          below : source ≡ (out ++ codes "incomplete" ∷ []) ++ x ∷ path
          below = strip_path-append (out ++ codes "incomplete" ∷ []) source (x ∷ path) a

          at_rest :
              (m : Moving File)
              → IsAt was source (completed_path out (x ∷ path)) m
              → IsMoved was out source m
          at_rest (ok p, d) is = (x ∷ path, a, is)
          at_rest (err e, d) is = tt
