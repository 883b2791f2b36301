-- ===== src/Worker/Allowed.antt =====
-- The files of `completed/` through a move (actors/download_worker.rs).
use Prim.Native.String.{String}
use hofvarpnir.Base.{
  ◌≡◌, refl, ap, subst, ◌∙◌, true, false, Option, none, some, [], ◌∷◌, ◌++◌, Bool-cases, ◌⊎◌, inl,
  inr, arith,
}
use hofvarpnir.Text.{codes}
use hofvarpnir.Worker.{FilePath, equal_path, strip_path}
use hofvarpnir.Worker.Files.{
  Disk, put_file, MoveReplies, RenameReply, renamed, crosses_devices, not_renamed, copy_file,
  rename_file, replace_file, move_to_completed,
}

abbrev pub completed_path : FilePath → FilePath → FilePath
completed_path out rest = (out ++ codes "completed" ∷ []) ++ rest

-- Each file of `completed/` is allowed.
module _ (File : Type 0) (out : FilePath) (Allowed : FilePath → File → Type 0) where
  abbrev pub AllAllowed : Disk File → Type 0
  AllAllowed disk =
      (rest : FilePath) (file : File)
      → disk (completed_path out rest) ≡ some file
      → Allowed rest file

  -- A write that is allowed wherever it falls.
  pub put_file-AllAllowed :
      (path : FilePath) (new : Option File) (disk : Disk File)
      → ((rest : FilePath) (file : File)
          → equal_path path (completed_path out rest) ≡ true
          → new ≡ some file
          → Allowed rest file)
      → AllAllowed disk
      → AllAllowed (put_file File path new disk)
  put_file-AllAllowed path new disk here all rest file is =
      elim (Bool-cases (equal_path path (completed_path out rest))) [
        | inl same ↦ here rest file same (ground (arith, same, is))
        | inr other ↦ all rest file (ground (arith, other, is))
      ]

  module _ (replies : MoveReplies File) (source : FilePath) where
    -- What the source holds, and what a copy that fails leaves.
    abbrev pub MayMove : Disk File → Type 0
    MayMove disk =
        ((rest : FilePath) (file : File) → disk source ≡ some file → Allowed rest file)
        × ((rest : FilePath) (e : String) (file : File)
            → replies.copy_fault ≡ some (e, some file)
            → Allowed rest file)

    copy_file-AllAllowed :
        (destination : FilePath) (file : File) (disk : Disk File)
        → ((rest : FilePath) → Allowed rest file)
        → ((rest : FilePath) (e : String) (part : File)
            → replies.copy_fault ≡ some (e, some part)
            → Allowed rest part)
        → AllAllowed disk
        → AllAllowed (copy_file File replies source destination file disk).1
    unfolding copy_file
    copy_file-AllAllowed destination file disk moved partial all =
        go replies.copy_fault refl replies.remove_fault refl
      where
        put : AllAllowed (put_file File destination (some file) disk)
        put =
            put_file-AllAllowed destination (some file) disk
              (λ rest f here is. subst (Allowed rest) (cc) (moved rest)) all

        go :
            (copied : Option (String × Option File))
            → replies.copy_fault ≡ copied
            → (removed : Option String) → replies.remove_fault ≡ removed
            → AllAllowed (copy_file File replies source destination file disk).1
        go (some (e, part)) is removed is' =
            rw (is, copy_file)
              (put_file-AllAllowed destination part disk
                (λ rest f here leaves. partial rest e f (is ∙ ap (λ q. some (e, q)) leaves)) all)
        go none is (some e) is' = rw (is, is', copy_file) put
        go none is none is' =
            rw (is, is', copy_file)
              (put_file-AllAllowed source none (put_file File destination (some file) disk)
                (λ rest f here leaves. absurd (cc)) put)

    rename_file-AllAllowed :
        (destination : FilePath) (disk : Disk File)
        → MayMove disk
        → AllAllowed disk
        → AllAllowed (rename_file File replies source destination disk).1
    unfolding rename_file
    rename_file-AllAllowed destination disk (moved, partial) all =
        go (disk source) refl replies.rename_reply refl
      where
        go :
            (held : Option File)
            → disk source ≡ held
            → (reply : RenameReply File) → replies.rename_reply ≡ reply
            → AllAllowed (rename_file File replies source destination disk).1
        go none is reply is' = rw (is, rename_file) all
        go (some file) is renamed is' =
            rw (is, is', rename_file)
              (put_file-AllAllowed source none (put_file File destination (some file) disk)
                (λ rest f here leaves. absurd (cc))
                (put_file-AllAllowed destination (some file) disk
                  (λ rest f here same. moved rest f (is ∙ same)) all))
        go (some file) is crosses_devices is' =
            rw (is, is', rename_file)
              (copy_file-AllAllowed destination file disk (λ rest. moved rest file is) partial all)
        go (some file) is (not_renamed e) is' = rw (is, is', rename_file) all

    replace_file-AllAllowed :
        (destination : FilePath) (disk : Disk File)
        → MayMove disk
        → AllAllowed disk
        → AllAllowed (replace_file File replies source destination disk).1
    unfolding replace_file
    replace_file-AllAllowed destination disk (moved, partial) all =
        go (disk destination) refl replies.clear_fault refl
          (Bool-cases (equal_path destination source))
      where
        go :
            (old : Option File)
            → disk destination ≡ old
            → (fault : Option String) → replies.clear_fault ≡ fault
            → (equal_path destination source ≡ true) ⊎ (equal_path destination source ≡ false)
            → AllAllowed (replace_file File replies source destination disk).1
        go none is fault is' split =
            rw (is, replace_file) (rename_file-AllAllowed destination disk (moved, partial) all)
        go (some old) is (some e) is' split = rw (is, is', replace_file) all
        go (some old) is none is' split =
            rw (is, is', replace_file)
              (rename_file-AllAllowed destination (put_file File destination none disk)
                (held split, partial)
                (put_file-AllAllowed destination none disk (λ rest f here leaves. absurd (cc)) all))
          where
            held :
                (equal_path destination source ≡ true) ⊎ (equal_path destination source ≡ false)
                → (rest : FilePath) (file : File)
                → put_file File destination none disk source ≡ some file
                → Allowed rest file
            held (inl same) rest file has = absurd (ground (arith, same, has))
            held (inr other) rest file has = moved rest file (ground (arith, other, has))

    pub move_to_completed-AllAllowed :
        (incomplete completed : FilePath) (disk : Disk File)
        → MayMove disk
        → AllAllowed disk
        → AllAllowed (move_to_completed File replies source incomplete completed disk).1
    unfolding move_to_completed
    move_to_completed-AllAllowed incomplete completed disk may all =
        go (strip_path incomplete source) refl replies.directory_fault refl replies.exists_fault
          refl
      where
        go :
            (relative : Option FilePath)
            → strip_path incomplete source ≡ relative
            → (made : Option String) → replies.directory_fault ≡ made
            → (tried : Option String) → replies.exists_fault ≡ tried
            → AllAllowed (move_to_completed File replies source incomplete completed disk).1
        go none a made b tried c = rw (a, move_to_completed) all
        go (some []) a made b tried c = rw (a, move_to_completed) all
        go (some (x ∷ path)) a (some e) b tried c = rw (a, b, move_to_completed) all
        go (some (x ∷ path)) a none b (some e) c = rw (a, b, c, move_to_completed) all
        go (some (x ∷ path)) a none b none c =
            rw (a, b, c, move_to_completed)
              (replace_file-AllAllowed (completed ++ x ∷ path) disk may all)
