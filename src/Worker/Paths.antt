-- ===== src/Worker/Paths.antt =====
-- Paths below `incomplete/` and `completed/` of one output directory (actors/download_worker.rs).
use hofvarpnir.Base.{◌≡◌, refl, ap, true, false, some, [], ◌∷◌, ◌++◌, Bool-cases, inl, inr, arith}
use hofvarpnir.Text.{Text, codes, equal_text}
use hofvarpnir.Text.Affix.{equal_text_refl}
use hofvarpnir.Worker.{FilePath, equal_path, strip_path}

equal_text_sound : (s t : Text) → equal_text s t ≡ true → s ≡ t
unfolding equal_text
equal_text_sound [] [] e = refl
equal_text_sound [] (b ∷ t) e = cc
equal_text_sound (a ∷ s) [] e = cc
equal_text_sound (a ∷ s) (b ∷ t) e =
    let first : a ≡ b = ground arith in
    let rest : equal_text s t ≡ true = ground arith in
    let same : s ≡ t = equal_text_sound s t rest in rw first (ap (λ u. b ∷ u) same)

pub equal_path_refl : (p : FilePath) → equal_path p p ≡ true
equal_path_refl [] = refl
equal_path_refl (a ∷ p) = rw (equal_text_refl a, equal_path_refl p) refl

pub strip_path-append :
    (dir path rest : FilePath) → strip_path dir path ≡ some rest → path ≡ dir ++ rest
strip_path-append [] path rest e = ground arith
strip_path-append (d ∷ dir) [] rest e = cc
strip_path-append (d ∷ dir) (c ∷ path) rest e = elim (Bool-cases (equal_text d c)) [
  | inl same ↦
      let found : strip_path dir path ≡ some rest = ground arith in
      rw (equal_text_sound d c same, strip_path-append dir path rest found) refl
  | inr differ ↦ absurd (ground arith)
]

-- A path below one of the two directories is not below the other.
pub incomplete_apart :
    (out r r' : FilePath)
    → equal_path ((out ++ codes "incomplete" ∷ []) ++ r) ((out ++ codes "completed" ∷ []) ++ r')
      ≡ false
unfolding equal_text
incomplete_apart [] r r' = refl
incomplete_apart (d ∷ out) r r' =
    let ih = incomplete_apart out r r' in rw (ih, equal_text_refl d) refl

pub completed_apart :
    (out r r' : FilePath)
    → equal_path ((out ++ codes "completed" ∷ []) ++ r) ((out ++ codes "incomplete" ∷ []) ++ r')
      ≡ false
unfolding equal_text
completed_apart [] r r' = refl
completed_apart (d ∷ out) r r' =
    let ih = completed_apart out r r' in rw (ih, equal_text_refl d) refl
