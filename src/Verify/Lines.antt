-- ===== src/Verify/Lines.antt =====
-- The lines of ffprobe's output, and what `read_lines` keeps of them (verify.rs).
use hofvarpnir.Base.{
  ◌≡◌, sym, ap, subst, true, false, none, some, List, [], ◌∷◌, Mem, mem-cons_self, mem-cons_of_mem,
  ◌⊎◌, inl, inr,
}
use hofvarpnir.Verify.{
  Float, Probe, ProbeLine, codec_video, codec_audio, other_line, duration_is, read_lines,
}

pub some_inj {ℓ} : {A : Type ℓ} {a b : A} → some a ≡ some b → a ≡ b
some_inj h = cc

later {ℓ κ} :
    {A : Type ℓ} {P : Type κ} {a : A} (x : A) {xs : List A} → P ⊎ Mem a xs → P ⊎ Mem a (x ∷ xs)
later x (inl p) = inl p
later x (inr m) = inr (mem-cons_of_mem x m)

module _ (float : Float) where
  open float use {F64}

  -- A flag that stands after the lines stood before them, or one of them sets it.
  pub has_video-Mem :
      (lines : List (ProbeLine float)) (probe : Probe float)
      → (read_lines float lines probe).has_video ≡ true
      → (probe.has_video ≡ true) ⊎ Mem codec_video lines
  unfolding read_lines
  has_video-Mem [] probe h = inl h
  has_video-Mem (codec_video ∷ lines) probe h = inr mem-cons_self
  has_video-Mem (codec_audio ∷ lines) probe h = later _ (has_video-Mem lines _ h)
  has_video-Mem (duration_is d ∷ lines) probe h = later _ (has_video-Mem lines _ h)
  has_video-Mem (other_line ∷ lines) probe h = later _ (has_video-Mem lines _ h)

  pub has_audio-Mem :
      (lines : List (ProbeLine float)) (probe : Probe float)
      → (read_lines float lines probe).has_audio ≡ true
      → (probe.has_audio ≡ true) ⊎ Mem codec_audio lines
  unfolding read_lines
  has_audio-Mem [] probe h = inl h
  has_audio-Mem (codec_audio ∷ lines) probe h = inr mem-cons_self
  has_audio-Mem (codec_video ∷ lines) probe h = later _ (has_audio-Mem lines _ h)
  has_audio-Mem (duration_is d ∷ lines) probe h = later _ (has_audio-Mem lines _ h)
  has_audio-Mem (other_line ∷ lines) probe h = later _ (has_audio-Mem lines _ h)

  pub duration-Mem :
      (d : F64) (lines : List (ProbeLine float)) (probe : Probe float)
      → (read_lines float lines probe).duration ≡ some d
      → (probe.duration ≡ some d) ⊎ Mem (duration_is d) lines
  unfolding read_lines
  duration-Mem d [] probe h = inl h
  duration-Mem d (duration_is d' ∷ lines) probe h = elim (duration-Mem d lines _ h) [
    | inl same ↦ inr (
        subst (λ x. Mem (duration_is d) (x ∷ lines)) (ap duration_is (sym (some_inj same)))
          mem-cons_self)
    | inr m ↦ inr (mem-cons_of_mem _ m)
  ]
  duration-Mem d (codec_video ∷ lines) probe h = later _ (duration-Mem d lines _ h)
  duration-Mem d (codec_audio ∷ lines) probe h = later _ (duration-Mem d lines _ h)
  duration-Mem d (other_line ∷ lines) probe h = later _ (duration-Mem d lines _ h)

  pub unset {κ} : {P : Type κ} → (false ≡ true) ⊎ P → P
  unset (inl h) = absurd cc
  unset (inr p) = p

  pub announced :
      (d : F64) (lines : List (ProbeLine float))
      → (none ≡ some d) ⊎ Mem (duration_is d) lines
      → Mem {A = ProbeLine float} (duration_is d) lines
  announced d lines (inl h) = absurd cc
  announced d lines (inr m) = m
