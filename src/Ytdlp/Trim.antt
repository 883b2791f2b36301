-- ===== src/Ytdlp/Trim.antt =====
-- Texts that are trimmed (`str::trim`).
use hofvarpnir.Base.{ℕ, ◌≡◌, refl, ap, Bool, false, [], ◌∷◌, map, All, Bool-cases, inl, inr, arith}
use hofvarpnir.Text.{Text}
use hofvarpnir.Ytdlp.Template.{trim_start, trim_end, ended_by}

module _ (p : ℕ → Bool) where
  abbrev pub Starts : Text → Type 0
  Starts [] = Unit
  Starts (c ∷ s) = p c ≡ false

  pub trim_start-Starts : (s : Text) → Starts (trim_start p s)
  trim_start-Starts [] = tt
  trim_start-Starts (c ∷ s) = elim (Bool-cases (p c)) [
    | inl out ↦ rw (out) (trim_start-Starts s)
    | inr in_ ↦ rw (in_) in_
  ]

  Starts-ended_by : (c : ℕ) (rest : Text) → p c ≡ false → Starts (ended_by p c rest)
  Starts-ended_by c [] in_ = rw (in_) in_
  Starts-ended_by c (d ∷ rest) in_ = in_

  pub trim_end-Starts : (s : Text) → Starts s → Starts (trim_end p s)
  trim_end-Starts [] starts = tt
  trim_end-Starts (c ∷ s) in_ = Starts-ended_by c (trim_end p s) in_

  pub trim_start-of_Starts : (s : Text) → Starts s → trim_start p s ≡ s
  trim_start-of_Starts [] starts = refl
  trim_start-of_Starts (c ∷ s) in_ = rw (in_) refl

  trim_end-ended_by :
      (c : ℕ) (rest : Text)
      → trim_end p rest ≡ rest
      → trim_end p (ended_by p c rest) ≡ ended_by p c rest
  trim_end-ended_by c [] is = elim (Bool-cases (p c)) [
    | inl out ↦ rw (out) refl
    | inr in_ ↦ rw (in_) (rw (in_) refl)
  ]
  trim_end-ended_by c (d ∷ rest) is = ap (ended_by p c) is

  pub trim_end-idempotent : (s : Text) → trim_end p (trim_end p s) ≡ trim_end p s
  trim_end-idempotent [] = refl
  trim_end-idempotent (c ∷ s) = trim_end-ended_by c (trim_end p s) (trim_end-idempotent s)

  module _ (P : ℕ → Type 0) where
    pub trim_start-All : (s : Text) → All P s → All P (trim_start p s)
    trim_start-All [] all = tt
    trim_start-All (c ∷ s) (h, all) = elim (Bool-cases (p c)) [
      | inl out ↦ rw (out) (trim_start-All s all)
      | inr in_ ↦ rw (in_) (h, all)
    ]

    ended_by-All : (c : ℕ) (rest : Text) → P c → All P rest → All P (ended_by p c rest)
    ended_by-All c [] h all = elim (Bool-cases (p c)) [
      | inl out ↦ rw (out) tt
      | inr in_ ↦ rw (in_) (h, tt)
    ]
    ended_by-All c (d ∷ rest) h all = (h, all)

    pub trim_end-All : (s : Text) → All P s → All P (trim_end p s)
    trim_end-All [] all = tt
    trim_end-All (c ∷ s) (h, all) = ended_by-All c (trim_end p s) h (trim_end-All s all)

  -- A character that stays is mapped to one that stays.
  module _ (f : ℕ → ℕ) (stays : (c : ℕ) → p c ≡ false → p (f c) ≡ false) where
    pub map-Starts : (s : Text) → Starts s → Starts (map f s)
    map-Starts [] starts = tt
    map-Starts (c ∷ s) in_ = stays c in_

    ended_tail :
        (c : ℕ) (rest : Text) (d : ℕ) (s : Text) → ended_by p c rest ≡ c ∷ d ∷ s → rest ≡ d ∷ s
    ended_tail c [] d s is = elim (Bool-cases (p c)) [
      | inl out ↦ absurd (ground (arith, is, out))
      | inr in_ ↦ absurd (ground (arith, is, in_))
    ]
    ended_tail c (e ∷ rest) d s is = ground (arith, is)

    pub trim_end-map : (s : Text) → trim_end p s ≡ s → trim_end p (map f s) ≡ map f s
    trim_end-map [] is = refl
    trim_end-map (c ∷ []) is = elim (Bool-cases (p c)) [
      | inl out ↦ absurd (ground (arith, is, out))
      | inr in_ ↦ rw (stays c in_) refl
    ]
    trim_end-map (c ∷ d ∷ s) is =
        let e : trim_end p (d ∷ s) ≡ d ∷ s = ended_tail c (trim_end p (d ∷ s)) d s is in
        rw (trim_end-map (d ∷ s) e) refl
