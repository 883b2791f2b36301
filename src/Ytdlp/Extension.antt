-- ===== src/Ytdlp/Extension.antt =====
-- The extension of a rendered output path (ytdlp.rs).
use hofvarpnir.Base.{
  ℕ, zero, suc, ◌+◌, ◌-◌, ◌≤◌, ◌<◌, ◌≡◌, ◌≢◌, refl, ap, sym, ◌∙◌, true, false, Option, none, some,
  [], ◌∷◌, ◌++◌, map, length, length-append, take, Bool-cases, inl, inr, ◌==◌, arith,
}
use hofvarpnir.Text.{Text, codes, equal_text}
use hofvarpnir.Text.Affix.{All-append, equal_text-length}
use hofvarpnir.Ytdlp.Template.{
  ends_with, ascii_lowercase, to_ascii_lowercase, after_last_dot, extension, drop_duplicates,
  with_extension,
}
use hofvarpnir.Ytdlp.Segments.{NoSlash}

length-map : (f : ℕ → ℕ) (s : Text) → length (map f s) ≡ length s
length-map f [] = refl
length-map f (c ∷ s) = ap (λ n. suc n) (length-map f s)

length-take : (n : ℕ) (s : Text) → n ≤ length s → length (take n s) ≡ n
length-take zero s h = refl
length-take (suc n) [] h = absurd (omega (arith, h))
length-take (suc n) (c ∷ s) h = let ih = length-take n s (omega (arith, h)) in omega (arith, ih)

take-NoSlash : (n : ℕ) (s : Text) → NoSlash s → NoSlash (take n s)
take-NoSlash zero s all = tt
take-NoSlash (suc n) [] all = tt
take-NoSlash (suc n) (c ∷ s) (h, all) = (h, take-NoSlash n s all)

ends_with-length : (pattern s : Text) → ends_with pattern s ≡ true → length pattern ≤ length s
ends_with-length pattern [] is = let e = equal_text-length [] pattern is in omega (arith, e)
ends_with-length pattern (c ∷ s) is = elim (Bool-cases (equal_text (c ∷ s) pattern)) [
  | inl whole ↦ let e = equal_text-length (c ∷ s) pattern whole in omega (arith, e)
  | inr other ↦
      let later : ends_with pattern s ≡ true = ground (arith, is, other) in
      let ih = ends_with-length pattern s later in omega (arith, ih)
]

after_last_dot-length : (s e : Text) → after_last_dot s ≡ some e → suc (length e) ≤ length s
after_last_dot-length [] e is = absurd (cc)
after_last_dot-length (c ∷ s) e is = go (after_last_dot s) refl (after_last_dot-length s e)
  where
    go :
        (r : Option Text)
        → after_last_dot s ≡ r
        → (after_last_dot s ≡ some e → suc (length e) ≤ length s)
        → suc (length e) ≤ length (c ∷ s)
    go (some e') found later =
        let same : e' ≡ e = ground (arith, is, found) in
        let ih = later (found ∙ ap some same) in omega (arith, ih)
    go none found later = elim (Bool-cases (c == b'.')) [
      | inl dot ↦
          let same : s ≡ e = ground (arith, is, found, dot) in
          let long = ap (λ t. length t) same in omega (arith, long)
      | inr other ↦ absurd (ground (arith, is, found, other))
    ]

extension-length : (s e : Text) → extension s ≡ some e → suc (length e) ≤ length s
unfolding extension
extension-length [] e is = absurd (cc)
extension-length (c ∷ s) e is = elim (Bool-cases (equal_text (c ∷ s) (codes ".."))) [
  | inl dots ↦ absurd (ground (arith, is, dots))
  | inr other ↦
      let inside : after_last_dot s ≡ some e = ground (arith, is, other) in
      let long = after_last_dot-length s e inside in omega (arith, long)
]

lowercase-length :
    (s t : Text)
    → equal_text (to_ascii_lowercase s) (to_ascii_lowercase t) ≡ true
    → length s ≡ length t
lowercase-length s t is =
    sym (length-map ascii_lowercase s)
    ∙ equal_text-length (to_ascii_lowercase s) (to_ascii_lowercase t) is
    ∙ length-map ascii_lowercase t

module _ (ext : Text) (clean_ext : NoSlash ext) where
  -- Long enough for a dot and the extension.
  abbrev pub IsLong : Text → Type 0
  IsLong s = (suc (length ext) ≤ length s) × NoSlash s

  pub with_extension-IsLong : (s : Text) → NoSlash s → IsLong (with_extension ext s)
  unfolding with_extension
  with_extension-IsLong s clean = go (extension s) refl
    where
      pushed : IsLong (s ++ b'.' ∷ ext)
      pushed = (
        (let e = length-append s (b'.' ∷ ext) in omega (arith, e)),
        All-append (λ c. c ≢ b'/') s (b'.' ∷ ext) clean (ground arith, clean_ext),
      )

      go : (r : Option Text) → extension s ≡ r → IsLong (with_extension ext s)
      go none is = rw (is, with_extension) pushed
      go (some e) is =
          elim (Bool-cases (equal_text (to_ascii_lowercase e) (to_ascii_lowercase ext))) [
            | inl same ↦
                rw (is, with_extension)
                  (rw (same) (
                    (let a = extension-length s e is in
                        let b = lowercase-length e ext same in omega (arith, a, b)),
                    clean,
                  ))
            | inr other ↦ rw (is, with_extension) (rw (other) pushed)
          ]

  -- What is left when one of two extensions is taken away.
  shortened :
      (s : Text)
      → ends_with (to_ascii_lowercase (b'.' ∷ ext ++ b'.' ∷ ext)) (to_ascii_lowercase s) ≡ true
      → (length (take (length s - (length ext + 1)) s) < length s)
        × (suc (length ext) ≤ length (take (length s - (length ext + 1)) s))
  shortened s double =
      let both : length (to_ascii_lowercase (b'.' ∷ ext ++ b'.' ∷ ext))
          ≤ length (to_ascii_lowercase s) =
        ends_with-length (to_ascii_lowercase (b'.' ∷ ext ++ b'.' ∷ ext)) (to_ascii_lowercase s)
          double in
      let a = length-map ascii_lowercase (b'.' ∷ ext ++ b'.' ∷ ext) in
      let b = length-map ascii_lowercase s in
      let d = length-append (b'.' ∷ ext) (b'.' ∷ ext) in
      let kept = length-take (length s - (length ext + 1)) s (omega arith) in
      (omega (arith, both, a, b, d, kept), omega (arith, both, a, b, d, kept))

  pub drop_duplicates-IsLong :
      (fuel : ℕ) (s : Text) → IsLong s → IsLong (drop_duplicates fuel ext s)
  unfolding drop_duplicates
  drop_duplicates-IsLong zero s long = long
  drop_duplicates-IsLong (suc fuel) s (long, clean) =
      elim (Bool-cases
        (ends_with (to_ascii_lowercase (b'.' ∷ ext ++ b'.' ∷ ext)) (to_ascii_lowercase s))) [
          | inl double ↦
              let (kept, long_kept) = shortened s double in
              rw (double, drop_duplicates)
                (drop_duplicates-IsLong fuel (take (length s - (length ext + 1)) s)
                  (long_kept, take-NoSlash (length s - (length ext + 1)) s clean))
          | inr single ↦ rw (single, drop_duplicates) (long, clean)
        ]

  -- The fuel is enough: the extension does not stand twice at the end.
  pub drop_duplicates-single :
      (fuel : ℕ) (s : Text)
      → length s ≤ fuel
      → ends_with
          (to_ascii_lowercase (b'.' ∷ ext ++ b'.' ∷ ext))
          (to_ascii_lowercase (drop_duplicates fuel ext s))
        ≡ false
  unfolding drop_duplicates
  drop_duplicates-single zero [] short = unfold equal_text in refl
  drop_duplicates-single zero (c ∷ s) short = absurd (omega (arith, short))
  drop_duplicates-single (suc fuel) s short =
      elim (Bool-cases
        (ends_with (to_ascii_lowercase (b'.' ∷ ext ++ b'.' ∷ ext)) (to_ascii_lowercase s))) [
          | inl double ↦
              let (kept, long_kept) = shortened s double in
              rw (double, drop_duplicates)
                (drop_duplicates-single fuel (take (length s - (length ext + 1)) s)
                  (omega (arith, kept, short)))
          | inr single ↦ rw (single, drop_duplicates) single
        ]
