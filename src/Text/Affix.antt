-- ===== src/Text/Affix.antt =====
-- Prefixes and suffixes that are stripped from where they were put.
use hofvarpnir.Base.{
  ℕ, ◌≡◌, refl, true, false, some, [], ◌∷◌, ◌++◌, length, length-append, arith, Bool-cases, inl,
  inr, All,
}
use hofvarpnir.Text.{Text, equal_text, strip_prefix, strip_suffix}

pub All-append {κ} : (P : ℕ → Type κ) (s t : Text) → All P s → All P t → All P (s ++ t)
All-append P [] t hs ht = ht
All-append P (c ∷ s) t (h, hs) ht = (h, All-append P s t hs ht)

pub equal_text_refl : (s : Text) → equal_text s s ≡ true
unfolding equal_text
equal_text_refl [] = refl
equal_text_refl (c ∷ s) = ground (arith, equal_text_refl s)

pub equal_text-length : (s t : Text) → equal_text s t ≡ true → length s ≡ length t
unfolding equal_text
equal_text-length [] [] h = refl
equal_text-length [] (b ∷ t) h = absurd cc
equal_text-length (a ∷ s) [] h = absurd cc
equal_text-length (a ∷ s) (b ∷ t) h = ground (arith, h, equal_text-length s t)

pub strip_prefix-append : (p s : Text) → strip_prefix p (p ++ s) ≡ some s
unfolding strip_prefix
strip_prefix-append [] s = refl
strip_prefix-append (c ∷ p) s = ground (arith, strip_prefix-append p s)

longer : (c : ℕ) (s suffix : Text) → equal_text (c ∷ s ++ suffix) suffix ≡ false
longer c s suffix = elim (Bool-cases (equal_text (c ∷ s ++ suffix) suffix)) [
  | inl same ↦
      absurd
        (omega (arith, equal_text-length (c ∷ s ++ suffix) suffix same, length-append s suffix))
  | inr differ ↦ differ
]

pub strip_suffix-append : (s suffix : Text) → strip_suffix suffix (s ++ suffix) ≡ some s
unfolding strip_suffix
strip_suffix-append [] [] = unfold equal_text in refl
strip_suffix-append [] (b ∷ suffix) = rw (equal_text_refl (b ∷ suffix)) refl
strip_suffix-append (c ∷ s) suffix = rw (longer c s suffix, strip_suffix-append s suffix) refl
