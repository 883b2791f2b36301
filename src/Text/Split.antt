-- ===== src/Text/Split.antt =====
-- Texts that are split where they were joined, at a separator of one or of two characters.
use hofvarpnir.Base.{ℕ, ◌≡◌, ◌≢◌, refl, true, false, none, some, List, [], ◌∷◌, ◌++◌, arith}
use hofvarpnir.Text.{Text, Lacks, strip_prefix, split_once, is_some, split_after, split}

pub split_once-char :
    (x : ℕ) (a s : Text) → Lacks x a → split_once (x ∷ []) (a ++ x ∷ s) ≡ some (a, s)
unfolding split_once strip_prefix
split_once-char x [] s lacks = ground arith
split_once-char x (c ∷ a) s (h, lacks) = ground (arith, h, split_once-char x a s lacks)

module _ (x y : ℕ) where
  not_yet :
      (c : ℕ) (a s : Text)
      → x ≢ y
      → Lacks y a
      → strip_prefix (x ∷ y ∷ []) (c ∷ a ++ x ∷ y ∷ s) ≡ none
  unfolding strip_prefix
  not_yet c [] s differ lacks = ground (arith, differ)
  not_yet c (d ∷ a) s differ (h, lacks) = ground (arith, h)

  pub split_once-pair :
      (a s : Text) → x ≢ y → Lacks y a → split_once (x ∷ y ∷ []) (a ++ x ∷ y ∷ s) ≡ some (a, s)
  unfolding split_once strip_prefix
  split_once-pair [] s differ lacks = ground arith
  split_once-pair (c ∷ a) s differ (h, lacks) =
      rw (not_yet c a s differ lacks, split_once-pair a s differ lacks, split_once) refl

  no_separator : (c : ℕ) (s : Text) → c ≢ x → is_some (strip_prefix (x ∷ y ∷ []) (c ∷ s)) ≡ false
  unfolding strip_prefix
  no_separator c s h = ground (arith, h)

  separator : (s : Text) → is_some (strip_prefix (x ∷ y ∷ []) (x ∷ y ∷ s)) ≡ true
  unfolding strip_prefix
  separator s = ground arith

  pub split-last : (a : Text) → Lacks x a → split (x ∷ y ∷ []) a ≡ a ∷ []
  unfolding split split_after
  split-last [] lacks = refl
  split-last (c ∷ a) (h, lacks) = rw (no_separator c a h, split-last a lacks, split_after) refl

  pub split-cons :
      (a s : Text) {parts : List Text}
      → Lacks x a
      → split (x ∷ y ∷ []) s ≡ parts
      → split (x ∷ y ∷ []) (a ++ x ∷ y ∷ s) ≡ a ∷ parts
  unfolding split split_after
  split-cons [] s lacks later = rw (separator s, later, split_after) refl
  split-cons (c ∷ a) s (h, lacks) later =
      rw (no_separator c (a ++ x ∷ y ∷ s) h, split-cons a s lacks later, split_after) refl
