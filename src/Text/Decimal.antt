-- ===== src/Text/Decimal.antt =====
-- Decimal numbers that are read back from their print.
use hofvarpnir.Base.{
  ℕ, zero, suc, ◌+◌, ◌/◌, ◌%◌, ◌≤◌, ◌==◌, ◌≡◌, ◌≢◌, refl, false, some, [], ◌∷◌, arith, All, ◌∙◌,
  inl, inr, Bool-cases, subst,
}
use hofvarpnir.Text.{Text, Lacks, digits, format, usize_max, scan, parse}

abbrev pub IsDigit : ℕ → Type 0
IsDigit c = (c ≤ b'9') × (b'0' ≤ c)

read_last_digit :
    (n : ℕ) (out : Text) → n ≤ usize_max → scan ((b'0' + n % 10) ∷ out) (n / 10) ≡ scan out n
unfolding scan
read_last_digit n out fits = ground arith

scan-digits :
    (fuel n : ℕ) (out : Text) → n ≤ fuel → n ≤ usize_max → scan (digits fuel n out) 0 ≡ scan out n
unfolding digits
scan-digits zero n out enough fits = ground (arith, enough)
scan-digits (suc fuel) n out enough fits = elim (Bool-cases (n == 0)) [
  | inl is_zero ↦ rw (is_zero, digits) (ground (arith, is_zero))
  | inr positive ↦
      rw (positive, digits)
        (scan-digits fuel (n / 10) ((b'0' + n % 10) ∷ out) (omega (arith, enough))
            (omega (arith, fits))
          ∙ read_last_digit n out fits)
]

digits-All : (fuel n : ℕ) (out : Text) → All IsDigit out → All IsDigit (digits fuel n out)
unfolding digits
digits-All zero n out all = all
digits-All (suc fuel) n out all = elim (Bool-cases (n == 0)) [
  | inl is_zero ↦ rw (is_zero, digits) all
  | inr positive ↦
      rw (positive, digits) (digits-All fuel (n / 10) ((b'0' + n % 10) ∷ out) (omega arith, all))
]

digits-ne-nil : (fuel n : ℕ) (out : Text) → out ≢ [] → digits fuel n out ≢ []
unfolding digits
digits-ne-nil zero n out h = h
digits-ne-nil (suc fuel) n out h = elim (Bool-cases (n == 0)) [
  | inl is_zero ↦ rw (is_zero, digits) h
  | inr positive ↦
      rw (positive, digits) (digits-ne-nil fuel (n / 10) ((b'0' + n % 10) ∷ out) (λ h. absurd cc))
]

format-All : (n : ℕ) → All IsDigit (format n)
unfolding format
format-All n = elim (Bool-cases (n == 0)) [
  | inl is_zero ↦ rw (is_zero, format) (omega arith, tt)
  | inr positive ↦ rw (positive, format) (digits-All n n [] tt)
]

digits_positive : (fuel n : ℕ) → n ≤ fuel → n == 0 ≡ false → digits fuel n [] ≢ []
unfolding digits
digits_positive zero n enough positive = absurd (ground (arith, enough, positive))
digits_positive (suc fuel) n enough positive =
    rw (positive, digits) (digits-ne-nil fuel (n / 10) ((b'0' + n % 10) ∷ []) (λ h. absurd cc))

format-ne-nil : (n : ℕ) → format n ≢ []
unfolding format
format-ne-nil n = elim (Bool-cases (n == 0)) [
  | inl is_zero ↦ rw (is_zero, format) (λ h. absurd cc)
  | inr positive ↦ rw (positive, format) (digits_positive n n (omega arith) positive)
]

parse-digits : (s : Text) → s ≢ [] → All IsDigit s → parse s ≡ scan s 0
unfolding parse
parse-digits [] h all = absurd (h refl)
parse-digits (c ∷ []) h all = refl
parse-digits (c ∷ d ∷ s) h (digit, all) = ground (arith, digit)

scan-format : (n : ℕ) → n ≤ usize_max → scan (format n) 0 ≡ some n
unfolding format scan
scan-format n fits = elim (Bool-cases (n == 0)) [
  | inl is_zero ↦ rw (is_zero, format) (ground (arith, is_zero))
  | inr positive ↦ rw (positive, format) (scan-digits n n [] (omega arith) fits ∙ refl)
]

pub parse-format : (n : ℕ) → n ≤ usize_max → parse (format n) ≡ some n
unfolding format scan
parse-format n fits = parse-digits (format n) (format-ne-nil n) (format-All n) ∙ scan-format n fits

Lacks-digits : (b : ℕ) (s : Text) → (IsDigit b → ⊥) → All IsDigit s → Lacks b s
Lacks-digits b [] other all = tt
Lacks-digits b (c ∷ s) other (digit, all) =
    (λ same. other (subst IsDigit same digit), Lacks-digits b s other all)

pub Lacks-format : (b n : ℕ) → (IsDigit b → ⊥) → Lacks b (format n)
Lacks-format b n other = Lacks-digits b (format n) other (format-All n)
