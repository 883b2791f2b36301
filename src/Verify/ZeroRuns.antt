-- ===== src/Verify/ZeroRuns.antt =====
-- The scan for zeros against an independent description of what it looks for (verify.rs).
use hofvarpnir.Base.{
  ℕ, zero, suc, ◌+◌, ◌<◌, ◌≡◌, ◌≢◌, refl, ap, Bool, true, false, ◌&&◌, Option, none, some, List, [],
  ◌∷◌, ◌++◌, ◌==◌, if◌then◌else◌, arith,
}

abbrev pub shift : ℕ → Option ℕ → Option ℕ
shift n none = none
shift n (some i) = some (n + i)

pub shift-shift : (m n l : ℕ) (o : Option ℕ) → m + n ≡ l → shift m (shift n o) ≡ shift l o
shift-shift m n l none sum = refl
shift-shift m n l (some i) sum = ap some (omega (arith, sum))

-- `n` zeros stand at the head.
starts_with_zeros : ℕ → List ℕ → Bool
starts_with_zeros zero bytes = true
starts_with_zeros (suc n) [] = false
starts_with_zeros (suc n) (b ∷ bytes) = b == 0 && starts_with_zeros n bytes

-- Where the first run of `n` zeros starts.
pub first_zero_run : ℕ → List ℕ → Option ℕ
unfolding starts_with_zeros
first_zero_run n [] = none
first_zero_run n (b ∷ bytes) =
    let later = first_zero_run n bytes in
    if starts_with_zeros n (b ∷ bytes) then some 0 else shift 1 later

abbrev pub zeros : ℕ → List ℕ
zeros zero = []
zeros (suc n) = 0 ∷ zeros n

zeros_enough : (k : ℕ) (bytes : List ℕ) → starts_with_zeros k (zeros k ++ bytes) ≡ true
unfolding starts_with_zeros
zeros_enough zero bytes = refl
zeros_enough (suc k) bytes = ground (arith, zeros_enough k bytes)

zeros_short :
    (n k b : ℕ) (bytes : List ℕ)
    → k < n
    → b ≢ 0
    → starts_with_zeros n (zeros k ++ b ∷ bytes) ≡ false
unfolding starts_with_zeros
zeros_short zero k b bytes lt nz = absurd (omega arith)
zeros_short (suc n) zero b bytes lt nz = ground (arith, nz)
zeros_short (suc n) (suc k) b bytes lt nz = ground (arith, zeros_short n k b bytes)

zeros_end : (n k : ℕ) → k < n → starts_with_zeros n (zeros k ++ []) ≡ false
unfolding starts_with_zeros
zeros_end zero k lt = absurd (omega arith)
zeros_end (suc n) zero lt = refl
zeros_end (suc n) (suc k) lt = ground (arith, zeros_end n k)

-- Zeros that are cut short by another byte hold no run, and neither does their end.
pub skip_short :
    (n k b : ℕ) (bytes : List ℕ)
    → k < n
    → b ≢ 0
    → first_zero_run n (zeros k ++ b ∷ bytes) ≡ shift (suc k) (first_zero_run n bytes)
unfolding first_zero_run
skip_short n zero b bytes lt nz = rw (zeros_short n zero b bytes lt nz) refl
skip_short n (suc k) b bytes lt nz =
    rw (zeros_short n (suc k) b bytes lt nz, skip_short n k b bytes (omega arith) nz)
      (shift-shift 1 (suc k) _ (first_zero_run n bytes) (omega arith))

pub none_short : (n k : ℕ) → k < n → first_zero_run n (zeros k ++ []) ≡ none
unfolding first_zero_run
none_short n zero lt = refl
none_short n (suc k) lt = rw (zeros_end n (suc k) lt, none_short n k (omega arith)) refl

pub at_head : (n : ℕ) (bytes : List ℕ) → first_zero_run (suc n) (zeros (suc n) ++ bytes) ≡ some 0
unfolding first_zero_run
at_head n bytes = rw (zeros_enough (suc n) bytes) refl

pub zeros_snoc : (k : ℕ) (bytes : List ℕ) → zeros k ++ 0 ∷ bytes ≡ zeros (suc k) ++ bytes
zeros_snoc zero bytes = refl
zeros_snoc (suc k) bytes = ap (λ xs. 0 ∷ xs) (zeros_snoc k bytes)
