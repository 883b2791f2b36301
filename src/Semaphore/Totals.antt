-- ===== src/Semaphore/Totals.antt =====
-- Permits are neither lost nor made: how each operation changes their number.
use hofvarpnir.Base.{ℕ, zero, suc, ◌+◌, ◌≤◌, ◌≡◌, ◌⊎◌, List, [], ◌∷◌, length, contains, true, arith}
use hofvarpnir.Semaphore.{Permits, free_one, free_many, taken, remove_first}

-- Free and held permits together.
abbrev pub total : Permits → ℕ
total p = p.available + length p.holders

-- Nobody waits while a permit is free.
abbrev pub IsFair : Permits → Type 0
IsFair p = (p.available ≡ 0) ⊎ (p.waiters ≡ [])

pub total-free_one : (p : Permits) → total (free_one p) ≡ suc (total p)
total-free_one p = ground arith

pub total-free_many : (n : ℕ) (p : Permits) → total (free_many n p) ≡ n + total p
total-free_many zero p = omega arith
total-free_many (suc n) p = omega (arith, total-free_many n (free_one p), total-free_one p)

holders-free_many : (n : ℕ) (p : Permits) → length p.holders ≤ length (free_many n p).holders
holders-free_many zero p = omega arith
holders-free_many (suc n) p = ground (arith, holders-free_many n (free_one p))

pub total-taken : (task : ℕ) (p : Permits) → total (taken task p) ≡ total p
total-taken task p = ground arith

pub length-remove_first :
    (a : ℕ) (xs : List ℕ) → contains xs a ≡ true → suc (length (remove_first a xs)) ≡ length xs
length-remove_first a [] h = ground arith
length-remove_first a (x ∷ xs) h = ground (arith, length-remove_first a xs)
