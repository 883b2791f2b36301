-- ===== src/Base/Lists.antt =====
-- Lists measured by native numbers, and sets of numbers kept as lists.
use Prim.Native.Nat.{ℕ, zero, suc, ◌+◌, min}
use mathlib.Core.Path.{◌≡◌, refl}
use mathlib.Core.Bool.{Bool, true, false, ◌||◌, ◌&&◌}
use mathlib.Core.Option.{Option, none, some}
use mathlib.Core.List.{List, [], ◌∷◌, ◌++◌}
use native.Mathlib.Omega.{arith}
use mathlib.Core.Logic.{inl, inr}
use hofvarpnir.Base.Tests.{◌==◌, if◌then◌else◌, Bool-cases}

module _ {ℓ} {A : Type ℓ} where
  abbrev pub length : List A → ℕ
  length [] = 0
  length (x ∷ xs) = suc (length xs)

  pub length-append : (xs ys : List A) → length (xs ++ ys) ≡ length xs + length ys
  length-append [] ys = omega arith
  length-append (x ∷ xs) ys = omega (arith, length-append xs ys)

  -- How many elements pass a test.
  abbrev pub count_if : (A → Bool) → List A → ℕ
  count_if p [] = 0
  count_if p (x ∷ xs) = if p x then suc (count_if p xs) else count_if p xs

  pub count_if-append :
      (p : A → Bool) (xs ys : List A) → count_if p (xs ++ ys) ≡ count_if p xs + count_if p ys
  count_if-append p [] ys = omega arith
  count_if-append p (x ∷ xs) ys = ground (arith, count_if-append p xs ys)

  abbrev pub All {κ} : (A → Type κ) → List A → Type κ
  All P [] = Unit
  All P (x ∷ xs) = P x × All P xs

  abbrev pub filter_if : (A → Bool) → List A → List A
  filter_if p [] = []
  filter_if p (x ∷ xs) = let rest = filter_if p xs in if p x then x ∷ rest else rest

  -- `into_iter().flatten()` over options.
  abbrev pub flatten_options : List (Option A) → List A
  flatten_options [] = []
  flatten_options (none ∷ xs) = flatten_options xs
  flatten_options (some x ∷ xs) = x ∷ flatten_options xs

  -- `Iterator::any` and `Iterator::all`.
  abbrev pub any_if : (A → Bool) → List A → Bool
  any_if p [] = false
  any_if p (x ∷ xs) = p x || any_if p xs

  abbrev pub all_if : (A → Bool) → List A → Bool
  all_if p [] = true
  all_if p (x ∷ xs) = p x && all_if p xs

  pub filter_if-All {κ} :
      (P : A → Type κ) (p : A → Bool) (xs : List A)
      → ((x : A) → p x ≡ true → P x)
      → All P (filter_if p xs)
  filter_if-All P p [] h = tt
  filter_if-All P p (x ∷ xs) h = elim (Bool-cases (p x)) [
    | inl in_ ↦ rw (in_) (h x in_, filter_if-All P p xs h)
    | inr out ↦ rw (out) (filter_if-All P p xs h)
  ]

  pub filter_if-All_of {κ ν} :
      (R : A → Type κ) (P : A → Type ν) (p : A → Bool) (xs : List A)
      → All R xs
      → ((x : A) → R x → p x ≡ true → P x)
      → All P (filter_if p xs)
  filter_if-All_of R P p [] all h = tt
  filter_if-All_of R P p (x ∷ xs) (r, rs) h = elim (Bool-cases (p x)) [
    | inl in_ ↦ rw (in_) (h x r in_, filter_if-All_of R P p xs rs h)
    | inr out ↦ rw (out) (filter_if-All_of R P p xs rs h)
  ]

  pub any_if-filter_if :
      (p q : A → Bool) (xs : List A) → any_if p (filter_if q xs) ≡ any_if (λ x. q x && p x) xs
  any_if-filter_if p q [] = refl
  any_if-filter_if p q (x ∷ xs) = ground (arith, any_if-filter_if p q xs)

  abbrev pub take : ℕ → List A → List A
  take zero xs = []
  take (suc n) [] = []
  take (suc n) (x ∷ xs) = x ∷ take n xs

-- `Iterator::min`.
abbrev pub minimum : List ℕ → Option ℕ
minimum [] = none
minimum (x ∷ xs) = elim (minimum xs) [ none ↦ some x | some y ↦ some (min x y) ]

-- A set of numbers.
abbrev pub contains : List ℕ → ℕ → Bool
contains [] a = false
contains (x ∷ xs) a = x == a || contains xs a

abbrev pub insert : ℕ → List ℕ → List ℕ
insert a xs = if contains xs a then xs else a ∷ xs

abbrev pub remove : ℕ → List ℕ → List ℕ
remove a [] = []
remove a (x ∷ xs) = let rest = remove a xs in if x == a then rest else x ∷ rest

pub contains-remove :
    (a b : ℕ) (xs : List ℕ) → contains (remove a xs) b ≡ (if a == b then false else contains xs b)
contains-remove a b [] = ground arith
contains-remove a b (x ∷ xs) = ground (arith, contains-remove a b xs)

pub contains-insert :
    (a b : ℕ) (xs : List ℕ) → contains (insert a xs) b ≡ (if a == b then true else contains xs b)
contains-insert a b xs = ground arith
