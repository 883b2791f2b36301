-- ===== src/Base/Sort.antt =====
-- Insertion sort, for the ORDER BY of a query.
use mathlib.Core.Path.{◌≡◌, refl}
use mathlib.Core.Logic.{inl, inr}
use mathlib.Core.Bool.{Bool, true, false}
use mathlib.Core.List.{List, [], ◌∷◌, Perm}
use mathlib.Core.List.Perm
use native.Mathlib.Omega.{arith}
use hofvarpnir.Base.Lists.{All, any_if}
use hofvarpnir.Base.Tests.{Bool-cases, if◌then◌else◌}

module _ {ℓ} {A : Type ℓ} (before : A → A → Bool) where
  abbrev insert_by : A → List A → List A
  insert_by a [] = a ∷ []
  insert_by a (b ∷ bs) = let rest = insert_by a bs in if before a b then a ∷ b ∷ bs else b ∷ rest

  abbrev pub sort_by : List A → List A
  sort_by [] = []
  sort_by (a ∷ xs) = insert_by a (sort_by xs)

  abbrev pub IsSorted : List A → Type ℓ
  IsSorted [] = Unit
  IsSorted (a ∷ xs) = All (λ b. before a b ≡ true) xs × IsSorted xs

  insert_by-perm : (a : A) (bs : List A) → Perm (insert_by a bs) (a ∷ bs)
  insert_by-perm a [] = Perm.refl (a ∷ [])
  insert_by-perm a (b ∷ bs) = elim (Bool-cases (before a b)) [
    | inl first ↦ rw first (Perm.refl (a ∷ b ∷ bs))
    | inr later ↦ rw later (Perm.trans (Perm.cons b (insert_by-perm a bs)) (Perm.swap a b bs))
  ]

  pub sort_by-perm : (xs : List A) → Perm (sort_by xs) xs
  sort_by-perm [] = Perm.refl []
  sort_by-perm (a ∷ xs) = Perm.trans (insert_by-perm a (sort_by xs)) (Perm.cons a (sort_by-perm xs))

  insert_by-All {κ} :
      (P : A → Type κ) (a : A) (bs : List A) → P a → All P bs → All P (insert_by a bs)
  insert_by-All P a [] h all = (h, tt)
  insert_by-All P a (b ∷ bs) h all = elim (Bool-cases (before a b)) [
    | inl first ↦ rw first (h, all)
    | inr later ↦ rw later (all.0, insert_by-All P a bs h all.1)
  ]

  pub sort_by-All {κ} : (P : A → Type κ) (xs : List A) → All P xs → All P (sort_by xs)
  sort_by-All P [] all = tt
  sort_by-All P (a ∷ xs) all = insert_by-All P a (sort_by xs) all.0 (sort_by-All P xs all.1)

  insert_by-any_if :
      (p : A → Bool) (a : A) (bs : List A) → any_if p (insert_by a bs) ≡ any_if p (a ∷ bs)
  insert_by-any_if p a [] = refl
  insert_by-any_if p a (b ∷ bs) = ground (arith, insert_by-any_if p a bs)

  pub sort_by-any_if : (p : A → Bool) (xs : List A) → any_if p (sort_by xs) ≡ any_if p xs
  sort_by-any_if p [] = refl
  sort_by-any_if p (a ∷ xs) = ground (arith, insert_by-any_if p a (sort_by xs), sort_by-any_if p xs)

  module _ (total : (a b : A) → before a b ≡ false → before b a ≡ true)
      (trans : (a b c : A) → before a b ≡ true → before b c ≡ true → before a c ≡ true) where
    All-before :
        (a b : A) (cs : List A)
        → before a b ≡ true
        → All (λ c. before b c ≡ true) cs
        → All (λ c. before a c ≡ true) cs
    All-before a b [] h all = tt
    All-before a b (c ∷ cs) h all = (trans a b c h all.0, All-before a b cs h all.1)

    insert_by-IsSorted : (a : A) (bs : List A) → IsSorted bs → IsSorted (insert_by a bs)
    insert_by-IsSorted a [] sorted = (tt, tt)
    insert_by-IsSorted a (b ∷ bs) sorted = elim (Bool-cases (before a b)) [
      | inl first ↦ rw first ((first, All-before a b bs first sorted.0), sorted)
      | inr later ↦ rw later (
        insert_by-All (λ c. before b c ≡ true) a bs (total a b later) sorted.0,
        insert_by-IsSorted a bs sorted.1,
      )
    ]

    pub sort_by-IsSorted : (xs : List A) → IsSorted (sort_by xs)
    sort_by-IsSorted [] = tt
    sort_by-IsSorted (a ∷ xs) = insert_by-IsSorted a (sort_by xs) (sort_by-IsSorted xs)
