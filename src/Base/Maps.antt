-- ===== src/Base/Maps.antt =====
-- Maps from numbers to numbers as association lists, for the `HashMap`s of the actors.
use Prim.Native.Nat.{ℕ}
use mathlib.Core.Path.{◌≡◌}
use mathlib.Core.Bool.{Bool, true, false, ◌||◌}
use mathlib.Core.Option.{Option, none, some}
use mathlib.Core.List.{List, [], ◌∷◌}
use native.Mathlib.Omega.{arith}
use hofvarpnir.Base.Tests.{◌==◌, if◌then◌else◌}

abbrev pub contains_key : List (ℕ × ℕ) → ℕ → Bool
contains_key [] key = false
contains_key ((k, value) ∷ entries) key = k == key || contains_key entries key

abbrev pub remove_key : ℕ → List (ℕ × ℕ) → List (ℕ × ℕ)
remove_key key [] = []
remove_key key ((k, value) ∷ entries) =
    let rest = remove_key key entries in if k == key then rest else (k, value) ∷ rest

abbrev pub insert_key : ℕ → ℕ → List (ℕ × ℕ) → List (ℕ × ℕ)
insert_key key value entries = (key, value) ∷ remove_key key entries

abbrev pub find_key : ℕ → List (ℕ × ℕ) → Option ℕ
find_key key [] = none
find_key key ((k, value) ∷ entries) = if k == key then some value else find_key key entries

pub contains_key-remove_key :
    (key other : ℕ) (entries : List (ℕ × ℕ))
    → contains_key (remove_key key entries) other
      ≡ (if key == other then false else contains_key entries other)
contains_key-remove_key key other [] = ground arith
contains_key-remove_key key other ((k, value) ∷ entries) =
    ground (arith, contains_key-remove_key key other entries)

pub contains_key-insert_key :
    (key value other : ℕ) (entries : List (ℕ × ℕ))
    → contains_key (insert_key key value entries) other
      ≡ (if key == other then true else contains_key entries other)
contains_key-insert_key key value other entries =
    ground (arith, contains_key-remove_key key other entries)
