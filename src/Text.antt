-- ===== src/Text.antt =====
-- Strings as lists of code points, with the operations of Rust's standard library that the source
-- uses on them; the program's own code is in the modules that use this one.
pub mod Affix
pub mod Split
pub mod Decimal
use Prim.Native.Char.{code}
use Prim.Native.String.{String}
use hofvarpnir.Base.{
  ℕ, zero, suc, ◌+◌, ◌-◌, ◌*◌, ◌/◌, ◌%◌, ◌≢◌, Bool, true, false, ◌&&◌, ◌||◌, Option, none, some,
  List, [], ◌∷◌, length, All, ltb, ◌==◌, if◌then◌else◌, u64_max,
}

abbrev pub Text : Type 0
Text = List ℕ

-- The code points of a literal.
abbrev pub codes : String → Text
codes String.[] = []
codes (String.◌∷◌ c s) = code c ∷ codes s

abbrev pub Lacks : ℕ → Text → Type 0
Lacks b = All (λ c. c ≢ b)

-- `?` on an option.
infixl 5 ◌>>=◌
abbrev pub ◌>>=◌ {ℓ κ} : {A : Type ℓ} {B : Type κ} → Option A → (A → Option B) → Option B
none >>= f = none
some a >>= f = f a

abbrev prepend : ℕ → Option Text → Option Text
prepend c none = none
prepend c (some s) = some (c ∷ s)

unfoldable pub equal_text : Text → Text → Bool
equal_text [] [] = true
equal_text [] (b ∷ t) = false
equal_text (a ∷ s) [] = false
equal_text (a ∷ s) (b ∷ t) = a == b && equal_text s t

unfoldable pub strip_prefix : Text → Text → Option Text
strip_prefix [] s = some s
strip_prefix (p ∷ pattern) [] = none
strip_prefix (p ∷ pattern) (c ∷ s) =
    let rest = strip_prefix pattern s in if p == c then rest else none

unfoldable pub strip_suffix : Text → Text → Option Text
unfolding equal_text
strip_suffix suffix [] = if equal_text [] suffix then some [] else none
strip_suffix suffix (c ∷ s) =
    let rest = strip_suffix suffix s in
    if equal_text (c ∷ s) suffix then some [] else prepend c rest

abbrev split_head : ℕ → Option (Text × Text) → Option (Text × Text)
split_head c none = none
split_head c (some (before, after)) = some (c ∷ before, after)

-- `split_once`, at the first place where the pattern stands.
unfoldable pub split_once : Text → Text → Option (Text × Text)
unfolding strip_prefix
split_once separator [] = elim (strip_prefix separator []) [
  | some rest ↦ some ([], rest)
  | none ↦ none
]
split_once separator (c ∷ s) =
    let later = split_once separator s in
    elim (strip_prefix separator (c ∷ s)) [
      | some rest ↦ some ([], rest)
      | none ↦ split_head c later
    ]

abbrev onto_first : ℕ → List Text → List Text
onto_first c [] = (c ∷ []) ∷ []
onto_first c (part ∷ parts) = (c ∷ part) ∷ parts

abbrev pub is_some {ℓ} : {A : Type ℓ} → Option A → Bool
is_some none = false
is_some (some a) = true

-- `split`, for a pattern that is not empty; `skip` characters of one that was found are left.
unfoldable pub split_after : (separator : Text) (skip : ℕ) → Text → List Text
unfolding strip_prefix
split_after separator skip [] = [] ∷ []
split_after separator (suc skip) (c ∷ s) = split_after separator skip s
split_after separator zero (c ∷ s) = elim (is_some (strip_prefix separator (c ∷ s))) [
  | true ↦ [] ∷ split_after separator (length separator - 1) s
  | false ↦ onto_first c (split_after separator 0 s)
]

unfoldable pub split : (separator : Text) → Text → List Text
unfolding split_after
split separator s = split_after separator 0 s

-- The decimal digits of a number on the fuel of the number itself, before the text.
unfoldable pub digits : (fuel n : ℕ) → Text → Text
digits zero n out = out
digits (suc fuel) n out = elim (n == 0) [
  | true ↦ out
  | false ↦ digits fuel (n / 10) ((b'0' + n % 10) ∷ out)
]

-- `Display` of a `usize`.
unfoldable pub format : ℕ → Text
unfolding digits
format n = if n == 0 then b'0' ∷ [] else digits n n []

abbrev pub usize_max : ℕ
usize_max = u64_max

-- The digits that `parse` reads, with its checks of the multiplication and the addition.
unfoldable pub scan : Text → ℕ → Option ℕ
scan [] n = some n
scan (c ∷ s) n =
    let m = n * 10 + (c - b'0') in
    elim (ltb c b'0' || ltb b'9' c || ltb usize_max m) [ true ↦ none | false ↦ scan s m ]

-- `parse::<usize>().ok()`: a plus sign may stand before the digits.
unfoldable pub parse : Text → Option ℕ
unfolding scan
parse [] = none
parse (c ∷ []) = scan (c ∷ []) 0
parse (c ∷ d ∷ s) = if c == b'+' then scan (d ∷ s) 0 else scan (c ∷ d ∷ s) 0
