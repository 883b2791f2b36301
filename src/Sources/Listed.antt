-- ===== src/Sources/Listed.antt =====
-- What the scheduler's query for the due sources returns (db/source.rs).
use hofvarpnir.Base.{
  ℕ, ◌+◌, ◌<◌, ◌≤◌, ◌≡◌, refl, ◌⊎◌, inl, inr, true, false, Option, none, some, Option-cases,
  Bool-cases, pos, pos_part, neg_part, ◌≤ℤ◌, List, [], ◌∷◌, ◌++◌, Perm, All, filter_if, sort_by,
  sort_by-perm, sort_by-All, sort_by-IsSorted, IsSorted, arith,
}
use mathlib.Core.List.{perm_middle}
use mathlib.Core.List.Perm
use hofvarpnir.Clock.{from_secs}
use hofvarpnir.Sources.{
  SourceRow, is_due, nulls_first, indexed_before, list_sources_due_for_indexing,
}

-- The source is enabled, has failed less than three times in a row, and was never indexed or is past
-- its interval.
abbrev pub IsDue : ℕ → SourceRow → Type 0
IsDue now source =
    (source.enabled ≡ true)
    × (¬ (pos 3 ≤ℤ source.index_error_count))
    × ((source.last_indexed_at ≡ none)
        ⊎ ((last : ℕ) × (source.last_indexed_at ≡ some last)
            × (last + from_secs (pos_part source.index_frequency_secs)
                < now + from_secs (neg_part source.index_frequency_secs))))

is_due-IsDue : (now : ℕ) (source : SourceRow) → is_due now source ≡ true → IsDue now source
unfolding is_due
is_due-IsDue now source due = elim (Option-cases source.last_indexed_at) [
  | inl never ↦ (ground (arith, due), ground (arith, due), inl never)
  | inr (last, at) ↦
      (ground (arith, due), ground (arith, due), inr (last, at, ground (arith, due, at)))
]

not-IsDue : (now : ℕ) (source : SourceRow) → is_due now source ≡ false → ¬ IsDue now source
unfolding is_due
not-IsDue now source is (on, few, inl never) = ground (arith, is, on, few, never)
not-IsDue now source is (on, few, inr (last, at, late)) = ground (arith, is, on, few, at, late)

-- Those that were never indexed come first, and then the longest ago.
abbrev pub ComesFirst : SourceRow → SourceRow → Type 0
ComesFirst a b =
    (a.last_indexed_at ≡ none)
    ⊎ ((s t : ℕ) × (a.last_indexed_at ≡ some s) × (b.last_indexed_at ≡ some t) × (s ≤ t))

abbrev pub IsOldestFirst : List SourceRow → Type 0
IsOldestFirst [] = Unit
IsOldestFirst (a ∷ rest) = All (ComesFirst a) rest × IsOldestFirst rest

nulls_first-total : (a b : Option ℕ) → nulls_first a b ≡ false → nulls_first b a ≡ true
nulls_first-total none b h = absurd cc
nulls_first-total (some a) none h = refl
nulls_first-total (some a) (some b) h = ground (arith, h)

nulls_first_trans :
    (a b c : Option ℕ) → nulls_first a b ≡ true → nulls_first b c ≡ true → nulls_first a c ≡ true
nulls_first_trans none b c h k = refl
nulls_first_trans (some a) none c h k = absurd cc
nulls_first_trans (some a) (some b) none h k = k
nulls_first_trans (some a) (some b) (some c) h k = ground (arith, h, k)

indexed_before-ComesFirst : (a b : SourceRow) → indexed_before a b ≡ true → ComesFirst a b
indexed_before-ComesFirst a b h = go a.last_indexed_at b.last_indexed_at refl refl
  where
    go : (s t : Option ℕ) → a.last_indexed_at ≡ s → b.last_indexed_at ≡ t → ComesFirst a b
    go none t at at' = inl at
    go (some s) none at at' = absurd (ground (arith, h, at, at'))
    go (some s) (some t) at at' = inr (s, t, at, at', ground (arith, h, at, at'))

All-ComesFirst :
    (a : SourceRow) (rest : List SourceRow)
    → All (λ b. indexed_before a b ≡ true) rest
    → All (ComesFirst a) rest
All-ComesFirst a [] all = tt
All-ComesFirst a (b ∷ rest) (h, all) = (indexed_before-ComesFirst a b h, All-ComesFirst a rest all)

IsSorted-IsOldestFirst : (rows : List SourceRow) → IsSorted indexed_before rows → IsOldestFirst rows
IsSorted-IsOldestFirst [] sorted = tt
IsSorted-IsOldestFirst (a ∷ rest) (first, sorted) =
    (All-ComesFirst a rest first, IsSorted-IsOldestFirst rest sorted)

-- The rows that are due, those that are not, and the table.
abbrev Parted : ℕ → (table due left : List SourceRow) → Type 0
Parted now table due left =
    Perm (due ++ left) table × All (IsDue now) due × All (λ s. ¬ IsDue now s) left

filter_if-Parted :
    (now : ℕ) (table : List SourceRow)
    → (left : List SourceRow) × Parted now table (filter_if (is_due now) table) left
filter_if-Parted now [] = ([], (Perm.refl [], tt, tt))
filter_if-Parted now (s ∷ table) =
    let (left, (same, due, other)) = filter_if-Parted now table in
    elim (Bool-cases (is_due now s)) [
      | inl is ↦ rw (is) (left, (Perm.cons s same, (is_due-IsDue now s is, due), other))
      | inr is ↦ rw (is) (
        s ∷ left,
        (
          Perm.trans (perm_middle (filter_if (is_due now) table) left) (Perm.cons s same),
          due,
          (not-IsDue now s is, other),
        ),
      )
    ]

-- The query splits the table into the rows that are due, which it returns in order, those that were
-- never indexed first and then the longest ago, and the rows that are not due.
pub list_sources_due_for_indexing-IsOldestFirst :
    (now : ℕ) (sources : List SourceRow)
    → (left : List SourceRow) × Perm (list_sources_due_for_indexing now sources ++ left) sources
      × All (IsDue now) (list_sources_due_for_indexing now sources)
      × All (λ s. ¬ IsDue now s) left
      × IsOldestFirst (list_sources_due_for_indexing now sources)
unfolding list_sources_due_for_indexing
list_sources_due_for_indexing-IsOldestFirst now sources =
    let (left, (same, due, other)) = filter_if-Parted now sources in
    (
      left,
      Perm.trans
          (Perm.append_right left (sort_by-perm indexed_before (filter_if (is_due now) sources)))
          same,
      sort_by-All indexed_before (IsDue now) (filter_if (is_due now) sources) due,
      other,
      IsSorted-IsOldestFirst (sort_by indexed_before (filter_if (is_due now) sources)) (
          sort_by-IsSorted indexed_before
            (λ a b. nulls_first-total a.last_indexed_at b.last_indexed_at)
            (λ a b c. nulls_first_trans a.last_indexed_at b.last_indexed_at c.last_indexed_at)
            (filter_if (is_due now) sources)),
    )
