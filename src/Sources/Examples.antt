-- ===== src/Sources/Examples.antt =====
-- Examples of the due sources.
use hofvarpnir.Base.{
  false, ◌+◌, ◌<◌, ◌≡◌, ◌↔◌, refl, true, none, some, pos, List, [], ◌∷◌, ◌++◌, Perm, All,
}
use hofvarpnir.Clock.{from_secs}
use hofvarpnir.Sources.{SourceRow, is_due, list_sources_due_for_indexing, clear_indexing_errors}
use hofvarpnir.Sources.Due.{failed_runs, failed_runs-is_due}
use hofvarpnir.Sources.Listed.{IsDue, IsOldestFirst, list_sources_due_for_indexing-IsOldestFirst}

-- A source that is indexed every hour, and was indexed at second 100.
abbrev hourly : SourceRow
hourly = record {
  id = 1;
  profile_id = 5;
  enabled = true;
  index_frequency_secs = pos 3600;
  last_indexed_at = some (from_secs 100);
  last_error = none;
  index_error_count = pos 0;
}

abbrev fresh_source : SourceRow
fresh_source = record hourly { id = 2; last_indexed_at = none }

due_at_4000 :
    list_sources_due_for_indexing (from_secs 4000) (hourly ∷ fresh_source ∷ [])
    ≡ fresh_source ∷ hourly ∷ []
unfolding list_sources_due_for_indexing is_due
due_at_4000 = refl

failed_runs-is_due_example :
    ((is_due (from_secs 4000) (failed_runs "timeout" 3 hourly) ≡ true)
      ↔ ((true ≡ true) × (3 < 3) × (from_secs 100 + from_secs 3600 < from_secs 4000)))
    × ((is_due (from_secs 4000) (clear_indexing_errors (failed_runs "timeout" 3 hourly)) ≡ true)
        ↔ ((true ≡ true) × (from_secs 100 + from_secs 3600 < from_secs 4000)))
failed_runs-is_due_example =
    failed_runs-is_due "timeout" 3 (from_secs 4000) (from_secs 100) 3600 hourly refl refl refl

abbrev table : List SourceRow
table = hourly ∷ record hourly { id = 3; enabled = false } ∷ fresh_source ∷ []

list_sources_due_for_indexing-IsOldestFirst_example :
    (left : List SourceRow) × Perm
      (list_sources_due_for_indexing (from_secs 4000) table ++ left)
      table
    × All (IsDue (from_secs 4000)) (list_sources_due_for_indexing (from_secs 4000) table)
    × All (λ s. ¬ IsDue (from_secs 4000) s) left
    × IsOldestFirst (list_sources_due_for_indexing (from_secs 4000) table)
list_sources_due_for_indexing-IsOldestFirst_example =
    list_sources_due_for_indexing-IsOldestFirst (from_secs 4000) table
