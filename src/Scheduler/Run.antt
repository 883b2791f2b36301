-- ===== src/Scheduler/Run.antt =====
-- A run of the scheduler: the messages that it handles, and the results of its indexers.
use hofvarpnir.Base.{ℕ, Option, none, some, List, [], ◌∷◌, ◌==◌, if◌then◌else◌, count_if}
use hofvarpnir.Clock.{Calendar}
use hofvarpnir.Indexing.{IndexingResult}
use hofvarpnir.Scheduler.{
  Runtime, Env, start_scheduler, stop_scheduler, check_sources, index_source, indexing_completed,
}

-- The task that waits for the indexer's result takes it, and the indexer's source with it.
abbrev pub put_back : ℕ × ℕ → Option (ℕ × List (ℕ × ℕ)) → Option (ℕ × List (ℕ × ℕ))
put_back entry none = none
put_back entry (some (source, rest)) = some (source, entry ∷ rest)

abbrev pub take_indexer : ℕ → List (ℕ × ℕ) → Option (ℕ × List (ℕ × ℕ))
take_indexer indexer [] = none
take_indexer indexer ((i, source) ∷ entries) =
    let later = take_indexer indexer entries in
    if i == indexer then some (source, entries) else put_back (i, source) later

-- The task sends `IndexingCompleted`, whatever the indexer came to.
unfoldable pub indexer_finished : Env → ℕ → IndexingResult → Runtime → Runtime
unfolding indexing_completed
indexer_finished env indexer result s = elim (take_indexer indexer s.indexers) [
  | none ↦ s
  | some (source, rest) ↦ indexing_completed env source result (record s { indexers = rest })
]

pub data Event : Type 0 where
  started stopped ticked : Event
  index_asked : (source : ℕ) → Event
  finished : (indexer : ℕ) → IndexingResult → Event

unfoldable pub handle_event : Calendar → Env → Event → Runtime → Runtime
unfolding start_scheduler stop_scheduler check_sources index_source indexer_finished
handle_event c env started s = start_scheduler s
handle_event c env stopped s = stop_scheduler s
handle_event c env ticked s = check_sources c env s
handle_event c env (index_asked source) s = (index_source c env source s).0
handle_event c env (finished indexer result) s = indexer_finished env indexer result s

abbrev pub run : Calendar → List (Env × Event) → Runtime → Runtime
run c [] s = s
run c ((env, event) ∷ events) s = run c events (handle_event c env event s)

-- How many indexers of a source there are whose result has not come.
abbrev pub indexers_of : ℕ → Runtime → ℕ
indexers_of source s = count_if (λ entry. entry.1 == source) s.indexers
