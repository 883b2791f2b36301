-- ===== src/Scheduler/Examples.antt =====
-- Examples of the scheduler.
use hofvarpnir.Base.{
  ℕ, ◌≤◌, ◌≡◌, refl, true, false, none, pos, List, [], ◌∷◌, contains_key, if◌then◌else◌,
}
use hofvarpnir.Clock.{from_secs}
use hofvarpnir.Samples.{calendar, settings, profile}
use hofvarpnir.Settings.{indexing_paused}
use hofvarpnir.Database.{find_profile}
use hofvarpnir.Indexing.Counts.{unfiltered}
use hofvarpnir.Sources.{SourceRow, is_due, list_sources_due_for_indexing}
use hofvarpnir.Scheduler.{
  Runtime, Env, check_sources, spawn_indexer, indexing_refusal, indexing_refusal_for,
  spawn_due_indexers, spawn_each, start_scheduler, index_source, index_now, indexing_completed,
}
use hofvarpnir.Scheduler.Run.{
  Event, started, ticked, index_asked, finished, run, indexers_of, handle_event, indexer_finished,
}
use hofvarpnir.Scheduler.Tick.{Ticks, check_sources-Ticks}
use hofvarpnir.Scheduler.Once.{run-single}

abbrev row : ℕ → SourceRow
row id = record {
  id = id;
  profile_id = profile.id;
  enabled = true;
  index_frequency_secs = pos 3600;
  last_indexed_at = none;
  last_error = none;
  index_error_count = pos 0;
}

abbrev env : Env
env = record {
  utc_now = from_secs 5000;
  instant_now = from_secs 5000;
  settings = settings;
  draining = false;
  profiles = profile ∷ [];
  list_fault = none;
  profile_fault = λ id. none;
  reset_fault = none;
  source_fault = none;
}

abbrev idle : Runtime
idle = record {
  scheduler = record { running = false; last_indexed = []; active_indexers = [] };
  sources = row 1 ∷ row 2 ∷ [];
  indexers = [];
  next_indexer = 0;
  stopped = [];
  sweeps = 0;
  tickers = 0;
  reports = [];
}

abbrev events : List (Env × Event)
events =
    (env, started)
    ∷ (env, ticked)
    ∷ (env, index_asked 1)
    ∷ (env, finished 0 (unfiltered 2 3))
    ∷ (env, index_asked 1)
    ∷ []

-- The tick starts the indexers 0 and 1; the first request is refused, and the second is served
-- once indexer 0 is done.
indexers_at_end : (run calendar events idle).indexers ≡ (1, 2) ∷ (2, 1) ∷ []
unfolding handle_event start_scheduler check_sources spawn_due_indexers spawn_each spawn_indexer
    list_sources_due_for_indexing is_due indexing_refusal indexing_refusal_for indexing_paused
    index_source index_now indexer_finished indexing_completed find_profile
indexers_at_end = refl

run-single_example :
    (indexers_of 1 (run calendar events idle) ≤ 1)
    × (indexers_of 1 (run calendar events idle)
        ≡ (if contains_key (run calendar events idle).scheduler.active_indexers 1 then 1 else 0))
run-single_example = run-single calendar events idle 1 refl refl

check_sources-Ticks_example : Ticks calendar env idle (check_sources calendar env idle)
check_sources-Ticks_example = check_sources-Ticks calendar env idle
