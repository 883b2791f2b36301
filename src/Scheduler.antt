-- ===== src/Scheduler.antt =====
-- crates/hof-core/src/actors/scheduler.rs: the actor that decides which sources are indexed when.
-- `active_indexers` maps a source to the number of its indexer; `indexers` are the spawned tasks
-- that still wait for the result of an indexer, with its number and source.
pub mod Run
pub mod Spawned
pub mod Tick
pub mod Single
pub mod Manual
pub mod Once
mod Examples
use Prim.Native.String.{String}
use hofvarpnir.Base.{
  ℕ, suc, ◌+◌, ◌-◌, Bool, true, false, not, ◌&&◌, Option, none, some, List, [], ◌∷◌, ◌++◌, length,
  ltb, leb, ◌==◌, if◌then◌else◌, contains_key, insert_key, remove_key, find_key, Result, ok, err,
}
use hofvarpnir.Clock.{Calendar, from_secs, as_secs}
use hofvarpnir.Settings.{EffectiveSettings, Resolved, indexing_paused, indefinite_pause}
use hofvarpnir.Database.{DbError, not_found, query_failed, Profile, find_profile}
use hofvarpnir.Sources.{
  SourceRow, list_sources_due_for_indexing, reset_source_indexing_errors, find_source_row,
}
use hofvarpnir.Text.{Text, codes, format}
use hofvarpnir.Indexing.{IndexingResult, indexed_message}

abbrev min_index_interval_secs : ℕ
min_index_interval_secs = 300

pub record Scheduler : Type 0 where
  pub running : Bool
  pub last_indexed : List (ℕ × ℕ)
  pub active_indexers : List (ℕ × ℕ)

-- A row of the activity log.
pub data Report : Type 0 where
  source_indexed : (source : ℕ) (message : Text) → Report
  source_error : (source : ℕ) (message : Text) → Report

pub record Runtime : Type 0 where
  pub scheduler : Scheduler
  pub sources : List SourceRow
  pub indexers : List (ℕ × ℕ)
  pub next_indexer : ℕ
  -- The indexers that were asked to stop, and the sweeps that the supervisor was told to do.
  pub stopped : List ℕ
  pub sweeps : ℕ
  -- The loops that send `CheckSources`.
  pub tickers : ℕ
  pub reports : List Report

-- What a handler reads: the clocks, the settings, the drain, the profiles, and which of its
-- queries fail. The clocks are read once for a message.
pub record Env : Type 0 where
  pub utc_now : ℕ
  pub instant_now : ℕ
  pub settings : EffectiveSettings
  pub draining : Bool
  pub profiles : List Profile
  pub list_fault : Option String
  pub profile_fault : ℕ → Option String
  pub reset_fault : Option String
  pub source_fault : Option String

-- The texts of the refusals.
pub data Refusal : Type 0 where
  draining_refusal : Refusal
  paused_indefinitely : Refusal
  paused_until : ℕ → Refusal
  paused : Refusal

unfoldable pub indexing_refusal_for : Calendar → EffectiveSettings → Bool → ℕ → Option Refusal
unfolding indexing_paused indefinite_pause
indexing_refusal_for c settings draining now =
    if draining
    then some draining_refusal
    else if indexing_paused settings now
    then some (elim settings.indexing_paused_until [
      | some until ↦ if until == indefinite_pause c then paused_indefinitely else paused_until until
      | none ↦ paused
    ])
    else none

unfoldable pub indexing_refusal : Calendar → Env → Option Refusal
unfolding indexing_refusal_for
indexing_refusal c env = indexing_refusal_for c env.settings env.draining env.utc_now

abbrev pub profile_of : Env → SourceRow → Result DbError Profile
profile_of env source = elim (env.profile_fault source.id) [
  | some e ↦ err (query_failed e)
  | none ↦ elim (find_profile source.profile_id env.profiles) [
    | some profile ↦ ok profile
    | none ↦ err not_found
  ]
]

abbrev pub track_indexer : ℕ → Runtime → Runtime
track_indexer source s = record s {
  scheduler = record s.scheduler {
    active_indexers = insert_key source s.next_indexer s.scheduler.active_indexers;
  };
  indexers = s.indexers ++ (s.next_indexer, source) ∷ [];
  next_indexer = suc s.next_indexer;
}

unfoldable pub spawn_indexer : Env → SourceRow → Runtime → Runtime × Result DbError (Unit {0})
spawn_indexer env source s = elim (profile_of env source) [
  | err e ↦ (s, err e)
  | ok profile ↦ (track_indexer source.id s, ok tt)
]

-- `last.elapsed() < MIN_INDEX_INTERVAL_SECS`.
abbrev pub too_recent : Env → Scheduler → ℕ → Bool
too_recent env scheduler source = elim (find_key source scheduler.last_indexed) [
  | none ↦ false
  | some last ↦ ltb (env.instant_now - last) (from_secs min_index_interval_secs)
]

-- The loop over the due sources; a spawn that fails counts as one of the tick's.
unfoldable pub spawn_each : Env → (cap spawned_this_tick : ℕ) → List SourceRow → Runtime → Runtime
unfolding spawn_indexer
spawn_each env cap spawned_this_tick [] s = s
spawn_each env cap spawned_this_tick (source ∷ sources) s = elim (leb cap spawned_this_tick) [
  | true ↦ s
  | false ↦ elim (contains_key s.scheduler.active_indexers source.id) [
    | true ↦ spawn_each env cap spawned_this_tick sources s
    | false ↦ elim (too_recent env s.scheduler source.id) [
      | true ↦ spawn_each env cap spawned_this_tick sources s
      | false ↦ spawn_each env cap (suc spawned_this_tick) sources ((spawn_indexer env source s).0)
    ]
  ]
]

unfoldable pub spawn_due_indexers : Env → Runtime → Runtime
unfolding spawn_each list_sources_due_for_indexing
spawn_due_indexers env s = elim env.list_fault [
  | some e ↦ s
  | none ↦
      spawn_each env env.settings.max_indexers_per_tick.value 0
        (list_sources_due_for_indexing env.utc_now s.sources) s
]

-- A loop that is spawned lasts as long as the actor.
unfoldable pub start_scheduler : Runtime → Runtime
start_scheduler s =
    if s.scheduler.running
    then s
    else record s { scheduler = record s.scheduler { running = true }; tickers = suc s.tickers }

unfoldable pub stop_scheduler : Runtime → Runtime
stop_scheduler s = record s { scheduler = record s.scheduler { running = false } }

abbrev pub sweep_downloads : Runtime → Runtime
sweep_downloads s = record s { sweeps = suc s.sweeps }

unfoldable pub check_sources : Calendar → Env → Runtime → Runtime
unfolding spawn_due_indexers indexing_refusal
check_sources c env s = if not s.scheduler.running then s else elim (indexing_refusal c env) [
  | some refusal ↦ sweep_downloads s
  | none ↦ sweep_downloads (spawn_due_indexers env s)
]

pub data IndexError : Type 0 where
  already_indexed : IndexError
  refused_by : Refusal → IndexError
  database_error : DbError → IndexError

abbrev pub reset_errors : Env → ℕ → Runtime → Runtime × Result DbError (Unit {0})
reset_errors env id s = elim env.reset_fault [
  | some e ↦ (s, err (query_failed e))
  | none ↦
      let (answer, sources) = reset_source_indexing_errors id s.sources in
      (record s { sources = sources }, answer)
]

abbrev pub lookup_source : Env → ℕ → Runtime → Result DbError SourceRow
lookup_source env id s = elim env.source_fault [
  | some e ↦ err (query_failed e)
  | none ↦ elim (find_source_row id s.sources) [ some source ↦ ok source | none ↦ err not_found ]
]

abbrev pub to_index_error :
    Runtime × Result DbError (Unit {0}) → Runtime × Result IndexError (Unit {0})
to_index_error (s, ok _) = (s, ok tt)
to_index_error (s, err e) = (s, err (database_error e))

-- What `IndexSource` does once it is not refused.
unfoldable pub index_now : Env → ℕ → Runtime → Runtime × Result IndexError (Unit {0})
unfolding spawn_indexer reset_source_indexing_errors find_source_row
index_now env id s = elim ((reset_errors env id s).1) [
  | err e ↦ ((reset_errors env id s).0, err (database_error e))
  | ok _ ↦ elim (lookup_source env id ((reset_errors env id s).0)) [
    | err e ↦ ((reset_errors env id s).0, err (database_error e))
    | ok source ↦ to_index_error (spawn_indexer env source ((reset_errors env id s).0))
  ]
]

unfoldable pub index_source : Calendar → Env → ℕ → Runtime → Runtime × Result IndexError (Unit {0})
unfolding index_now indexing_refusal
index_source c env id s =
    if contains_key s.scheduler.active_indexers id
    then (s, err already_indexed)
    else elim (indexing_refusal c env) [
      | some refusal ↦ (s, err (refused_by refusal))
      | none ↦ index_now env id s
    ]

abbrev report_of : ℕ → IndexingResult → Report
report_of source result = elim result.errors [
  | [] ↦ source_indexed source (indexed_message result)
  | (error ∷ errors) ↦ source_error source (
      codes "Indexing had " ++ (format (length (error ∷ errors)) ++ (codes " error(s): " ++ error)))
]

unfoldable pub indexing_completed : Env → ℕ → IndexingResult → Runtime → Runtime
unfolding indexed_message format
indexing_completed env source result s = record s {
  scheduler = record s.scheduler {
    active_indexers = remove_key source s.scheduler.active_indexers;
    last_indexed = insert_key source env.instant_now s.scheduler.last_indexed;
  };
  reports = report_of source result ∷ s.reports;
}

unfoldable add_source : Env → SourceRow → Runtime → Runtime
unfolding spawn_indexer
add_source env source s = (spawn_indexer env source s).0

unfoldable remove_source : ℕ → Runtime → Runtime
remove_source id s = record s {
  scheduler = record s.scheduler {
    active_indexers = remove_key id s.scheduler.active_indexers;
    last_indexed = remove_key id s.scheduler.last_indexed;
  };
  stopped = elim (find_key id s.scheduler.active_indexers) [
    | none ↦ s.stopped
    | some i ↦ i ∷ s.stopped
  ];
}

pub record SchedulerStatus : Type 0 where
  pub running : Bool
  pub active_indexers : ℕ
  pub check_interval_secs : ℕ

abbrev scheduler_status : Env → Runtime → SchedulerStatus
scheduler_status env s = record {
  running = s.scheduler.running;
  active_indexers = length s.scheduler.active_indexers;
  check_interval_secs = as_secs env.settings.check_interval.value;
}
