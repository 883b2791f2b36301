-- ===== src/Scheduler/Once.antt =====
-- No source is indexed twice at a time, over a whole run.
use hofvarpnir.Base.{
  ℕ, suc, ◌≤◌, ◌≡◌, refl, subst, Bool-cases, inl, inr, ◌==◌, Option, none, some, Option-cases, List,
  [], ◌∷◌, if◌then◌else◌, count_if, contains_key, contains_key-remove_key, arith,
}
use hofvarpnir.Clock.{Calendar}
use hofvarpnir.Indexing.{IndexingResult}
use hofvarpnir.Scheduler.{Runtime, Env, start_scheduler, stop_scheduler, indexing_completed}
use hofvarpnir.Scheduler.Run.{
  put_back, take_indexer, indexer_finished, Event, started, stopped, ticked, index_asked, finished,
  handle_event, run, indexers_of,
}
use hofvarpnir.Scheduler.Single.{IsSingle, check_sources-IsSingle}
use hofvarpnir.Scheduler.Manual.{index_source-IsSingle}

-- What is taken, if anything is, was there once.
abbrev Taken : ℕ → List (ℕ × ℕ) → Option (ℕ × List (ℕ × ℕ)) → Type 0
Taken x entries none = Unit
Taken x entries (some (source, rest)) =
    count_if (λ e. e.1 == x) entries
    ≡ (if source == x then suc (count_if (λ e. e.1 == x) rest) else count_if (λ e. e.1 == x) rest)

put_back-Taken :
    (x : ℕ) (entry : ℕ × ℕ) (entries : List (ℕ × ℕ)) (o : Option (ℕ × List (ℕ × ℕ)))
    → Taken x entries o
    → Taken x (entry ∷ entries) (put_back entry o)
put_back-Taken x entry entries none taken = tt
put_back-Taken x entry entries (some (source, rest)) taken = ground (arith, taken)

take_indexer-Taken :
    (x indexer : ℕ) (entries : List (ℕ × ℕ)) → Taken x entries (take_indexer indexer entries)
take_indexer-Taken x indexer [] = tt
take_indexer-Taken x indexer ((i, source) ∷ entries) = elim (Bool-cases (i == indexer)) [
  | inl here ↦ rw here refl
  | inr later ↦ rw later (
      put_back-Taken x (i, source) entries (take_indexer indexer entries)
        (take_indexer-Taken x indexer entries))
]

finished-IsSingle :
    (env : Env) (indexer : ℕ) (result : IndexingResult) (s : Runtime)
    → IsSingle s
    → IsSingle (indexer_finished env indexer result s)
unfolding indexer_finished indexing_completed
finished-IsSingle env indexer result s single =
    elim (Option-cases (take_indexer indexer s.indexers)) [
      | inl unknown ↦ rw (unknown, indexer_finished) single
      | inr ((source, rest), taken) ↦
          let counted : (x : ℕ) → Taken x s.indexers (some (source, rest)) =
            λ x. subst (Taken x s.indexers) taken (take_indexer-Taken x indexer s.indexers) in
          rw (taken, indexer_finished, indexing_completed)
            (λ x. ground (
              arith,
              counted x,
              single x,
              contains_key-remove_key source x s.scheduler.active_indexers,
            ))
    ]

start_scheduler-IsSingle : (s : Runtime) → IsSingle s → IsSingle (start_scheduler s)
unfolding start_scheduler
start_scheduler-IsSingle s single = elim (Bool-cases s.scheduler.running) [
  | inl on ↦ rw (on, start_scheduler) single
  | inr off ↦ rw (off, start_scheduler) single
]

handle_event-IsSingle :
    (c : Calendar) (env : Env) (event : Event) (s : Runtime)
    → IsSingle s
    → IsSingle (handle_event c env event s)
unfolding handle_event stop_scheduler
handle_event-IsSingle c env started s single = start_scheduler-IsSingle s single
handle_event-IsSingle c env stopped s single = single
handle_event-IsSingle c env ticked s single = check_sources-IsSingle c env s single
handle_event-IsSingle c env (index_asked id) s single = index_source-IsSingle c env id s single
handle_event-IsSingle c env (finished indexer result) s single =
    finished-IsSingle env indexer result s single

run-IsSingle :
    (c : Calendar) (events : List (Env × Event)) (s : Runtime)
    → IsSingle s
    → IsSingle (run c events s)
run-IsSingle c [] s single = single
run-IsSingle c ((env, event) ∷ events) s single =
    run-IsSingle c events (handle_event c env event s) (handle_event-IsSingle c env event s single)

-- From a scheduler without indexers, after whatever starts, stops, ticks, manual requests and
-- ends of indexers there were, a source has at most one indexer, and has one exactly when it is
-- registered as active. Sources that are added or removed are left aside.
pub run-single :
    (c : Calendar) (events : List (Env × Event)) (s : Runtime) (source : ℕ)
    → s.indexers ≡ []
    → s.scheduler.active_indexers ≡ []
    → (indexers_of source (run c events s) ≤ 1)
      × (indexers_of source (run c events s)
          ≡ (if contains_key (run c events s).scheduler.active_indexers source then 1 else 0))
run-single c events s source none_waits none_active =
    let single = run-IsSingle c events s (λ x. rw (none_waits, none_active) refl) source in
    (ground (arith, single), single)
