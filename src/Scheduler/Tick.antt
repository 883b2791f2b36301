-- ===== src/Scheduler/Tick.antt =====
-- What a tick of the scheduler does.
use Prim.Native.String.{String}
use mathlib.Core.List.{append-nil}
use hofvarpnir.Base.{
  ℕ, suc, ◌-◌, ◌≤◌, ◌≡◌, ◌≢◌, refl, sym, ap, ◌∙◌, subst, true, false, Bool-cases, inl, inr, leb,
  none, some, Option-cases, List, [], ◌∷◌, ◌++◌, All, length, if◌then◌else◌, contains_key, Result,
  ok, err, arith,
}
use hofvarpnir.Clock.{Calendar}
use hofvarpnir.Sources.{SourceRow, list_sources_due_for_indexing}
use hofvarpnir.Database.{DbError, Profile}
use hofvarpnir.Scheduler.{
  Runtime, Env, Refusal, indexing_refusal, profile_of, spawn_indexer, too_recent, spawn_each,
  spawn_due_indexers, check_sources, sweep_downloads,
}
use hofvarpnir.Scheduler.Spawned.{IsDueIndexer, Adds, Adds-weaken, spawn_each-Adds, listed-All}

-- The scheduler runs, and neither a pause nor a drain refuses new indexers.
abbrev IsOpen : Calendar → Env → Runtime → Type 0
IsOpen c env s = (s.scheduler.running ≡ true) × (indexing_refusal c env ≡ none)

abbrev sweeps_after : Runtime → ℕ
sweeps_after s = if s.scheduler.running then suc s.sweeps else s.sweeps

spawn_indexer-sweeps :
    (env : Env) (row : SourceRow) (s : Runtime) → (spawn_indexer env row s).0.sweeps ≡ s.sweeps
unfolding spawn_indexer
spawn_indexer-sweeps env row s = go (profile_of env row) refl
  where
    go :
        (profile : Result DbError Profile)
        → profile_of env row ≡ profile
        → (spawn_indexer env row s).0.sweeps ≡ s.sweeps
    go (err e) failed = rw (failed, spawn_indexer) refl
    go (ok profile) found = rw (found, spawn_indexer) refl

spawn_each-sweeps :
    (env : Env) (cap spawned : ℕ) (sources : List SourceRow) (s : Runtime)
    → (spawn_each env cap spawned sources s).sweeps ≡ s.sweeps
unfolding spawn_each
spawn_each-sweeps env cap spawned [] s = refl
spawn_each-sweeps env cap spawned (source ∷ sources) s = elim (Bool-cases (leb cap spawned)) [
  | inl full ↦ rw (full, spawn_each) refl
  | inr room ↦ elim (Bool-cases (contains_key s.scheduler.active_indexers source.id)) [
    | inl active ↦ rw (room, active, spawn_each) (spawn_each-sweeps env cap spawned sources s)
    | inr free ↦ elim (Bool-cases (too_recent env s.scheduler source.id)) [
      | inl recent ↦
          rw (room, free, recent, spawn_each) (spawn_each-sweeps env cap spawned sources s)
      | inr late ↦
          rw (room, free, late, spawn_each)
            (spawn_each-sweeps env cap (suc spawned) sources ((spawn_indexer env source s).0)
              ∙ spawn_indexer-sweeps env source s)
    ]
  ]
]

-- What a tick does: the indexers that it adds, within the cap, for sources that may be indexed,
-- and only if the gate is open; and the sweep, if the scheduler runs.
abbrev pub Ticks : Calendar → Env → Runtime → Runtime → Type 0
Ticks c env s s' =
    (new : List (ℕ × ℕ)) × (s'.indexers ≡ s.indexers ++ new)
    × (length new ≤ env.settings.max_indexers_per_tick.value)
    × All (IsDueIndexer env s.scheduler) new
    × (new ≢ [] → IsOpen c env s)
    × (s'.sweeps ≡ sweeps_after s)

Ticks-nothing :
    (c : Calendar) (env : Env) (s s' : Runtime)
    → s'.indexers ≡ s.indexers
    → s'.sweeps ≡ sweeps_after s
    → Ticks c env s s'
Ticks-nothing c env s s' same swept = (
  [],
  same ∙ sym (append-nil s.indexers),
  omega arith,
  tt,
  (λ some_new. absurd (some_new refl)),
  swept,
)

-- The branches of the handler.
module _ (c : Calendar) (env : Env) (s : Runtime) where
  tick_stopped : s.scheduler.running ≡ false → check_sources c env s ≡ s
  unfolding check_sources
  tick_stopped off = ground (arith, off)

  tick_refused :
      (refusal : Refusal)
      → s.scheduler.running ≡ true
      → indexing_refusal c env ≡ some refusal
      → check_sources c env s ≡ sweep_downloads s
  unfolding check_sources
  tick_refused refusal on refused = ground (arith, on, refused)

  tick_open :
      s.scheduler.running ≡ true
      → indexing_refusal c env ≡ none
      → check_sources c env s ≡ sweep_downloads (spawn_due_indexers env s)
  unfolding check_sources
  tick_open on open_gate = ground (arith, on, open_gate)

  spawn_due_indexers-same : (e : String) → env.list_fault ≡ some e → spawn_due_indexers env s ≡ s
  unfolding spawn_due_indexers
  spawn_due_indexers-same e fault = ground (arith, fault)

  spawn_due_indexers-listed :
      env.list_fault ≡ none
      → spawn_due_indexers env s
        ≡ spawn_each env env.settings.max_indexers_per_tick.value 0
            (list_sources_due_for_indexing env.utc_now s.sources)
            s
  unfolding spawn_due_indexers
  spawn_due_indexers-listed listed = ground (arith, listed)

  sweeps_on : s.scheduler.running ≡ true → suc s.sweeps ≡ sweeps_after s
  sweeps_on on = ground (arith, on)

  Adds-Ticks :
      (s' : Runtime)
      → IsOpen c env s
      → Adds env env.settings.max_indexers_per_tick.value s s'
      → s'.sweeps ≡ s.sweeps
      → Ticks c env s (sweep_downloads s')
  Adds-Ticks s' is_open (new, appended, short, all) same =
      (new, appended, short, all, (λ some_new. is_open), ap suc same ∙ sweeps_on is_open.0)

-- A tick adds at most as many indexers as the cap says, each for a row that is due, whose source
-- is not active and was not indexed in the last five minutes; it adds none unless the scheduler
-- runs and neither a pause nor a drain is in force. While the scheduler runs, every tick tells
-- the download supervisor to sweep, whatever became of the indexing.
pub check_sources-Ticks :
    (c : Calendar) (env : Env) (s : Runtime) → Ticks c env s (check_sources c env s)
check_sources-Ticks c env s = elim (Bool-cases s.scheduler.running) [
  | inr off ↦
      subst (Ticks c env s) (sym (tick_stopped c env s off))
        (Ticks-nothing c env s s refl (ground (arith, off)))
  | inl on ↦ elim (Option-cases (indexing_refusal c env)) [
    | inr (refusal, refused) ↦
        subst (Ticks c env s) (sym (tick_refused c env s refusal on refused))
          (Ticks-nothing c env s (sweep_downloads s) refl (sweeps_on c env s on))
    | inl open_gate ↦
        subst (Ticks c env s) (sym (tick_open c env s on open_gate))
          (elim (Option-cases env.list_fault) [
            | inr (e, fault) ↦
                subst (λ s'. Ticks c env s (sweep_downloads s'))
                  (sym (spawn_due_indexers-same c env s e fault))
                  (Ticks-nothing c env s (sweep_downloads s) refl (sweeps_on c env s on))
            | inl listed ↦
                let cap = env.settings.max_indexers_per_tick.value in
                let due = list_sources_due_for_indexing env.utc_now s.sources in
                subst (λ s'. Ticks c env s (sweep_downloads s'))
                  (sym (spawn_due_indexers-listed c env s listed))
                  (Adds-Ticks c env s (spawn_each env cap 0 due s) (on, open_gate)
                    (Adds-weaken env (cap - 0) cap s (spawn_each env cap 0 due s) (omega arith)
                      (spawn_each-Adds env cap 0 due s (listed-All env.utc_now s.sources)))
                    (spawn_each-sweeps env cap 0 due s))
          ])
  ]
]
