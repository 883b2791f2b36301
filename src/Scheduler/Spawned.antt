-- ===== src/Scheduler/Spawned.antt =====
-- The indexers that a tick spawns.
use mathlib.Core.List.{append-nil, append_assoc}
use hofvarpnir.Base.{
  ℕ, suc, ◌-◌, ◌≤◌, ◌≡◌, refl, sym, ◌∙◌, true, false, Bool-cases, inl, inr, leb, List, [], ◌∷◌,
  ◌++◌, All, length, contains_key, contains_key-insert_key, Result, ok, err, arith, filter_if,
  sort_by-All,
}
use hofvarpnir.Sources.{SourceRow, is_due, list_sources_due_for_indexing, indexed_before}
use hofvarpnir.Database.{DbError, Profile}
use hofvarpnir.Scheduler.{
  Scheduler, Runtime, Env, profile_of, track_indexer, spawn_indexer, too_recent, spawn_each,
}

-- An indexer that a tick may spawn: for a due row whose source is not active and was not indexed
-- in the last five minutes.
abbrev pub IsDueIndexer : Env → Scheduler → ℕ × ℕ → Type 0
IsDueIndexer env scheduler entry =
    (contains_key scheduler.active_indexers entry.1 ≡ false)
    × (too_recent env scheduler entry.1 ≡ false)
    × ((row : SourceRow) × (is_due env.utc_now row ≡ true) × (row.id ≡ entry.1))

-- What is spawned from a state on, at most so many.
abbrev pub Adds : Env → ℕ → Runtime → Runtime → Type 0
Adds env limit s s' =
    (new : List (ℕ × ℕ)) × (s'.indexers ≡ s.indexers ++ new)
    × (length new ≤ limit)
    × All (IsDueIndexer env s.scheduler) new

Adds-none : (env : Env) (limit : ℕ) (s : Runtime) → Adds env limit s s
Adds-none env limit s = ([], sym (append-nil s.indexers), omega arith, tt)

-- A registration more leaves fewer sources that may be spawned.
IsDueIndexer-track :
    (env : Env) (source : ℕ) (s : Runtime) (new : List (ℕ × ℕ))
    → All (IsDueIndexer env (track_indexer source s).scheduler) new
    → All (IsDueIndexer env s.scheduler) new
IsDueIndexer-track env source s [] all = tt
IsDueIndexer-track env source s (entry ∷ new) ((free, late, due), all) = (
  (
    ground (
      arith,
      free,
      contains_key-insert_key source s.next_indexer entry.1 s.scheduler.active_indexers,
    ),
    late,
    due,
  ),
  IsDueIndexer-track env source s new all,
)

pub Adds-weaken :
    (env : Env) (few many : ℕ) (s s' : Runtime)
    → few ≤ many
    → Adds env few s s'
    → Adds env many s s'
Adds-weaken env few many s s' le (new, appended, short, all) =
    (new, appended, omega (arith, short, le), all)

Adds-track :
    (env : Env) (limit : ℕ) (row : SourceRow) (s s' : Runtime)
    → IsDueIndexer env s.scheduler (s.next_indexer, row.id)
    → Adds env limit (track_indexer row.id s) s'
    → Adds env (suc limit) s s'
Adds-track env limit row s s' due (new, appended, short, all) = (
  (s.next_indexer, row.id) ∷ new,
  appended ∙ append_assoc s.indexers _ new,
  omega (arith, short),
  (due, IsDueIndexer-track env row.id s new all),
)

Adds-spawn :
    (env : Env) (limit : ℕ) (row : SourceRow) (s s' : Runtime)
    → IsDueIndexer env s.scheduler (s.next_indexer, row.id)
    → Adds env limit ((spawn_indexer env row s).0) s'
    → Adds env (suc limit) s s'
unfolding spawn_indexer
Adds-spawn env limit row s s' due = go (profile_of env row) refl
  where
    go :
        (profile : Result DbError Profile)
        → profile_of env row ≡ profile
        → Adds env limit ((spawn_indexer env row s).0) s'
        → Adds env (suc limit) s s'
    go (err e) failed =
        rw (failed, spawn_indexer) (Adds-weaken env limit (suc limit) s s' (omega arith))
    go (ok profile) found = rw (found, spawn_indexer) (Adds-track env limit row s s' due)

pub spawn_each-Adds :
    (env : Env) (cap spawned : ℕ) (sources : List SourceRow) (s : Runtime)
    → All (λ row. is_due env.utc_now row ≡ true) sources
    → Adds env (cap - spawned) s (spawn_each env cap spawned sources s)
unfolding spawn_each
spawn_each-Adds env cap spawned [] s due = Adds-none env (cap - spawned) s
spawn_each-Adds env cap spawned (source ∷ sources) s (due, dues) =
    let after = spawn_each env cap (suc spawned) sources ((spawn_indexer env source s).0) in
    elim (Bool-cases (leb cap spawned)) [
      | inl full ↦ rw (full, spawn_each) (Adds-none env (cap - spawned) s)
      | inr room ↦ elim (Bool-cases (contains_key s.scheduler.active_indexers source.id)) [
        | inl active ↦
            rw (room, active, spawn_each) (spawn_each-Adds env cap spawned sources s dues)
        | inr free ↦ elim (Bool-cases (too_recent env s.scheduler source.id)) [
          | inl recent ↦
              rw (room, free, recent, spawn_each) (spawn_each-Adds env cap spawned sources s dues)
          | inr late ↦
              rw (room, free, late, spawn_each)
                (Adds-weaken env (suc (cap - suc spawned)) (cap - spawned) s after
                  (ground (arith, room))
                  (Adds-spawn env (cap - suc spawned) source s after
                    (free, late, (source, due, refl))
                    (spawn_each-Adds env cap (suc spawned) sources ((spawn_indexer env source s).0)
                      dues)))
        ]
      ]
    ]

filter-All :
    (now : ℕ) (sources : List SourceRow)
    → All (λ row. is_due now row ≡ true) (filter_if (is_due now) sources)
filter-All now [] = tt
filter-All now (row ∷ rows) = elim (Bool-cases (is_due now row)) [
  | inl due ↦ rw due (due, filter-All now rows)
  | inr not_due ↦ rw not_due (filter-All now rows)
]

pub listed-All :
    (now : ℕ) (sources : List SourceRow)
    → All (λ row. is_due now row ≡ true) (list_sources_due_for_indexing now sources)
unfolding list_sources_due_for_indexing
listed-All now sources =
    sort_by-All indexed_before (λ row. is_due now row ≡ true) (filter_if (is_due now) sources)
      (filter-All now sources)
