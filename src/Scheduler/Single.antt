-- ===== src/Scheduler/Single.antt =====
-- No source is indexed twice at a time.
use hofvarpnir.Base.{
  ℕ, suc, ◌≡◌, refl, subst, false, Bool-cases, inl, inr, leb, ◌==◌, Option-cases, List, [], ◌∷◌,
  if◌then◌else◌, count_if-append, contains_key, contains_key-insert_key, Result, ok, err, arith,
  ==_iff,
}
use hofvarpnir.Clock.{Calendar}
use hofvarpnir.Sources.{SourceRow, list_sources_due_for_indexing}
use hofvarpnir.Database.{DbError, Profile}
use hofvarpnir.Scheduler.{
  Runtime, Env, indexing_refusal, profile_of, track_indexer, spawn_indexer, too_recent, spawn_each,
  spawn_due_indexers, check_sources,
}
use hofvarpnir.Scheduler.Run.{indexers_of}

-- A source has one indexer if it is registered, and else none.
abbrev pub IsSingle : Runtime → Type 0
IsSingle s =
    (x : ℕ) → indexers_of x s ≡ (if contains_key s.scheduler.active_indexers x then 1 else 0)

track_indexer-IsSingle :
    (source : ℕ) (s : Runtime)
    → contains_key s.scheduler.active_indexers source ≡ false
    → IsSingle s
    → IsSingle (track_indexer source s)
track_indexer-IsSingle source s free single x =
    let entry = (s.next_indexer, source) ∷ [] in
    let counted = count_if-append (λ e. e.1 == x) s.indexers entry in
    let registered = contains_key-insert_key source s.next_indexer x s.scheduler.active_indexers in
    elim (Bool-cases (source == x)) [
      | inl same ↦
          let free' : contains_key s.scheduler.active_indexers x ≡ false =
            subst (λ x. contains_key s.scheduler.active_indexers x ≡ false)
              ((==_iff source x).0 same) free in
          ground (arith, counted, registered, same, free', single x)
      | inr differ ↦ ground (arith, counted, registered, differ, single x)
    ]

pub spawn_indexer-IsSingle :
    (env : Env) (source : SourceRow) (s : Runtime)
    → contains_key s.scheduler.active_indexers source.id ≡ false
    → IsSingle s
    → IsSingle ((spawn_indexer env source s).0)
unfolding spawn_indexer
spawn_indexer-IsSingle env source s free single = go (profile_of env source) refl
  where
    go :
        (profile : Result DbError Profile)
        → profile_of env source ≡ profile
        → IsSingle ((spawn_indexer env source s).0)
    go (err e) failed = rw (failed, spawn_indexer) single
    go (ok profile) found =
        rw (found, spawn_indexer) (track_indexer-IsSingle source.id s free single)

spawn_each-IsSingle :
    (env : Env) (cap spawned : ℕ) (sources : List SourceRow) (s : Runtime)
    → IsSingle s
    → IsSingle (spawn_each env cap spawned sources s)
unfolding spawn_each
spawn_each-IsSingle env cap spawned [] s single = single
spawn_each-IsSingle env cap spawned (source ∷ sources) s single =
    elim (Bool-cases (leb cap spawned)) [
      | inl full ↦ rw (full, spawn_each) single
      | inr room ↦ elim (Bool-cases (contains_key s.scheduler.active_indexers source.id)) [
        | inl active ↦
            rw (room, active, spawn_each) (spawn_each-IsSingle env cap spawned sources s single)
        | inr free ↦ elim (Bool-cases (too_recent env s.scheduler source.id)) [
          | inl recent ↦
              rw (room, free, recent, spawn_each)
                (spawn_each-IsSingle env cap spawned sources s single)
          | inr late ↦
              rw (room, free, late, spawn_each)
                (spawn_each-IsSingle env cap (suc spawned) sources ((spawn_indexer env source s).0)
                  (spawn_indexer-IsSingle env source s free single))
        ]
      ]
    ]

pub check_sources-IsSingle :
    (c : Calendar) (env : Env) (s : Runtime) → IsSingle s → IsSingle (check_sources c env s)
unfolding check_sources spawn_due_indexers
check_sources-IsSingle c env s single = elim (Bool-cases s.scheduler.running) [
  | inr off ↦ rw (off, check_sources) single
  | inl on ↦ elim (Option-cases (indexing_refusal c env)) [
    | inr (refusal, refused) ↦ rw (on, refused, check_sources) single
    | inl open_gate ↦ elim (Option-cases env.list_fault) [
      | inr (e, fault) ↦ rw (on, open_gate, fault, check_sources, spawn_due_indexers) single
      | inl listed ↦
          rw (on, open_gate, listed, check_sources, spawn_due_indexers)
            (spawn_each-IsSingle env _ 0 (list_sources_due_for_indexing env.utc_now s.sources) s
              single)
    ]
  ]
]
