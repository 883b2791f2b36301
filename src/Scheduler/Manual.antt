-- ===== src/Scheduler/Manual.antt =====
-- A manual request for an index, and the sources that are being indexed.
use hofvarpnir.Base.{
  ℕ, ◌≡◌, refl, sym, ap, ◌∙◌, subst, false, Bool-cases, inl, inr, ◌==◌, some, Option-cases, List,
  [], ◌∷◌, if◌then◌else◌, count_if, contains_key, Result, ok, err, arith, ==_iff,
}
use hofvarpnir.Clock.{Calendar}
use hofvarpnir.Sources.{find_source_row, SourceRow}
use hofvarpnir.Database.{DbError}
use hofvarpnir.Scheduler.{
  Scheduler, Runtime, Env, indexing_refusal, spawn_indexer, reset_errors, lookup_source,
  to_index_error, index_now, index_source,
}
use hofvarpnir.Scheduler.Single.{IsSingle, spawn_indexer-IsSingle}

reset_errors-same :
    (env : Env) (id : ℕ) (s : Runtime)
    → ((reset_errors env id s).0.scheduler ≡ s.scheduler)
      × ((reset_errors env id s).0.indexers ≡ s.indexers)
reset_errors-same env id s = elim (Option-cases env.reset_fault) [
  | inl served ↦ rw (served) (refl, refl)
  | inr (e, fault) ↦ rw (fault) (refl, refl)
]

same-IsSingle :
    (s s' : Runtime)
    → s'.scheduler ≡ s.scheduler
    → s'.indexers ≡ s.indexers
    → IsSingle s
    → IsSingle s'
same-IsSingle s s' scheduler indexers single x =
    ap (count_if (λ e. e.1 == x)) indexers
    ∙ single x
    ∙ ap (λ (sch : Scheduler). if contains_key sch.active_indexers x then 1 else 0) (sym scheduler)

find_source_row-id :
    (id : ℕ) (sources : List SourceRow) (source : SourceRow)
    → find_source_row id sources ≡ some source
    → source.id ≡ id
unfolding find_source_row
find_source_row-id id [] source found = absurd cc
find_source_row-id id (row ∷ rows) source found = elim (Bool-cases (row.id == id)) [
  | inl here ↦
      let is_row : row ≡ source = ground (arith, found, here) in
      ap (λ (r : SourceRow). r.id) (sym is_row) ∙ (==_iff row.id id).0 here
  | inr later ↦ find_source_row-id id rows source (ground (arith, found, later))
]

to_index_error-same :
    (answer : Runtime × Result DbError (Unit {0})) → (to_index_error answer).0 ≡ answer.0
to_index_error-same (s, ok _) = refl
to_index_error-same (s, err e) = refl

lookup_source-id :
    (env : Env) (id : ℕ) (s : Runtime) (source : SourceRow)
    → lookup_source env id s ≡ ok source
    → source.id ≡ id
lookup_source-id env id s source found =
    find_source_row-id id s.sources source (ground (arith, found))

index_now-IsSingle :
    (env : Env) (id : ℕ) (s : Runtime)
    → contains_key s.scheduler.active_indexers id ≡ false
    → IsSingle s
    → IsSingle ((index_now env id s).0)
unfolding index_now
index_now-IsSingle env id s free single = go ((reset_errors env id s).1) refl
  where
    s' : Runtime
    s' = (reset_errors env id s).0

    single' : IsSingle s'
    single' =
        same-IsSingle s s' (reset_errors-same env id s).0 (reset_errors-same env id s).1 single

    found :
        (u : Unit {0}) (reply : Result DbError SourceRow)
        → (reset_errors env id s).1 ≡ ok u
        → lookup_source env id s' ≡ reply
        → IsSingle ((index_now env id s).0)
    found u (err e) reset looked = rw (reset, looked, index_now) single'
    found u (ok source) reset looked =
        let is_id = lookup_source-id env id s' source looked in
        let free' : contains_key s'.scheduler.active_indexers source.id ≡ false =
          ap (λ (sch : Scheduler). contains_key sch.active_indexers source.id)
            (reset_errors-same env id s).0
          ∙ ap (contains_key s.scheduler.active_indexers) is_id
          ∙ free in
        rw (reset, looked, index_now)
          (subst IsSingle (sym (to_index_error-same (spawn_indexer env source s')))
            (spawn_indexer-IsSingle env source s' free' single'))

    go :
        (reply : Result DbError (Unit {0}))
        → (reset_errors env id s).1 ≡ reply
        → IsSingle ((index_now env id s).0)
    go (err e) reset = rw (reset, index_now) single'
    go (ok u) reset = found u (lookup_source env id s') reset refl

pub index_source-IsSingle :
    (c : Calendar) (env : Env) (id : ℕ) (s : Runtime)
    → IsSingle s
    → IsSingle ((index_source c env id s).0)
unfolding index_source
index_source-IsSingle c env id s single =
    elim (Bool-cases (contains_key s.scheduler.active_indexers id)) [
      | inl active ↦ rw (active, index_source) single
      | inr free ↦ elim (Option-cases (indexing_refusal c env)) [
        | inr (refusal, refused) ↦ rw (free, refused, index_source) single
        | inl open_gate ↦
            rw (free, open_gate, index_source) (index_now-IsSingle env id s free single)
      ]
    ]
