-- ===== src/Supervisor/Tasks/Limit.antt =====
-- The cap on concurrent downloads over a whole run (download_supervisor.rs).
use hofvarpnir.Base.{
  ℕ, ◌+◌, ◌≤◌, ◌≡◌, refl, ap, sym, ◌∙◌, Bool, Option, List, [], ◌∷◌, ◌++◌, count_if, arith,
}
use hofvarpnir.Clock.{Calendar}
use hofvarpnir.Semaphore.{SemaphoreApi}
use hofvarpnir.Supervisor.State.{Runtime, Task, DownloadOutcome}
use hofvarpnir.Supervisor.Invariant.{IsValid, handle-IsValid}
use hofvarpnir.Supervisor.Tasks.{
  System, Step, handles, arrives, writes, goes_on, Run, done, then_step, advance,
}
use hofvarpnir.Supervisor.Tasks.Single.{one_if, count-middle}
use hofvarpnir.Supervisor.Tasks.Cap.{
  is_running, has_task_id, runs, running-le-holders, advance-held, advance-total,
}
use hofvarpnir.Supervisor.Tasks.Holds.{Holds, handle-Holds}

module _ (c : Calendar) (api : SemaphoreApi) where
  -- One task of a list goes on.
  module _ (now : ℕ) (outcome : Option DownloadOutcome) (before after : List Task) (t : Task)
      (s : Runtime api) (e : s.tasks ≡ before ++ t ∷ after) (q : Holds api s) where
    abbrev moved : Runtime api
    moved = record s {
      sup = record s.sup { semaphore = (advance api now outcome t s.sup.semaphore).1 };
      tasks = before ++ record t { phase = (advance api now outcome t s.sup.semaphore).0 } ∷ after;
    }

    count-split :
        (p : Task → Bool)
        → count_if p s.tasks ≡ count_if p before + (one_if (p t) + count_if p after)
    count-split p = ap (count_if p) e ∙ count-middle c api p before after t

    runs-le-ids : (a : ℕ) (ts : List Task) → count_if (runs a) ts ≤ count_if (has_task_id a) ts
    runs-le-ids a [] = omega arith
    runs-le-ids a (u ∷ us) = ground (arith, runs-le-ids a us)

    moved-Holds : Holds api moved
    moved-Holds = record {
      unique =
          λ a. rw (count-middle c api) (omega (arith, q.unique a, count-split (has_task_id a)));
      unused =
          λ a h. rw (count-middle c api) (omega (arith, q.unused a h, count-split (has_task_id a)));
      held = λ a.
          let kept =
            advance-held api now outcome t.phase t s.sup.semaphore a
              (count_if (runs a) before + count_if (runs a) after)
              (omega (
                arith,
                q.unique a,
                count-split (has_task_id a),
                runs-le-ids a before,
                runs-le-ids a after,
              ))
              (omega (arith, q.held a, count-split (runs a))) in
          rw (count-middle c api) (omega (arith, kept));
    }

    moved-IsValid : IsValid api s.sup → IsValid api moved.sup
    moved-IsValid v = record {
      slowed = v.slowed;
      counted =
          v.counted
          ∙ sym (
              advance-total api now outcome t.phase t s.sup.semaphore
                (ground (arith, q.held t.id, count-split (runs t.id))));
      outage = v.outage;
    }

  record IsCapped (s : Runtime api) : Type 0 where
    pub valid : IsValid api s.sup
    pub holds : Holds api s

  Step-IsCapped : (x y : System api) → Step c api x y → IsCapped x.runtime → IsCapped y.runtime
  Step-IsCapped _ _ (handles env m ms s h) q = record {
    valid = handle-IsValid c api env m s q.valid;
    holds = handle-Holds c api env m s h q.holds;
  }
  Step-IsCapped _ _ (arrives m x h) q = q
  Step-IsCapped _ _ (writes w x) q = record {
    valid = q.valid;
    holds = record { unique = q.holds.unique; unused = q.holds.unused; held = q.holds.held };
  }
  Step-IsCapped _ _ (goes_on now outcome before after t x e) q = record {
    valid = moved-IsValid now outcome before after t x.runtime e q.holds q.valid;
    holds = moved-Holds now outcome before after t x.runtime e q.holds;
  }

  run-IsCapped : (x y : System api) → Run c api x y → IsCapped x.runtime → IsCapped y.runtime
  run-IsCapped _ _ (done x) q = q
  run-IsCapped _ _ (then_step x y z r s) q = Step-IsCapped y z s (run-IsCapped x y r q)

  -- In a run from a valid supervisor without tasks in which no download is cancelled, the tasks
  -- between the grant of their permit and its drop are never more than the permits that the
  -- supervisor counts, however the cap is resized on the way.
  pub run-within_cap :
      (x y : System api)
      → Run c api x y
      → IsValid api x.runtime.sup
      → x.runtime.tasks ≡ []
      → count_if (λ t. is_running t.phase) y.runtime.tasks ≤ y.runtime.sup.permits_total
  run-within_cap x y r v none_yet =
      let q = run-IsCapped x y r (record {
        valid = v;
        holds = record {
          unique = λ a. rw none_yet (omega arith);
          unused = λ a h. rw none_yet refl;
          held = λ a. rw none_yet (omega arith);
        };
      }) in
      omega (
        arith,
        q.valid.counted,
        running-le-holders y.runtime.tasks (api.permits y.runtime.sup.semaphore).holders
            q.holds.held,
      )
