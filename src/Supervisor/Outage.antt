-- ===== src/Supervisor/Outage.antt =====
-- Database trouble, as the supervisor meets it (download_supervisor.rs).
use Prim.Native.String.{String}
use hofvarpnir.Base.{
  ℕ, ◌+◌, ◌-◌, ◌^◌, ◌≤◌, ◌<◌, min, ◌≡◌, refl, ap, ◌∙◌, inl, inr, true, false, some, List, length,
  is_some_and, ltb, lt→ltb, Result, ok, err, Bool-cases, arith, u32_max,
}
use hofvarpnir.Clock.{Calendar, from_secs}
use hofvarpnir.Semaphore.{SemaphoreApi}
use hofvarpnir.Videos.{Video}
use hofvarpnir.Database.{DbError, World, list_ready, to_string}
use hofvarpnir.Supervisor.State.{Runtime, Env, Supervisor, EnqueueDownload}
use hofvarpnir.Supervisor.Backoff.{db_backoff}
use hofvarpnir.Supervisor.Retry.{db_backoff-min, pow_mono, le_or_lt}
use hofvarpnir.Supervisor.Dispatch.{is_closed, dispatch_download, spawn_task}
use hofvarpnir.Supervisor.Admission.{dispatch-cases}
use hofvarpnir.Supervisor.Failure.{note_db_failure, note_db_recovered}
use hofvarpnir.Supervisor.PendingSweep.{run_sweep, process_pending_downloads}
use hofvarpnir.Supervisor.SweepRule.{sweep_videos-keeps}

-- The pause that a failure after f others brings, in seconds.
abbrev pause_after : ℕ → ℕ
pause_after f = min (2 ^ f) 600

same_exponent : (f : ℕ) → f ≤ u32_max - 1 → min (f + 1) u32_max - 1 ≡ f
same_exponent f h = omega arith

large_exponent : (f : ℕ) → u32_max - 1 < f → 10 ≤ min (f + 1) u32_max - 1
large_exponent f h = omega arith

pause_after-saturates : (f : ℕ) → db_backoff (min (f + 1) u32_max) ≡ from_secs (pause_after f)
pause_after-saturates f =
    db_backoff-min (min (f + 1) u32_max)
    ∙ ap from_secs (elim (le_or_lt f (u32_max - 1)) [
      | inl small ↦ ap (λ k. min (2 ^ k) 600) (same_exponent f small)
      | inr large ↦ omega (
        arith,
        pow_mono 10 (min (f + 1) u32_max - 1) (large_exponent f large),
        pow_mono 10 f (omega (arith, large)),
      )
    ])

module _ (c : Calendar) (api : SemaphoreApi) where
  pub open_sweep :
      (env : Env) (s : Runtime api)
      → is_closed env ≡ false
      → is_some_and s.sup.db_retry_after (λ until. ltb env.instant_now until) ≡ false
      → process_pending_downloads c api env s
        ≡ run_sweep c api env s (list_ready env.utc_now s.world)
  unfolding process_pending_downloads
  open_sweep env s opened due = rw (opened, due) refl

  waiting_sweep :
      (env : Env) (s : Runtime api)
      → is_some_and s.sup.db_retry_after (λ until. ltb env.instant_now until) ≡ true
      → process_pending_downloads c api env s ≡ (s, ok 0)
  unfolding process_pending_downloads
  waiting_sweep env s waits = elim (Bool-cases (is_closed env)) [
    | inl closed ↦ rw closed refl
    | inr opened ↦ rw (opened, waits) refl
  ]

  run_sweep-failed :
      (env : Env) (s : Runtime api) (r : Result DbError (List Video) × World) (e : DbError)
      → r.0 ≡ err e
      → run_sweep c api env s r
        ≡ (record s { sup = note_db_failure c api env (to_string e) s.sup; world = r.1 }, ok 0)
  unfolding run_sweep
  run_sweep-failed env s (err e', w) e h = cc
  run_sweep-failed env s (ok vs, w) e h = ground arith

  note_db_failure-deadline :
      (env : Env) (e : String) (sup : Supervisor api)
      → env.instant_now + from_secs 600 ≤ c.max_instant
      → (note_db_failure c api env e sup).db_retry_after
        ≡ some (env.instant_now + from_secs (pause_after sup.db_failures))
  unfolding note_db_failure
  note_db_failure-deadline env e sup room =
      ap (c.instant_checked_add env.instant_now) (pause_after-saturates sup.db_failures)
      ∙ c.instant_in_range env.instant_now (from_secs (pause_after sup.db_failures))
          (omega (arith, room))

  -- A sweep that passes both of its gates and whose query for the ready videos fails, with f
  -- failures in a row before it, closes the gate for min(2^f, 600) seconds: any sweep until then
  -- returns 0 and changes nothing, and so touches no database. The monotonic clock is taken to
  -- have 600 seconds left.
  pub failed_list-quiet :
      (env later : Env) (s : Runtime api) (e : DbError)
      → is_closed env ≡ false
      → is_some_and s.sup.db_retry_after (λ until. ltb env.instant_now until) ≡ false
      → (list_ready env.utc_now s.world).0 ≡ err e
      → env.instant_now + from_secs 600 ≤ c.max_instant
      → later.instant_now < env.instant_now + from_secs (pause_after s.sup.db_failures)
      → let after = (process_pending_downloads c api env s).0 in
        process_pending_downloads c api later after ≡ (after, ok 0)
  failed_list-quiet env later s e opened due broken room early =
      let runs =
        open_sweep env s opened due
        ∙ run_sweep-failed env s (list_ready env.utc_now s.world) e broken in
      rw runs (
        waiting_sweep later _ (
          rw (note_db_failure-deadline env (to_string e) s.sup room) (
            lt→ltb later.instant_now (env.instant_now + from_secs (pause_after s.sup.db_failures))
              early)))

  dispatch-failures :
      (env : Env) (msg : EnqueueDownload) (s : Runtime api)
      → s.sup.db_failures ≡ 0
      → (dispatch_download api env msg s).0.sup.db_failures ≡ 0
  unfolding spawn_task
  dispatch-failures env msg s h = elim (dispatch-cases api env msg s) [
    | inl same ↦ rw same h
    | inr (_, new) ↦ rw new h
  ]

  note_db_failure-first :
      (env : Env) (e : String) (sup : Supervisor api)
      → sup.db_failures ≡ 0
      → (note_db_failure c api env e sup).db_failures ≤ 1
  unfolding note_db_failure
  note_db_failure-first env e sup h = omega (arith, h)

  run_sweep-failures :
      (env : Env) (s : Runtime api) (r : Result DbError (List Video) × World) (vs : List Video)
      → r.0 ≡ ok vs
      → (run_sweep c api env s r).0.sup.db_failures ≤ 1
  unfolding run_sweep note_db_recovered
  run_sweep-failures env s (err e, w) vs h = ground arith
  run_sweep-failures env s (ok us, w) vs h =
      sweep_videos-keeps c api env (λ t. t.sup.db_failures ≡ 0) (λ t. t.sup.db_failures ≤ 1)
        (λ u t q. q) (dispatch-failures env) (λ t q. omega (arith, q))
        (λ e t q. note_db_failure-first env e t.sup q) (length us) us 0 _ refl

  -- A sweep that passes both of its gates and whose query for the ready videos is served leaves at
  -- most one failure counted, however many there were and whatever else fails in it.
  pub served_list-failures :
      (env : Env) (s : Runtime api) (vs : List Video)
      → is_closed env ≡ false
      → is_some_and s.sup.db_retry_after (λ until. ltb env.instant_now until) ≡ false
      → (list_ready env.utc_now s.world).0 ≡ ok vs
      → (process_pending_downloads c api env s).0.sup.db_failures ≤ 1
  served_list-failures env s vs opened due served =
      rw (open_sweep env s opened due)
        (run_sweep-failures env s (list_ready env.utc_now s.world) vs served)
