-- ===== src/Supervisor/Replies.antt =====
-- What the supervisor's handlers reply when queries fail (download_supervisor.rs).
use Prim.Native.String.{String}
use hofvarpnir.Base.{
  ℕ, ◌≡◌, refl, ap, ◌∙◌, ◌⊎◌, inl, inr, true, false, none, List, [], ◌∷◌, length, is_some_and, ltb,
  Result, ok, err, Bool-cases,
}
use hofvarpnir.Clock.{Calendar}
use hofvarpnir.Semaphore.{SemaphoreApi}
use hofvarpnir.Videos.{Video, failed}
use hofvarpnir.Database.{DbError, World, list_ready, update_video_status}
use hofvarpnir.Supervisor.State.{Runtime, Env}
use hofvarpnir.Supervisor.Dispatch.{is_closed}
use hofvarpnir.Supervisor.PendingSweep.{
  SweepRound, aborted, continued, sweep_video, sweep_videos, run_sweep, process_pending_downloads,
}
use hofvarpnir.Supervisor.Handlers.{
  cancel_download, report_cancel, release_download, enqueue_download,
}
use hofvarpnir.Supervisor.Messages.{
  Message, enqueues, starts, resizes, registers, completes, reports, sweeps, cancels, rate_limits,
  told_error,
}

module _ (c : Calendar) (api : SemaphoreApi) (env : Env) where
  after_round-ok :
      (count n : ℕ) (vs : List Video) (r : SweepRound api)
      → ((n' : ℕ) (s' : Runtime api) → (m : ℕ) × ((sweep_videos c api env count vs n' s').1 ≡ ok m))
      → (m : ℕ) × ((elim r as (λ _. Runtime api × Result String ℕ) [
        | aborted s' ↦ (s', ok n)
        | continued n' s' ↦ sweep_videos c api env count vs n' s'
      ]).1
          ≡ ok m)
  after_round-ok count n vs (aborted s') rest = (n, refl)
  after_round-ok count n vs (continued n' s') rest = rest n' s'

  sweep_videos-ok :
      (count : ℕ) (vs : List Video) (n : ℕ) (s : Runtime api)
      → (m : ℕ) × ((sweep_videos c api env count vs n s).1 ≡ ok m)
  unfolding sweep_videos
  sweep_videos-ok count [] n s = (count, refl)
  sweep_videos-ok count (v ∷ vs) n s =
      after_round-ok count n vs (sweep_video c api env v n s)
        (λ n' s'. sweep_videos-ok count vs n' s')

  run_sweep-ok :
      (s : Runtime api) (r : Result DbError (List Video) × World)
      → (m : ℕ) × ((run_sweep c api env s r).1 ≡ ok m)
  unfolding run_sweep
  run_sweep-ok s (err e, w) = (0, refl)
  run_sweep-ok s (ok vs, w) = sweep_videos-ok (length vs) vs 0 _

  -- Where a sweep ends: at a gate, with nothing changed, or behind it.
  process_pending_downloads-cases :
      (s : Runtime api)
      → (((is_closed env ≡ true)
            ⊎ (is_some_and s.sup.db_retry_after (λ until. ltb env.instant_now until) ≡ true))
          × (process_pending_downloads c api env s ≡ (s, ok 0)))
        ⊎ ((is_closed env ≡ false)
            × (is_some_and s.sup.db_retry_after (λ until. ltb env.instant_now until) ≡ false)
            × (process_pending_downloads c api env s
                ≡ run_sweep c api env s (list_ready env.utc_now s.world)))
  unfolding process_pending_downloads
  process_pending_downloads-cases s = elim (Bool-cases (is_closed env)) [
    | inl closed ↦ inl (inl closed, rw closed refl)
    | inr opened ↦
        elim (Bool-cases (is_some_and s.sup.db_retry_after (λ until. ltb env.instant_now until))) [
          | inl waits ↦ inl (inr waits, rw (opened, waits) refl)
          | inr due ↦ inr (opened, due, rw (opened, due) refl)
        ]
  ]

  process_pending_downloads-ok :
      (s : Runtime api) → (m : ℕ) × ((process_pending_downloads c api env s).1 ≡ ok m)
  process_pending_downloads-ok s = elim (process_pending_downloads-cases s) [
    | inl (_, same) ↦ (0, ap (λ r. r.1) same)
    | inr (_, _, ran) ↦
        let (m, e) = run_sweep-ok s (list_ready env.utc_now s.world) in (m, ap (λ r. r.1) ran ∙ e)
  ]

  report_cancel-error :
      (video : ℕ) (s : Runtime api) (r : Result DbError (Unit {0}) × World)
      → (((report_cancel c api video s r).1 ≡ ok tt) × (r.0 ≡ ok tt))
        ⊎ ((e : DbError) × (r.0 ≡ err e))
  unfolding report_cancel
  report_cancel-error video s (err e, w) = inr (e, refl)
  report_cancel-error video s (ok u, w) = inl (refl, refl)

  -- Whatever queries fail, no message makes its handler return an error, which would stop the
  -- actor; the one exception is a cancel whose status update fails, and a cancel is asked by a
  -- caller that takes the error.
  pub told_error-none :
      (m : Message) (s : Runtime api)
      → (told_error c api env m s ≡ none)
        ⊎ ((video : ℕ) × (m ≡ cancels video)
            × (e : DbError) × ((update_video_status env.utc_now video failed s.world).0 ≡ err e))
  unfolding told_error enqueue_download cancel_download
  told_error-none (enqueues msg) s = inl refl
  told_error-none (starts video) s = inl refl
  told_error-none (resizes target) s = inl refl
  told_error-none (registers video worker) s = inl refl
  told_error-none (completes video) s = inl refl
  told_error-none (reports outcome) s = inl refl
  told_error-none sweeps s = inl (rw ((process_pending_downloads-ok s).1, told_error) refl)
  told_error-none (cancels video) s =
      elim (report_cancel-error video (release_download c api video s)
        (update_video_status env.utc_now video failed s.world)) [
          | inl (fine, _) ↦ inl (rw (fine, told_error) refl)
          | inr (e, broken) ↦ inr (video, refl, e, broken)
        ]
  told_error-none rate_limits s = inl refl
