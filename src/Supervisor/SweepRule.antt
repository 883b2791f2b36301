-- ===== src/Supervisor/SweepRule.antt =====
-- What holds of the runtime and is kept by each part of the sweep, the sweep keeps
-- (download_supervisor.rs).
use Prim.Native.String.{String}
use hofvarpnir.Base.{
  ℕ, List, [], ◌∷◌, length, is_some_and, ltb, Result, ok, err, inl, inr, Bool-cases,
}
use hofvarpnir.Clock.{Calendar}
use hofvarpnir.Semaphore.{SemaphoreApi}
use hofvarpnir.Videos.{Video}
use hofvarpnir.Database.{
  DbError, World, to_string, Source, Profile, get_source, get_profile, get_sources_for_video,
  list_ready,
}
use hofvarpnir.Supervisor.State.{Runtime, Env, EnqueueDownload}
use hofvarpnir.Supervisor.Dispatch.{dispatch_download, is_closed}
use hofvarpnir.Supervisor.Admission.{dispatch-ok}
use hofvarpnir.Supervisor.Failure.{note_db_failure, note_db_recovered}
use hofvarpnir.Supervisor.PendingSweep.{
  SweepRound, aborted, continued, abort_sweep, dispatch_pending, with_profile, with_source,
  with_source_ids, sweep_video, sweep_videos, run_sweep, process_pending_downloads,
}

-- `Q` holds while the loop goes on, `R` where it ends.
module _ (c : Calendar) (api : SemaphoreApi) (env : Env) (Q R : Runtime api → Type 0)
    (moved : (w : World) (s : Runtime api) → Q s → Q (record s { world = w }))
    (dispatched : (msg : EnqueueDownload) (s : Runtime api)
      → Q s
      → Q (dispatch_download api env msg s).0)
    (ended : (s : Runtime api) → Q s → R s)
    (noted : (e : String) (s : Runtime api)
      → Q s
      → R (record s { sup = note_db_failure c api env e s.sup })) where
  abbrev RoundKeeps : SweepRound api → Type 0
  RoundKeeps (aborted s) = R s
  RoundKeeps (continued n s) = Q s

  abort_sweep-keeps :
      (e : DbError) (w : World) (s : Runtime api) → Q s → RoundKeeps (abort_sweep c api env e w s)
  unfolding abort_sweep
  abort_sweep-keeps e w s q = noted (to_string e) (record s { world = w }) (moved w s q)

  dispatch_pending-keeps :
      (msg : EnqueueDownload) (n : ℕ) (s : Runtime api)
      → Q s
      → RoundKeeps (dispatch_pending c api env msg n s)
  unfolding dispatch_pending
  dispatch_pending-keeps msg n s q = rw (dispatch-ok api env msg s, RoundKeeps) (dispatched msg s q)

  with_profile-keeps :
      (v : Video) (n : ℕ) (s : Runtime api) (source : Source) (r : Result DbError Profile × World)
      → Q s
      → RoundKeeps (with_profile c api env v n s source r)
  unfolding with_profile
  with_profile-keeps v n s source (err e, w) q = abort_sweep-keeps e w s q
  with_profile-keeps v n s source (ok profile, w) q =
      dispatch_pending-keeps (record { video = v; profile = profile; source = source }) n
        (record s { world = w }) (moved w s q)

  with_source-keeps :
      (v : Video) (n : ℕ) (s : Runtime api) (r : Result DbError Source × World)
      → Q s
      → RoundKeeps (with_source c api env v n s r)
  unfolding with_source
  with_source-keeps v n s (err e, w) q = abort_sweep-keeps e w s q
  with_source-keeps v n s (ok source, w) q =
      with_profile-keeps v n s source (get_profile source.profile_id w) q

  with_source_ids-keeps :
      (v : Video) (n : ℕ) (s : Runtime api) (r : Result DbError (List ℕ) × World)
      → Q s
      → RoundKeeps (with_source_ids c api env v n s r)
  unfolding with_source_ids
  with_source_ids-keeps v n s (err e, w) q = abort_sweep-keeps e w s q
  with_source_ids-keeps v n s (ok [], w) q = moved w s q
  with_source_ids-keeps v n s (ok (first ∷ rest), w) q =
      with_source-keeps v n s (get_source first w) q

  -- One round, and then whatever the rest of the loop does with its state.
  after_round :
      (count n : ℕ) (vs : List Video) (r : SweepRound api)
      → RoundKeeps r
      → ((n' : ℕ) (s' : Runtime api) → Q s' → R (sweep_videos c api env count vs n' s').0)
      → R
          (elim r as (λ _. Runtime api × Result String ℕ) [
            | aborted s' ↦ (s', ok n)
            | continued n' s' ↦ sweep_videos c api env count vs n' s'
          ]).0
  after_round count n vs (aborted s') q rest = q
  after_round count n vs (continued n' s') q rest = rest n' s' q

  pub sweep_videos-keeps :
      (count : ℕ) (vs : List Video) (n : ℕ) (s : Runtime api)
      → Q s
      → R (sweep_videos c api env count vs n s).0
  unfolding sweep_videos sweep_video
  sweep_videos-keeps count [] n s q = ended s q
  sweep_videos-keeps count (v ∷ vs) n s q =
      after_round count n vs (sweep_video c api env v n s)
        (with_source_ids-keeps v n s (get_sources_for_video v.id s.world) q)
        (λ n' s' q'. sweep_videos-keeps count vs n' s' q')

module _ (c : Calendar) (api : SemaphoreApi) (env : Env) (Q : Runtime api → Type 0)
    (moved : (w : World) (s : Runtime api) → Q s → Q (record s { world = w }))
    (noted : (e : String) (s : Runtime api)
      → Q s
      → Q (record s { sup = note_db_failure c api env e s.sup }))
    (recovered : (s : Runtime api) → Q s → Q (record s { sup = note_db_recovered c api s.sup }))
    (dispatched : (msg : EnqueueDownload) (s : Runtime api)
      → Q s
      → Q (dispatch_download api env msg s).0) where
  run_sweep-keeps :
      (s : Runtime api) (r : Result DbError (List Video) × World)
      → Q s
      → Q (run_sweep c api env s r).0
  unfolding run_sweep
  run_sweep-keeps s (err e, w) q = noted (to_string e) (record s { world = w }) (moved w s q)
  run_sweep-keeps s (ok vs, w) q =
      sweep_videos-keeps c api env Q Q moved dispatched (λ t q'. q') noted (length vs) vs 0 _
        (recovered (record s { world = w }) (moved w s q))

  pub process_pending_downloads-keeps :
      (s : Runtime api) → Q s → Q (process_pending_downloads c api env s).0
  unfolding process_pending_downloads
  process_pending_downloads-keeps s q = elim (Bool-cases (is_closed env)) [
    | inl closed ↦ rw closed q
    | inr opened ↦
        elim (Bool-cases (is_some_and s.sup.db_retry_after (λ until. ltb env.instant_now until))) [
          | inl waits ↦ rw (opened, waits) q
          | inr due ↦ rw (opened, due) (run_sweep-keeps s (list_ready env.utc_now s.world) q)
        ]
  ]
