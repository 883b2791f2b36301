-- ===== src/Supervisor/PendingSweep.antt =====
-- The sweep of the pending downloads (download_supervisor.rs).
use Prim.Native.String.{String}
use hofvarpnir.Base.{
  ℕ, ◌+◌, List, [], ◌∷◌, ltb, if◌then◌else◌, is_some_and, length, Result, ok, err,
}
use hofvarpnir.Clock.{Calendar}
use hofvarpnir.Semaphore.{SemaphoreApi}
use hofvarpnir.Videos.{Video}
use hofvarpnir.Database.{
  World, DbError, to_string, Source, Profile, list_ready, get_sources_for_video, get_source,
  get_profile,
}
use hofvarpnir.Supervisor.State.{Runtime, Env, EnqueueDownload}
use hofvarpnir.Supervisor.Dispatch.{is_closed, dispatch_download}
use hofvarpnir.Supervisor.Failure.{note_db_failure, note_db_recovered}

-- What one round of the sweep's loop leaves: the end of the sweep, or the count of the videos
-- dispatched so far.
pub data SweepRound (api : SemaphoreApi) : Type 0 where
  aborted : Runtime api → SweepRound api
  continued : ℕ → Runtime api → SweepRound api

module _ (c : Calendar) (api : SemaphoreApi) where
  unfoldable pub abort_sweep : Env → DbError → World → Runtime api → SweepRound api
  abort_sweep env e w s =
      aborted (record s { sup = note_db_failure c api env (to_string e) s.sup; world = w })

  -- The inline call of `dispatch_download`; only a dispatch that returns `Ok` is counted.
  unfoldable pub dispatch_pending : Env → EnqueueDownload → ℕ → Runtime api → SweepRound api
  dispatch_pending env msg dispatched s =
      let (s', reply) = dispatch_download api env msg s in
      elim reply [ ok _ ↦ continued (dispatched + 1) s' | err e ↦ continued dispatched s' ]

  unfoldable pub with_profile :
      Env → Video → ℕ → Runtime api → Source → Result DbError Profile × World → SweepRound api
  with_profile env video dispatched s source (err e, w) = abort_sweep env e w s
  with_profile env video dispatched s source (ok profile, w) =
      dispatch_pending env (record { video = video; profile = profile; source = source }) dispatched
        (record s { world = w })

  unfoldable pub with_source :
      Env → Video → ℕ → Runtime api → Result DbError Source × World → SweepRound api
  with_source env video dispatched s (err e, w) = abort_sweep env e w s
  with_source env video dispatched s (ok source, w) =
      with_profile env video dispatched s source (get_profile source.profile_id w)

  unfoldable pub with_source_ids :
      Env → Video → ℕ → Runtime api → Result DbError (List ℕ) × World → SweepRound api
  with_source_ids env video dispatched s (err e, w) = abort_sweep env e w s
  with_source_ids env video dispatched s (ok [], w) = continued dispatched (record s { world = w })
  with_source_ids env video dispatched s (ok (first_source_id ∷ rest), w) =
      with_source env video dispatched s (get_source first_source_id w)

  -- One round of the loop over the videos.
  unfoldable pub sweep_video : Env → Video → ℕ → Runtime api → SweepRound api
  sweep_video env video dispatched s =
      with_source_ids env video dispatched s (get_sources_for_video video.id s.world)

  unfoldable pub sweep_videos :
      Env → ℕ → List Video → ℕ → Runtime api → Runtime api × Result String ℕ
  sweep_videos env count [] dispatched s = (s, ok count)
  sweep_videos env count (video ∷ videos) dispatched s = elim (sweep_video env video dispatched s) [
    | aborted s' ↦ (s', ok dispatched)
    | continued dispatched' s' ↦ sweep_videos env count videos dispatched' s'
  ]

  -- The body behind the two gates.
  unfoldable pub run_sweep :
      Env → Runtime api → Result DbError (List Video) × World → Runtime api × Result String ℕ
  run_sweep env s (err e, w) =
      (record s { sup = note_db_failure c api env (to_string e) s.sup; world = w }, ok 0)
  run_sweep env s (ok videos, w) =
      let healthy = record s { sup = note_db_recovered c api s.sup; world = w } in
      sweep_videos env (length videos) videos 0 healthy

  -- The handler of `ProcessPendingDownloads`.
  unfoldable pub process_pending_downloads : Env → Runtime api → Runtime api × Result String ℕ
  process_pending_downloads env s =
      if is_closed env
      then (s, ok 0)
      else if is_some_and s.sup.db_retry_after (λ until. ltb env.instant_now until)
      then (s, ok 0)
      else run_sweep env s (list_ready env.utc_now s.world)
