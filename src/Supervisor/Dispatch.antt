-- ===== src/Supervisor/Dispatch.antt =====
-- Dispatching one video, and resizing the semaphore (download_supervisor.rs).
use Prim.Native.String.{String}
use hofvarpnir.Base.{
  contains_key, ℕ, suc, ◌-◌, Bool, true, false, not, ◌||◌, some, List, [], ◌∷◌, ◌++◌, ltb,
  if◌then◌else◌, is_some_and, contains, insert, Result, ok,
}
use hofvarpnir.Settings.{downloads_paused}
use hofvarpnir.Drain.{is_draining}
use hofvarpnir.Semaphore.{SemaphoreApi}
use hofvarpnir.Videos.{
  Video, pending, awaiting_quality, downloading, completed, failed, skipped, cleaned,
  permanently_failed,
}
use hofvarpnir.Supervisor.State.{Supervisor, Runtime, Env, EnqueueDownload, Task, sleeping}
use hofvarpnir.Supervisor.Backoff.{effective_rate_limit_delay}

-- The gate at the top of `dispatch_download` and of the sweep.
unfoldable pub is_closed : Env → Bool
unfolding downloads_paused is_draining
is_closed env = downloads_paused env.settings env.utc_now || is_draining env.drain

-- The `match` on the video's status: whether it goes on.
unfoldable pub is_eligible : ℕ → Video → Bool
is_eligible now v = elim v.status [
  | completed ↦ false
  | permanently_failed ↦ false
  | skipped ↦ false
  | downloading ↦ false
  | failed ↦ not (is_some_and v.next_retry (λ t. ltb now t))
  | awaiting_quality ↦ not (is_some_and v.next_retry (λ t. ltb now t))
  | pending ↦ true
  | cleaned ↦ true
]

-- The new set of reservations, and whether the slot is newly reserved.
unfoldable pub reserve_dispatch : Bool → List ℕ → ℕ → List ℕ × Bool
reserve_dispatch already_active dispatching video =
    if already_active
    then (dispatching, false)
    else (insert video dispatching, not (contains dispatching video))

module _ (api : SemaphoreApi) where
  -- The spawn at the end of `dispatch_download`.
  unfoldable pub spawn_task : Env → EnqueueDownload → List ℕ → Runtime api → Runtime api
  unfolding effective_rate_limit_delay
  spawn_task env msg reserved s =
      let sup = s.sup in
      let task : Task = record {
        id = s.next_task;
        video = msg.video;
        profile = msg.profile;
        source = msg.source;
        rate_limit_delay =
            effective_rate_limit_delay sup.rate_limit_backoff_multiplier
              env.settings.rate_limit_delay.value;
        last_download_start = sup.last_download_start;
        phase = sleeping;
      } in
      record s {
        sup = record sup { dispatching = reserved; last_download_start = some env.instant_now };
        tasks = s.tasks ++ task ∷ [];
        next_task = suc s.next_task;
      }

  unfoldable pub dispatch_download :
      Env → EnqueueDownload → Runtime api → Runtime api × Result String (Unit {0})
  dispatch_download env msg s =
      if is_closed env
      then (s, ok tt)
      else if not (is_eligible env.utc_now msg.video)
      then (s, ok tt)
      else let (reserved, new_slot) =
          reserve_dispatch (contains_key s.sup.active_downloads msg.video.id) s.sup.dispatching
            msg.video.id in
        if new_slot then (spawn_task env msg reserved s, ok tt) else (s, ok tt)

  unfoldable pub resize_semaphore : ℕ → Supervisor api → Supervisor api
  resize_semaphore target sup =
      if ltb sup.permits_total target
      then record sup {
        semaphore = api.add_permits sup.semaphore (target - sup.permits_total);
        permits_total = target;
      }
      else if ltb target sup.permits_total
      then (let (semaphore, removed) =
            api.forget_permits sup.semaphore (sup.permits_total - target) in
          record sup { semaphore = semaphore; permits_total = sup.permits_total - removed })
      else sup
