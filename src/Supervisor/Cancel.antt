-- ===== src/Supervisor/Cancel.antt =====
-- What a cancel leaves behind (download_supervisor.rs, `CancelDownload`).
use hofvarpnir.Base.{
  contains_key, remove_key, ℕ, suc, ◌≡◌, refl, ap, true, false, List, [], ◌∷◌, ◌==◌,
  contains-remove, count_if, count_if-append, Result, ok, err, arith,
}
use hofvarpnir.Clock.{Calendar}
use hofvarpnir.Semaphore.{SemaphoreApi}
use hofvarpnir.Database.{World, DbError, update_video_status}
use hofvarpnir.Videos.{failed}
use hofvarpnir.Supervisor.State.{Runtime, Env, EnqueueDownload}
use hofvarpnir.Supervisor.Dispatch.{
  dispatch_download, spawn_task, is_closed, is_eligible, reserve_dispatch,
}
use hofvarpnir.Supervisor.Handlers.{cancel_download, release_download, report_cancel}
use hofvarpnir.Supervisor.Tasks.{is_live}

eq_self : (n : ℕ) → (n == n) ≡ true
eq_self n = ground arith

remove_key-absent :
    (video : ℕ) (ws : List (ℕ × ℕ)) → contains_key (remove_key video ws) video ≡ false
remove_key-absent video [] = refl
remove_key-absent video ((v, worker) ∷ ws) = ground (arith, remove_key-absent video ws)

module _ (c : Calendar) (api : SemaphoreApi) where
  report_cancel-same :
      (video : ℕ) (s : Runtime api) (r : Result DbError (Unit {0}) × World)
      → ((report_cancel c api video s r).0.sup ≡ s.sup)
        × ((report_cancel c api video s r).0.tasks ≡ s.tasks)
        × ((report_cancel c api video s r).0.next_task ≡ s.next_task)
  unfolding report_cancel
  report_cancel-same video s (err e, w) = (refl, refl, refl)
  report_cancel-same video s (ok _, w) = (refl, refl, refl)

  -- A cancel stops no task: it only frees the video's registration and reservation. So a
  -- dispatch after it, with the gate open and a status that is eligible, starts one more task for
  -- the video, however many live tasks of the video there are.
  pub cancel_download-redispatch :
      (env later : Env) (msg : EnqueueDownload) (s : Runtime api)
      → is_closed later ≡ false
      → is_eligible later.utc_now msg.video ≡ true
      → let cancelled = (cancel_download c api env msg.video.id s).0 in
        let redispatched = (dispatch_download api later msg cancelled).0 in
        (count_if (is_live msg.video.id) cancelled.tasks ≡ count_if (is_live msg.video.id) s.tasks)
        × (count_if (is_live msg.video.id) redispatched.tasks
            ≡ suc (count_if (is_live msg.video.id) s.tasks))
  unfolding cancel_download dispatch_download reserve_dispatch spawn_task release_download
  cancel_download-redispatch env later msg s opened fits =
      let video = msg.video.id in
      let (sup, tasks, next) =
        report_cancel-same video (release_download c api video s)
          (update_video_status env.utc_now video failed s.world) in
      (
        ap (count_if (is_live video)) tasks,
        rw (opened, fits, sup, remove_key-absent, contains-remove, eq_self, tasks, count_if-append)
            (ground (arith, eq_self video)),
      )
