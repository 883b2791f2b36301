-- ===== src/Supervisor/Spawned.antt =====
-- What a dispatch does, and when (`dispatch_download` of download_supervisor.rs).
use Prim.Native.String.{String}
use hofvarpnir.Base.{
  contains_key, ℕ, suc, ◌≤◌, ◌≡◌, refl, sym, subst, ◌⊎◌, inl, inr, true, false, not, Option, none,
  some, is_some_and, [], ◌∷◌, ◌++◌, contains, Result, ok, ltb, Bool-cases, arith,
}
use hofvarpnir.Settings.{downloads_paused}
use hofvarpnir.Drain.{is_draining}
use hofvarpnir.Semaphore.{SemaphoreApi}
use hofvarpnir.Videos.{
  Video, VideoStatus, pending, awaiting_quality, downloading, completed, failed, skipped, cleaned,
  permanently_failed,
}
use hofvarpnir.Supervisor.State.{Runtime, Env, EnqueueDownload, Task, sleeping}
use hofvarpnir.Supervisor.Backoff.{effective_rate_limit_delay}
use hofvarpnir.Supervisor.Dispatch.{
  dispatch_download, spawn_task, is_closed, is_eligible, reserve_dispatch,
}

-- No retry time, or one that has come.
abbrev pub HasCome : ℕ → Option ℕ → Type 0
HasCome now retry = (retry ≡ none) ⊎ ((t : ℕ) × (retry ≡ some t) × (t ≤ now))

-- The statuses from which a download may start.
abbrev pub MayStart : ℕ → Video → Type 0
MayStart now v =
    (v.status ≡ pending)
    ⊎ (v.status ≡ cleaned)
    ⊎ (((v.status ≡ failed) ⊎ (v.status ≡ awaiting_quality)) × HasCome now v.next_retry)

has_come :
    (now : ℕ) (retry : Option ℕ)
    → not (is_some_and retry (λ t. ltb now t)) ≡ true
    → HasCome now retry
has_come now none h = inl refl
has_come now (some t) h = inr (t, refl, ground (arith, h))

is_eligible-MayStart : (now : ℕ) (v : Video) → is_eligible now v ≡ true → MayStart now v
unfolding is_eligible
is_eligible-MayStart now v fits = go v.status refl
  where
    go : (s : VideoStatus) → v.status ≡ s → MayStart now v
    go pending is = inl is
    go cleaned is = inr (inl is)
    go failed is = inr (inr (inl is, has_come now v.next_retry (ground (arith, fits, is))))
    go awaiting_quality is =
        inr (inr (inr is, has_come now v.next_retry (ground (arith, fits, is))))
    go completed is = absurd (ground (arith, fits, is))
    go permanently_failed is = absurd (ground (arith, fits, is))
    go skipped is = absurd (ground (arith, fits, is))
    go downloading is = absurd (ground (arith, fits, is))

MayStart-is_eligible : (now : ℕ) (v : Video) → MayStart now v → is_eligible now v ≡ true
unfolding is_eligible
MayStart-is_eligible now v (inl is) = ground (arith, is)
MayStart-is_eligible now v (inr (inl is)) = ground (arith, is)
MayStart-is_eligible now v (inr (inr (inl is, inl never))) = ground (arith, is, never)
MayStart-is_eligible now v (inr (inr (inl is, inr (t, at, come)))) = ground (arith, is, at, come)
MayStart-is_eligible now v (inr (inr (inr is, inl never))) = ground (arith, is, never)
MayStart-is_eligible now v (inr (inr (inr is, inr (t, at, come)))) = ground (arith, is, at, come)

module _ (api : SemaphoreApi) (env : Env) (msg : EnqueueDownload) where
  -- Nothing pauses or drains the downloads, the video may start, and it is neither registered nor
  -- reserved.
  abbrev pub MayDispatch : Runtime api → Type 0
  MayDispatch s =
      (downloads_paused env.settings env.utc_now ≡ false)
      × (is_draining env.drain ≡ false)
      × MayStart env.utc_now msg.video
      × (contains_key s.sup.active_downloads msg.video.id ≡ false)
      × (contains s.sup.dispatching msg.video.id ≡ false)

  -- One task is added for the video, which sleeps with the delay in force, and the video is reserved;
  -- nothing else changes but the time of the last start and the next task's id.
  abbrev pub IsSpawned : (before after : Runtime api) → Type 0
  IsSpawned before after =
      ((task : Task) × (after.tasks ≡ before.tasks ++ task ∷ [])
        × (task.id ≡ before.next_task)
        × (task.video ≡ msg.video)
        × (task.profile ≡ msg.profile)
        × (task.source ≡ msg.source)
        × (task.last_download_start ≡ before.sup.last_download_start)
        × (task.rate_limit_delay
            ≡ effective_rate_limit_delay before.sup.rate_limit_backoff_multiplier
                env.settings.rate_limit_delay.value)
        × (task.phase ≡ sleeping))
      × (after.next_task ≡ suc before.next_task)
      × (after.sup ≡ record before.sup {
        dispatching = msg.video.id ∷ before.sup.dispatching;
        last_download_start = some env.instant_now;
      })
      × (after.world ≡ before.world)
      × (after.stopped ≡ before.stopped)

  abbrev pub IsDispatched : (before : Runtime api) → Runtime api × Result String (Unit {0}) → Type 0
  IsDispatched before (after, reply) =
      (reply ≡ ok tt)
      × (((¬ MayDispatch before) × (after ≡ before))
          ⊎ (MayDispatch before × IsSpawned before after))

  spawn_task-IsSpawned :
      (s : Runtime api) → IsSpawned s (spawn_task api env msg (msg.video.id ∷ s.sup.dispatching) s)
  unfolding spawn_task
  spawn_task-IsSpawned s =
      ((_, refl, refl, refl, refl, refl, refl, refl, refl), refl, refl, refl, refl)

  kept :
      (s : Runtime api)
      → ¬ MayDispatch s
      → dispatch_download api env msg s ≡ (s, ok tt)
      → IsDispatched s (dispatch_download api env msg s)
  kept s barred same = subst (IsDispatched s) (sym same) (refl, inl (barred, refl))

  -- A dispatch returns no error. If nothing pauses or drains the downloads, the video's status and
  -- retry time let it start, and it is neither registered nor reserved, then it is reserved and one
  -- task, which sleeps, is added for it; if not, nothing changes.
  pub dispatch_download-IsDispatched :
      (s : Runtime api) → IsDispatched s (dispatch_download api env msg s)
  unfolding dispatch_download reserve_dispatch is_closed
  dispatch_download-IsDispatched s = elim (Bool-cases (is_closed env)) [
    | inl closed ↦ kept s (λ may. ground (arith, closed, may.0, may.1)) (rw closed refl)
    | inr opened ↦ elim (Bool-cases (is_eligible env.utc_now msg.video)) [
      | inr unfit ↦
          kept s
            (λ may. let fits = MayStart-is_eligible env.utc_now msg.video may.2 in cc (unfit, fits))
            (rw (opened, unfit) refl)
      | inl fits ↦ elim (Bool-cases (contains_key s.sup.active_downloads msg.video.id)) [
        | inl active ↦ kept s (λ may. cc (active, may.3)) (rw (opened, fits, active) refl)
        | inr idle ↦ elim (Bool-cases (contains s.sup.dispatching msg.video.id)) [
          | inl reserved ↦
              kept s (λ may. cc (reserved, may.4)) (rw (opened, fits, idle, reserved) refl)
          | inr free ↦
              let runs : dispatch_download api env msg s
                  ≡ (spawn_task api env msg (msg.video.id ∷ s.sup.dispatching) s, ok tt) =
                rw (opened, fits, idle, free) refl in
              subst (IsDispatched s) (sym runs) (
                refl,
                inr (
                  (
                    ground (arith, opened),
                    ground (arith, opened),
                    is_eligible-MayStart env.utc_now msg.video fits,
                    idle,
                    free,
                  ),
                  spawn_task-IsSpawned s,
                ),
              )
        ]
      ]
    ]
  ]
