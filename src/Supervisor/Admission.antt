-- ===== src/Supervisor/Admission.antt =====
-- When a video gets a download task (download_supervisor.rs).
use hofvarpnir.Base.{
  contains_key, ℕ, ◌≡◌, refl, ◌⊎◌, inl, inr, true, false, ◌∷◌, contains, ok, Bool-cases, arith,
}
use hofvarpnir.Semaphore.{SemaphoreApi}
use hofvarpnir.Videos.{Video, is_ready}
use hofvarpnir.Supervisor.State.{Runtime, Env, EnqueueDownload}
use hofvarpnir.Supervisor.Dispatch.{
  dispatch_download, spawn_task, is_closed, is_eligible, reserve_dispatch,
}

-- Every row that the sweep's query finds is eligible for a dispatch at the same time.
pub is_ready-is_eligible : (now : ℕ) (v : Video) → is_ready now v ≡ true → is_eligible now v ≡ true
unfolding is_ready is_eligible
is_ready-is_eligible now v h = ground arith

module _ (api : SemaphoreApi) (env : Env) (msg : EnqueueDownload) (s : Runtime api) where
  -- What admits a video: the gate is open, its status allows it, and it is neither registered nor
  -- reserved.
  pub record Admitted : Type 0 where
    gate_open : is_closed env ≡ false
    pub eligible : is_eligible env.utc_now msg.video ≡ true
    not_active : contains_key s.sup.active_downloads msg.video.id ≡ false
    pub not_reserved : contains s.sup.dispatching msg.video.id ≡ false

  -- A dispatch either changes nothing, or the video is admitted: it is reserved, and one task is
  -- spawned for it. It never returns an error.
  pub dispatch-cases :
      (dispatch_download api env msg s ≡ (s, ok tt))
      ⊎ (Admitted
          × (dispatch_download api env msg s
              ≡ (spawn_task api env msg (msg.video.id ∷ s.sup.dispatching) s, ok tt)))
  unfolding dispatch_download reserve_dispatch
  dispatch-cases = elim (Bool-cases (is_closed env)) [
    | inl closed ↦ inl (rw closed refl)
    | inr opened ↦ elim (Bool-cases (is_eligible env.utc_now msg.video)) [
      | inr no_retry ↦ inl (rw (opened, no_retry) refl)
      | inl fits ↦ elim (Bool-cases (contains_key s.sup.active_downloads msg.video.id)) [
        | inl active ↦ inl (rw (opened, fits, active) refl)
        | inr idle ↦ elim (Bool-cases (contains s.sup.dispatching msg.video.id)) [
          | inl reserved ↦ inl (rw (opened, fits, idle, reserved) refl)
          | inr free ↦ inr (
            record { gate_open = opened; eligible = fits; not_active = idle; not_reserved = free },
            rw (opened, fits, idle, free) refl,
          )
        ]
      ]
    ]
  ]

  pub dispatch-ok : (dispatch_download api env msg s).1 ≡ ok tt
  dispatch-ok = elim dispatch-cases [ inl same ↦ rw same refl | inr (_, new) ↦ rw new refl ]
