-- ===== src/Supervisor/Routes.antt =====
-- What the sweep does for one video while the database serves (download_supervisor.rs).
use hofvarpnir.Base.{
  contains_key, ℕ, ◌+◌, ◌≡◌, refl, ap, ◌∙◌, ◌⊎◌, inl, inr, true, false, some, List, [], ◌∷◌,
  Bool-cases, contains, ok, arith,
}
use hofvarpnir.Clock.{Calendar}
use hofvarpnir.Semaphore.{SemaphoreApi}
use hofvarpnir.Videos.{Video}
use hofvarpnir.Database.{World, Source, Profile, linked_sources, find_source, find_profile}
use hofvarpnir.Database.Served.{get_sources_for_video-served, get_source-served, get_profile-served}
use hofvarpnir.Supervisor.State.{Supervisor, Runtime, Env, EnqueueDownload}
use hofvarpnir.Supervisor.Dispatch.{
  dispatch_download, spawn_task, is_closed, is_eligible, reserve_dispatch,
}
use hofvarpnir.Supervisor.Admission.{dispatch-cases, dispatch-ok}
use hofvarpnir.Supervisor.PendingSweep.{
  continued, sweep_video, with_source_ids, with_source, with_profile, dispatch_pending,
}

-- What a video's first link leads to in the tables.
pub record Route (w : World) (video : ℕ) : Type 0 where
  pub first : ℕ
  pub rest : List ℕ
  pub source : Source
  pub profile : Profile
  pub linked : linked_sources video w.source_videos ≡ first ∷ rest
  pub source_found : find_source first w.sources ≡ some source
  pub profile_found : find_profile source.profile_id w.profiles ≡ some profile

module _ (api : SemaphoreApi) where
  -- The video is registered, or its dispatch is reserved.
  abbrev pub InFlight : Supervisor api → ℕ → Type 0
  InFlight sup video =
      (contains_key sup.active_downloads video ≡ true) ⊎ (contains sup.dispatching video ≡ true)

  pub dispatch-world :
      (env : Env) (msg : EnqueueDownload) (s : Runtime api)
      → (dispatch_download api env msg s).0.world ≡ s.world
  unfolding spawn_task
  dispatch-world env msg s = elim (dispatch-cases api env msg s) [
    | inl same ↦ ap (λ r. r.0.world) same
    | inr (_, new) ↦ ap (λ r. r.0.world) new
  ]

  pub dispatch-InFlight :
      (env : Env) (msg : EnqueueDownload) (video : ℕ) (s : Runtime api)
      → InFlight s.sup video
      → InFlight (dispatch_download api env msg s).0.sup video
  unfolding spawn_task
  dispatch-InFlight env msg video s h = elim (dispatch-cases api env msg s) [
    | inl same ↦ rw same h
    | inr (_, new) ↦ rw new (ground (arith, h))
  ]

  -- A dispatch behind an open gate of an eligible video leaves it in flight.
  pub dispatch-reserved :
      (env : Env) (msg : EnqueueDownload) (s : Runtime api)
      → is_closed env ≡ false
      → is_eligible env.utc_now msg.video ≡ true
      → InFlight (dispatch_download api env msg s).0.sup msg.video.id
  unfolding dispatch_download spawn_task reserve_dispatch
  dispatch-reserved env msg s opened fits =
      elim (Bool-cases (contains_key s.sup.active_downloads msg.video.id)) [
        | inl active ↦ rw (opened, fits, active) (inl active)
        | inr idle ↦ elim (Bool-cases (contains s.sup.dispatching msg.video.id)) [
          | inl reserved ↦ rw (opened, fits, idle, reserved) (inr reserved)
          | inr free ↦ rw (opened, fits, idle, free) (inr (ground arith))
        ]
      ]

module _ (c : Calendar) (api : SemaphoreApi) (env : Env) where
  dispatch_pending-ok :
      (msg : EnqueueDownload) (n : ℕ) (s : Runtime api)
      → dispatch_pending c api env msg n s ≡ continued (n + 1) (dispatch_download api env msg s).0
  unfolding dispatch_pending
  dispatch_pending-ok msg n s = rw (dispatch-ok api env msg s, dispatch_pending) refl

  pub sweep_video-routed :
      (v : Video) (n : ℕ) (s : Runtime api) (r : Route s.world v.id)
      → s.world.faults ≡ []
      → sweep_video c api env v n s
        ≡ continued
            (n + 1)
            (dispatch_download api env
              (record { video = v; profile = r.profile; source = r.source })
              s).0
  unfolding sweep_video with_source_ids with_source with_profile dispatch_pending
  sweep_video-routed v n s r served =
      let msg : EnqueueDownload = record { video = v; profile = r.profile; source = r.source } in
      ap (with_source_ids c api env v n s)
        (get_sources_for_video-served v.id s.world served ∙ ap (λ l. (ok l, s.world)) r.linked)
      ∙ ap (with_source c api env v n s)
          (get_source-served r.first r.source s.world served r.source_found)
      ∙ ap (with_profile c api env v n s r.source)
          (get_profile-served r.source.profile_id r.profile s.world served r.profile_found)
      ∙ dispatch_pending-ok msg n s

  pub sweep_video-unlinked :
      (v : Video) (n : ℕ) (s : Runtime api)
      → linked_sources v.id s.world.source_videos ≡ []
      → s.world.faults ≡ []
      → sweep_video c api env v n s ≡ continued n s
  unfolding sweep_video with_source_ids
  sweep_video-unlinked v n s alone served =
      ap (with_source_ids c api env v n s)
        (get_sources_for_video-served v.id s.world served ∙ ap (λ l. (ok l, s.world)) alone)
