-- ===== src/Supervisor/Complete.antt =====
-- A sweep with a healthy database reaches every ready video (download_supervisor.rs).
use Prim.Native.String.{String}
use hofvarpnir.Base.{
  ℕ, ◌+◌, ◌≡◌, refl, ap, sym, subst, ◌∙◌, ◌⊎◌, inl, inr, true, false, List, [], ◌∷◌, All, length,
  is_some_and, ltb, Result, ok,
}
use hofvarpnir.Clock.{Calendar}
use hofvarpnir.Semaphore.{SemaphoreApi}
use hofvarpnir.Videos.{Video, is_ready, list_videos_ready_for_download}
use hofvarpnir.Videos.Sweep.{list_videos_ready_for_download-All}
use hofvarpnir.Database.{World, linked_sources}
use hofvarpnir.Database.Served.{list_ready-served}
use hofvarpnir.Supervisor.State.{Supervisor, Runtime, Env, EnqueueDownload}
use hofvarpnir.Supervisor.Dispatch.{dispatch_download, is_closed, is_eligible}
use hofvarpnir.Supervisor.Admission.{is_ready-is_eligible}
use hofvarpnir.Supervisor.Failure.{note_db_failure}
use hofvarpnir.Supervisor.SweepRule.{sweep_videos-keeps}
use hofvarpnir.Supervisor.Outage.{open_sweep}
use hofvarpnir.Supervisor.PendingSweep.{
  continued, sweep_video, sweep_videos, run_sweep, process_pending_downloads,
}
use hofvarpnir.Supervisor.Routes.{
  Route, InFlight, dispatch-world, dispatch-InFlight, dispatch-reserved, sweep_video-routed,
  sweep_video-unlinked,
}

module _ (c : Calendar) (api : SemaphoreApi) (env : Env) where
  -- What a listed video needs of the tables, and what the sweep does for it.
  abbrev Routed : World → Video → Type 0
  Routed w v = (linked_sources v.id w.source_videos ≡ []) ⊎ Route w v.id

  abbrev pub Reached : World → Runtime api → Video → Type 0
  Reached w s v = (linked_sources v.id w.source_videos ≡ []) ⊎ InFlight api s.sup v.id

  note_db_failure-InFlight :
      (e : String) (video : ℕ) (sup : Supervisor api)
      → InFlight api sup video
      → InFlight api (note_db_failure c api env e sup) video
  unfolding note_db_failure
  note_db_failure-InFlight e video sup h = h

  sweep_videos-InFlight :
      (count : ℕ) (vs : List Video) (n video : ℕ) (s : Runtime api)
      → InFlight api s.sup video
      → InFlight api (sweep_videos c api env count vs n s).0.sup video
  sweep_videos-InFlight count vs n video s h =
      sweep_videos-keeps c api env (λ t. InFlight api t.sup video) (λ t. InFlight api t.sup video)
        (λ w t q. q) (λ msg t q. dispatch-InFlight api env msg video t q) (λ t q. q)
        (λ e t q. note_db_failure-InFlight e video t.sup q) count vs n s h

  abbrev ReachedAll : World → ℕ → List Video → Runtime api × Result String ℕ → Type 0
  ReachedAll w count vs r = All (Reached w r.0) vs × (r.1 ≡ ok count)

  sweep_videos-continued :
      (count : ℕ) (vs : List Video) (v : Video) (n n' : ℕ) (s s' : Runtime api)
      → sweep_video c api env v n s ≡ continued n' s'
      → sweep_videos c api env count (v ∷ vs) n s ≡ sweep_videos c api env count vs n' s'
  unfolding sweep_videos
  sweep_videos-continued count vs v n n' s s' e = rw (e, sweep_videos) refl

  sweep_videos_complete :
      (opened : is_closed env ≡ false) (count : ℕ) (w : World) (served : w.faults ≡ [])
      (vs : List Video) (n : ℕ) (s : Runtime api)
      → s.world ≡ w
      → All (λ v. is_eligible env.utc_now v ≡ true) vs
      → All (Routed w) vs
      → ReachedAll w count vs (sweep_videos c api env count vs n s)
  unfolding sweep_videos
  sweep_videos_complete opened count w served [] n s same fits routed = (tt, refl)
  sweep_videos_complete opened count w served (v ∷ vs) n s same (f, fits) (inl alone, routed) =
      let (reached, reply) = sweep_videos_complete opened count w served vs n s same fits routed in
      subst (ReachedAll w count (v ∷ vs))
        (sym (
          sweep_videos-continued count vs v n n s s (
            sweep_video-unlinked c api env v n s
              (ap (λ u. linked_sources v.id u.source_videos) same ∙ alone)
              (ap (λ u. u.faults) same ∙ served))))
        ((inl alone, reached), reply)
  sweep_videos_complete opened count w served (v ∷ vs) n s same (f, fits) (inr route, routed) =
      let r : Route s.world v.id = subst (λ u. Route u v.id) (sym same) route in
      let msg : EnqueueDownload = record { video = v; profile = r.profile; source = r.source } in
      let next = (dispatch_download api env msg s).0 in
      let (reached, reply) =
        sweep_videos_complete opened count w served vs (n + 1) next
          (dispatch-world api env msg s ∙ same) fits routed in
      subst (ReachedAll w count (v ∷ vs))
        (sym (
          sweep_videos-continued count vs v n (n + 1) s next
            (sweep_video-routed c api env v n s r (ap (λ u. u.faults) same ∙ served))))
        (
          (
            inr (
                sweep_videos-InFlight count vs (n + 1) v.id next
                  (dispatch-reserved api env msg s opened f)),
            reached,
          ),
          reply,
        )

  eligible-All :
      (vs : List Video)
      → All (λ v. is_ready env.utc_now v ≡ true) vs
      → All (λ v. is_eligible env.utc_now v ≡ true) vs
  eligible-All [] a = tt
  eligible-All (v ∷ vs) a = (is_ready-is_eligible env.utc_now v a.0, eligible-All vs a.1)

  run_sweep_complete :
      (s : Runtime api) (vs : List Video)
      → is_closed env ≡ false
      → s.world.faults ≡ []
      → All (λ v. is_eligible env.utc_now v ≡ true) vs
      → All (Routed s.world) vs
      → All (Reached s.world (run_sweep c api env s (ok vs, s.world)).0) vs
        × ((run_sweep c api env s (ok vs, s.world)).1 ≡ ok (length vs))
  unfolding run_sweep
  run_sweep_complete s vs opened served fits routed =
      sweep_videos_complete opened (length vs) s.world served vs 0 _ refl fits routed

  -- While the database serves, and if the first link of each ready video that has one leads to a
  -- source with a profile, a sweep that passes both of its gates answers with the number of ready
  -- videos, and leaves each of them in flight, except those without a source.
  pub process_pending_downloads_complete :
      (s : Runtime api)
      → is_closed env ≡ false
      → is_some_and s.sup.db_retry_after (λ until. ltb env.instant_now until) ≡ false
      → s.world.faults ≡ []
      → All (Routed s.world) (list_videos_ready_for_download env.utc_now s.world.videos)
      → All
          (Reached s.world (process_pending_downloads c api env s).0)
          (list_videos_ready_for_download env.utc_now s.world.videos)
        × ((process_pending_downloads c api env s).1
            ≡ ok (length (list_videos_ready_for_download env.utc_now s.world.videos)))
  process_pending_downloads_complete s opened due served routed =
      subst
        (ReachedAll s.world (length (list_videos_ready_for_download env.utc_now s.world.videos))
          (list_videos_ready_for_download env.utc_now s.world.videos))
        (sym (
          open_sweep c api env s opened due
          ∙ ap (run_sweep c api env s) (list_ready-served env.utc_now s.world served)))
        (run_sweep_complete s (list_videos_ready_for_download env.utc_now s.world.videos) opened
          served
          (eligible-All (list_videos_ready_for_download env.utc_now s.world.videos)
            (list_videos_ready_for_download-All env.utc_now s.world.videos))
          routed)
