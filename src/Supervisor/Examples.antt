-- ===== src/Supervisor/Examples.antt =====
-- Examples of the supervisor's handlers.
use hofvarpnir.Base.{
  ℕ, suc, ◌+◌, ◌*◌, ◌^◌, ◌≤◌, ◌<◌, min, ◌≡◌, refl, ◌↔◌, ◌⊎◌, inl, inr, true, false, none, some, pos,
  [], ◌∷◌, All, length, i32_max, count_if, ok, err, arith,
}
use hofvarpnir.Clock.{from_secs}
use hofvarpnir.Samples.{
  calendar, semaphores, video, profile, source, request, world, env, idle, idle_supervisor,
}
use hofvarpnir.Videos.{failed, permanently_failed, is_ready, list_videos_ready_for_download}
use hofvarpnir.Database.{
  DbError, query_failed, served, refused, unacknowledged, list_ready, update_video_status,
  linked_sources, find_source, find_profile,
}
use hofvarpnir.Supervisor.State.{Supervisor, Runtime, Env}
use hofvarpnir.Supervisor.Dispatch.{dispatch_download, is_closed, is_eligible}
use hofvarpnir.Supervisor.PendingSweep.{process_pending_downloads}
use hofvarpnir.Supervisor.Handlers.{cancel_download}
use hofvarpnir.Supervisor.Messages.{enqueues, sweeps, cancels, rate_limits, handle, told_error}
use hofvarpnir.Supervisor.Tasks.{is_live}
use hofvarpnir.Supervisor.Spawned.{IsDispatched, dispatch_download-IsDispatched}
use hofvarpnir.Supervisor.Invariant.{IsValid, handle-IsValid}
use hofvarpnir.Supervisor.Outage.{failed_list-quiet}
use hofvarpnir.Supervisor.Retry.{
  failed_attempt, failed_attempts, failed_attempt-ready, failed_attempts-given_up,
}
use hofvarpnir.Supervisor.Replies.{told_error-none}
use hofvarpnir.Supervisor.Routes.{Route}
use hofvarpnir.Supervisor.Complete.{Reached, process_pending_downloads_complete}
use hofvarpnir.Supervisor.Closed.{handle_closed}
use hofvarpnir.Supervisor.Cancel.{cancel_download-redispatch}

dispatch_download-IsDispatched_example :
    IsDispatched semaphores env request idle (dispatch_download semaphores env request idle)
dispatch_download-IsDispatched_example = dispatch_download-IsDispatched semaphores env request idle

idle_supervisor-IsValid : IsValid semaphores idle_supervisor
idle_supervisor-IsValid = record {
  slowed = omega arith;
  counted = refl;
  outage = inl (refl, refl, refl);
}

handle-IsValid_example : IsValid semaphores (handle calendar semaphores env rate_limits idle).sup
handle-IsValid_example =
    handle-IsValid calendar semaphores env rate_limits idle idle_supervisor-IsValid

-- A database that refuses the next query, and one whose second reply is lost.
abbrev refusing : Runtime semaphores
refusing = record idle { world = record world { faults = refused "gone" ∷ [] } }

abbrev losing : Runtime semaphores
losing = record idle { world = record world { faults = served ∷ unacknowledged "lost" ∷ [] } }

told_error-none_example :
    (told_error calendar semaphores env sweeps refusing ≡ none)
    ⊎ ((video : ℕ) × (sweeps ≡ cancels video)
        × (e : DbError) × ((update_video_status env.utc_now video failed refusing.world).0 ≡ err e))
told_error-none_example = told_error-none calendar semaphores env sweeps refusing

abbrev a_moment_later : Env
a_moment_later = record env { instant_now = from_secs 100 + 1 }

failed_list-quiet_example :
    let after = (process_pending_downloads calendar semaphores env refusing).0 in
    process_pending_downloads calendar semaphores a_moment_later after ≡ (after, ok 0)
unfolding is_closed list_ready
failed_list-quiet_example =
    failed_list-quiet calendar semaphores env a_moment_later refusing (query_failed "gone") refl
      refl refl (omega arith) (omega arith)

route : Route world 7
unfolding linked_sources find_source find_profile
route = record {
  first = 5;
  rest = [];
  source = source;
  profile = profile;
  linked = refl;
  source_found = refl;
  profile_found = refl;
}

process_pending_downloads_complete_example :
    All
      (Reached calendar semaphores env world
        (process_pending_downloads calendar semaphores env idle).0)
      (list_videos_ready_for_download env.utc_now world.videos)
    × ((process_pending_downloads calendar semaphores env idle).1
        ≡ ok (length (list_videos_ready_for_download env.utc_now world.videos)))
unfolding is_closed list_videos_ready_for_download is_ready
process_pending_downloads_complete_example =
    process_pending_downloads_complete calendar semaphores env idle refl refl refl (inr route, tt)

failed_attempt-ready_example :
    let after = failed_attempt calendar 5 "gone" (from_secs 5000) video in
    (after.attempts ≡ pos 1)
    × (((min 5 i32_max ≤ 1)
          × (after.status ≡ permanently_failed)
          × ((later : ℕ) → is_ready later after ≡ false))
        ⊎ ((1 < min 5 i32_max)
            × (after.status ≡ failed)
            × ((later : ℕ)
                → (is_ready later after ≡ true)
                  ↔ (from_secs 5000 + from_secs (min (120 * 2 ^ 1) 3840) ≤ later))))
failed_attempt-ready_example =
    failed_attempt-ready calendar 5 0 (from_secs 5000) "gone" video (omega arith) refl

failed_attempts-given_up_example :
    ((failed_attempt calendar 3 "gone" 90
        (failed_attempts calendar 3 "gone" (10 ∷ 20 ∷ []) video)).status
      ≡ permanently_failed)
    ↔ (min 3 i32_max ≤ suc (length {A = ℕ} (10 ∷ 20 ∷ [])))
failed_attempts-given_up_example =
    failed_attempts-given_up calendar 3 90 "gone" (10 ∷ 20 ∷ []) video (omega arith) refl

-- The video's task waits for its permit when the cancel comes.
abbrev dispatched : Runtime semaphores
dispatched = (dispatch_download semaphores env request idle).0

cancel_download-redispatch_example :
    let cancelled = (cancel_download calendar semaphores env 7 dispatched).0 in
    let redispatched = (dispatch_download semaphores a_moment_later request cancelled).0 in
    (count_if (is_live 7) cancelled.tasks ≡ count_if (is_live 7) dispatched.tasks)
    × (count_if (is_live 7) redispatched.tasks ≡ suc (count_if (is_live 7) dispatched.tasks))
unfolding is_closed is_eligible
cancel_download-redispatch_example =
    cancel_download-redispatch calendar semaphores env a_moment_later request dispatched refl refl

-- One permit, held by task 4, while task 5 waits.
abbrev crowded : Supervisor semaphores
crowded = record idle_supervisor {
  semaphore = record { available = 0; holders = 3 ∷ 4 ∷ []; waiters = 5 ∷ [] };
  permits_total = 2;
}

abbrev draining : Env
draining = record env {
  drain = record { started = some (record { started_at = 0; deadline = 10 }); complete = false };
}

handle_closed_example :
    (handle calendar semaphores draining (enqueues request) dispatched).tasks ≡ dispatched.tasks
unfolding is_closed
handle_closed_example =
    handle_closed calendar semaphores draining (enqueues request) dispatched refl
