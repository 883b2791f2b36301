-- ===== src/Supervisor/Tasks/Examples.antt =====
-- A run of the supervisor with one download, up to its worker.
use hofvarpnir.Base.{◌≤◌, refl, none, [], ◌∷◌, ◌++◌, contains, count_if, inl, arith}
use hofvarpnir.Clock.{from_secs}
use hofvarpnir.Samples.{
  calendar, semaphores, request, video, profile, source, env, idle, idle_supervisor,
}
use hofvarpnir.Supervisor.State.{Task, Phase, sleeping, acquiring}
use hofvarpnir.Supervisor.Backoff.{effective_rate_limit_delay}
use hofvarpnir.Supervisor.Dispatch.{
  dispatch_download, spawn_task, is_closed, is_eligible, reserve_dispatch,
}
use hofvarpnir.Supervisor.Handlers.{enqueue_download}
use hofvarpnir.Supervisor.Messages.{enqueues, handle}
use hofvarpnir.Supervisor.Invariant.{IsValid}
use hofvarpnir.Supervisor.Tasks.{
  System, Run, done, then_step, arrives, handles, goes_on, advance, is_live,
}
use hofvarpnir.Supervisor.Tasks.Single.{one_if, run-one_task}
use hofvarpnir.Supervisor.Tasks.Cap.{is_running}
use hofvarpnir.Supervisor.Tasks.Limit.{run-within_cap}

abbrev at_rest : System semaphores
at_rest = record { runtime = idle; mailbox = [] }

abbrev asked : System semaphores
asked = record { runtime = idle; mailbox = enqueues request ∷ [] }

abbrev under_way : System semaphores
under_way = record {
  runtime = handle calendar semaphores env (enqueues request) idle;
  mailbox = [];
}

abbrev one_download : Run calendar semaphores at_rest under_way
one_download =
    then_step at_rest asked under_way
      (then_step at_rest at_rest asked (done at_rest) (arrives (enqueues request) at_rest refl))
      (handles env (enqueues request) [] idle refl)

run-one_task_example :
    count_if (is_live 7) under_way.runtime.tasks
    ≤ one_if (contains under_way.runtime.sup.dispatching 7)
run-one_task_example =
    run-one_task calendar semaphores at_rest under_way one_download refl refl refl 7

-- The spawned task, in a phase, and the system once it has gone on from there.
abbrev task_in : Phase → Task
task_in p = record {
  id = 0;
  video = video;
  profile = profile;
  source = source;
  rate_limit_delay = from_secs 5;
  last_download_start = none;
  phase = p;
}

abbrev once_on : Phase → System semaphores → System semaphores
once_on p x =
    let (phase, semaphore, told) = advance semaphores 0 none (task_in p) x.runtime.sup.semaphore in
    record {
      runtime = record x.runtime {
        sup = record x.runtime.sup { semaphore = semaphore };
        tasks = record (task_in p) { phase = phase } ∷ [];
      };
      mailbox = x.mailbox ++ told;
    }

abbrev queued : System semaphores
queued = once_on sleeping under_way

abbrev granted : System semaphores
granted = once_on acquiring queued

up_to_worker : Run calendar semaphores at_rest granted
unfolding handle enqueue_download dispatch_download spawn_task is_closed is_eligible
    reserve_dispatch effective_rate_limit_delay advance
up_to_worker =
    then_step at_rest queued granted
      (then_step at_rest under_way queued one_download
        (goes_on 0 none [] [] (task_in sleeping) under_way refl))
      (goes_on 0 none [] [] (task_in acquiring) queued refl)

idle_supervisor-IsValid : IsValid semaphores idle_supervisor
idle_supervisor-IsValid = record {
  slowed = omega arith;
  counted = refl;
  outage = inl (refl, refl, refl);
}

run-within_cap_example :
    count_if (λ t. is_running t.phase) granted.runtime.tasks ≤ granted.runtime.sup.permits_total
run-within_cap_example =
    run-within_cap calendar semaphores at_rest granted up_to_worker idle_supervisor-IsValid refl
