-- ===== src/Watchdog/Examples.antt =====
-- Examples of the watchdog.
use hofvarpnir.Base.{◌-◌, ◌≤◌, ◌<◌, ◌≡◌, refl, true, false, some, List, [], ◌∷◌, leb, count_if}
use hofvarpnir.Clock.{hours, mins}
use hofvarpnir.Samples.{calendar}
use hofvarpnir.Drain.{fresh, begin}
use hofvarpnir.Watchdog.{
  Process, Round, ActorHealthReport, cycle, any_unrecoverable, max_self_exits_per_hour,
  min_uptime_before_exit,
}
use hofvarpnir.Watchdog.Budget.{WithinBudget, start, next, History-WithinBudget, cycle-exited}

abbrev running : Process
running = record { events = []; alive = true; drain = fresh; exited = false }

-- An actor is lost after twenty minutes.
abbrev lost : Round
lost = record {
  now = hours 2;
  uptime = mins 20;
  reports = some (record { unrecoverable = true } ∷ []);
  operator_timeout = hours 1;
  readable = true;
  writable = true;
}

History-WithinBudget_example : WithinBudget (hours 2 ∷ [])
unfolding cycle begin
History-WithinBudget_example =
    History-WithinBudget calendar (hours 2 ∷ []) (next start running lost refl refl refl)

cycle-exited_example :
    (reports : List ActorHealthReport) × (lost.reports ≡ some reports)
    × (any_unrecoverable reports ≡ true)
    × (min_uptime_before_exit ≤ lost.uptime)
    × (lost.readable ≡ true)
    × (count_if (λ e. leb (lost.now - hours 1) e) running.events < max_self_exits_per_hour)
unfolding cycle
cycle-exited_example = cycle-exited calendar running lost refl refl
