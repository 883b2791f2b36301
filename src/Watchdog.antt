-- ===== src/Watchdog.antt =====
-- crates/hof-core/src/watchdog.rs: the process exits on purpose when an actor cannot be recovered
-- in-process, at most three times an hour.
pub mod Budget
mod Examples
use hofvarpnir.Base.{
  ℕ, ◌-◌, min, Bool, true, false, not, ◌||◌, Option, none, some, List, [], ◌∷◌, ltb, leb,
  if◌then◌else◌, length, count_if, u32_max,
}
use hofvarpnir.Clock.{Calendar, mins, hours}
use hofvarpnir.Drain.{DrainToken, begin}

abbrev pub min_uptime_before_exit : ℕ
min_uptime_before_exit = mins 10

abbrev pub max_self_exits_per_hour : ℕ
max_self_exits_per_hour = 3

abbrev pub max_watchdog_drain : ℕ
max_watchdog_drain = mins 1

pub data WatchdogDecision : Type 0 where
  fine stay_degraded exit : WatchdogDecision

unfoldable pub evaluate : ℕ → Option ℕ → Bool → WatchdogDecision
evaluate uptime recent_self_exits any_unrecoverable =
    if not any_unrecoverable
    then fine
    else if ltb uptime min_uptime_before_exit
    then stay_degraded
    else elim recent_self_exits [
      | none ↦ stay_degraded
      | some count ↦ if ltb count max_self_exits_per_hour then exit else stay_degraded
    ]

-- `count_activity_events_since` of crates/hof-core/src/db/activity.rs, on the times of the
-- `SelfRestart` events.
unfoldable count_activity_events_since : List ℕ → ℕ → ℕ
count_activity_events_since events since = count_if (λ created_at. leb since created_at) events

-- `readable` says whether the database answers the query.
unfoldable self_exit_budget : List ℕ → Bool → ℕ → Option ℕ
unfolding count_activity_events_since
self_exit_budget events readable now =
    if readable
    then some (min (count_activity_events_since events (now - hours 1)) u32_max)
    else none

pub record ActorHealthReport : Type 0 where
  pub unrecoverable : Bool

pub any_unrecoverable : List ActorHealthReport → Bool
any_unrecoverable [] = false
any_unrecoverable (report ∷ reports) = report.unrecoverable || any_unrecoverable reports

-- What outlives the process, and what the watchdog writes: the `SelfRestart` events, newest
-- first, the liveness flag, the drain token, and whether the process has been told to exit.
pub record Process : Type 0 where
  pub events : List ℕ
  pub alive : Bool
  pub drain : DrainToken
  pub exited : Bool

-- What one round finds: its time, the process's uptime, the reply of the root supervisor (`none`
-- if it could not be asked), the operator's drain timeout, and whether the database answers the
-- read of the budget and the write of the event.
pub record Round : Type 0 where
  pub now : ℕ
  pub uptime : ℕ
  pub reports : Option (List ActorHealthReport)
  pub operator_timeout : ℕ
  pub readable : Bool
  pub writable : Bool

-- `log_activity` swallows a failed write.
self_exit : Calendar → Process → Round → Process
self_exit c p r = record p {
  events = if r.writable then r.now ∷ p.events else p.events;
  drain = begin c p.drain r.now (min r.operator_timeout max_watchdog_drain);
  exited = true;
}

act : Calendar → Process → Round → WatchdogDecision → Process
unfolding self_exit
act c p r fine = p
act c p r stay_degraded = p
act c p r exit = self_exit c p r

-- The body of the loop of `spawn`. The budget is read only if an actor is unrecoverable.
unfoldable pub cycle : Calendar → Process → Round → Process
unfolding act evaluate self_exit_budget any_unrecoverable
cycle c p r = elim r.reports [
  | none ↦ p
  | some reports ↦
      let bad = any_unrecoverable reports in
      let budget = if bad then self_exit_budget p.events r.readable r.now else none in
      act c (record p { alive = not bad }) r (evaluate r.uptime budget bad)
]
