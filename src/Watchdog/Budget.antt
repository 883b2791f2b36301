-- ===== src/Watchdog/Budget.antt =====
-- The exit budget holds over every hour of every history (watchdog.rs).
use hofvarpnir.Base.{
  ℕ, ◌+◌, ◌-◌, ◌≤◌, ◌<◌, ◌≡◌, ◌≢◌, ◌⊎◌, inl, inr, Bool, true, false, ◌&&◌, none, some, List, [],
  ◌∷◌, leb, count_if, Bool-cases, Option-cases, arith, min, ◌∙◌,
}
use hofvarpnir.Clock.{Calendar, hours}
use hofvarpnir.Drain.{deadline, begin}
use hofvarpnir.Drain.Frozen.{begin-started, begin-deadline}
use hofvarpnir.Watchdog.{
  Process, Round, cycle, ActorHealthReport, any_unrecoverable, max_self_exits_per_hour,
  min_uptime_before_exit, max_watchdog_drain,
}

abbrev in_hour_from : ℕ → ℕ → Bool
in_hour_from t e = leb t e && leb e (t + hours 1)

-- The self-exits in the hour that begins at t, both ends included.
abbrev exits_in_hour : ℕ → List ℕ → ℕ
exits_in_hour t events = count_if (in_hour_from t) events

-- No hour has more self-exits than the budget allows.
abbrev pub WithinBudget : List ℕ → Type 0
WithinBudget events = (t : ℕ) → exits_in_hour t events ≤ max_self_exits_per_hour

exits_in_hour-le :
    (t now : ℕ) (events : List ℕ)
    → now ≤ t + hours 1
    → exits_in_hour t events ≤ count_if (λ e. leb (now - hours 1) e) events
exits_in_hour-le t now [] h = omega arith
exits_in_hour-le t now (e ∷ es) h = ground (arith, exits_in_hour-le t now es h)

-- What a round does to the log: nothing, or one event, which is then within the budget.
cycle-events :
    (c : Calendar) (p : Process) (r : Round)
    → r.writable ≡ true
    → ((cycle c p r).events ≡ p.events)
      ⊎ (((cycle c p r).events ≡ r.now ∷ p.events)
          × (count_if (λ e. leb (r.now - hours 1) e) p.events < max_self_exits_per_hour))
unfolding cycle
cycle-events c p r w = ground arith

-- The log over a history of rounds, in this process and the ones that the container starts after
-- it: each round finds the log as the one before it left it, and its write succeeds.
pub data History (c : Calendar) : List ℕ → Type 0 where
  start : History c []
  next :
      {events events' : List ℕ}
      → History c events
      → (p : Process) (r : Round) → p.events ≡ events
      → r.writable ≡ true
      → events' ≡ (cycle c p r).events
      → History c events'

add_exit :
    (now : ℕ) (events : List ℕ)
    → WithinBudget events
    → count_if (λ e. leb (now - hours 1) e) events < max_self_exits_per_hour
    → WithinBudget (now ∷ events)
add_exit now events within few t = elim (Bool-cases (in_hour_from t now)) [
  | inl inside ↦ ground (arith, exits_in_hour-le t now events)
  | inr outside ↦ ground (arith, within t)
]

-- Over every such history, whatever the times and the reports of its rounds, no hour (from any
-- instant t, both ends included) has more than three self-exits.
pub History-WithinBudget : (c : Calendar) (events : List ℕ) → History c events → WithinBudget events
History-WithinBudget c events start = λ t. omega arith
History-WithinBudget c events (next h p r e w e') = elim (cycle-events c p r w) [
  | inl same ↦ rw (e', same, e) (History-WithinBudget c _ h)
  | inr (more, few) ↦ rw (e', more, e) (add_exit r.now _ (History-WithinBudget c _ h) (rw e at few))
]

-- An exit needs all of these: a reply that names an unrecoverable actor, ten minutes of uptime, a
-- database that answers, and fewer than three self-exits in the hour before.
pub cycle-exited :
    (c : Calendar) (p : Process) (r : Round)
    → p.exited ≡ false
    → (cycle c p r).exited ≡ true
    → (reports : List ActorHealthReport) × (r.reports ≡ some reports)
      × (any_unrecoverable reports ≡ true)
      × (min_uptime_before_exit ≤ r.uptime)
      × (r.readable ≡ true)
      × (count_if (λ e. leb (r.now - hours 1) e) p.events < max_self_exits_per_hour)
unfolding cycle
cycle-exited c p r running ends = elim (Option-cases r.reports) [
  | inl silent ↦ absurd (ground arith)
  | inr (reports, reply) ↦ (reports, reply, ground arith, ground arith, ground arith, ground arith)
]

exit_drain :
    (c : Calendar) (p : Process) (r : Round)
    → p.exited ≡ false
    → (cycle c p r).exited ≡ true
    → (cycle c p r).drain ≡ begin c p.drain r.now (min r.operator_timeout max_watchdog_drain)
unfolding cycle
exit_drain c p r running ends = ground arith

-- The drain before an exit ends within a minute, if none had begun; one that had begun keeps its
-- deadline.
pub cycle-drain :
    (c : Calendar) (p : Process) (r : Round)
    → p.exited ≡ false
    → (cycle c p r).exited ≡ true
    → ((p.drain.started ≡ none)
        × ((d : ℕ) × (deadline (cycle c p r).drain ≡ some d) × (d ≤ r.now + max_watchdog_drain)))
      ⊎ ((p.drain.started ≢ none) × ((cycle c p r).drain ≡ p.drain))
cycle-drain c p r running ends =
    let same = exit_drain c p r running ends in
    let limit = min r.operator_timeout max_watchdog_drain in
    elim (Option-cases p.drain.started) [
      | inl idle ↦
          let (d, e, _, le) = begin-deadline c p.drain r.now limit idle in
          inl (idle, (d, rw same e, omega arith))
      | inr (begun, e) ↦ inr ((λ idle. cc), same ∙ begin-started c p.drain begun r.now limit e)
    ]
