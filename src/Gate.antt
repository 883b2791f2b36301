-- ===== src/Gate.antt =====
-- crates/hof-core/src/quality_gate.rs: hold a fresh video until the height its profile asks for
-- is on offer, up to a deadline.
pub mod Decision
pub mod Waiting
mod Examples
use hofvarpnir.Base.{
  ℕ, ◌+◌, ◌*◌, ◌≤◌, ◌<◌, min, ◌≡◌, Bool, true, false, ◌&&◌, ◌||◌, Option, none, some, ℤ, pos, leb,
  leb_ℤ, ◌==◌, if◌then◌else◌, get_or, is_some_and, unsigned_try_from,
}
use hofvarpnir.Clock.{Calendar, hours}

-- crates/hof-core/src/domain/profile.rs
pub data Quality : Type 0 where
  best q4320p q2160p q1440p q1080p q720p q480p audio_only : Quality

abbrev default_quality_wait_hours : ℕ
default_quality_wait_hours = 24

abbrev pub recheck_interval : ℕ
recheck_interval = hours 6

unfoldable effective_wait_hours : Option ℤ → ℕ → ℕ
effective_wait_hours none global = global
effective_wait_hours (some h) global = get_or (unsigned_try_from h) global

unfoldable pub requested_height : Quality → Option ℤ
requested_height q4320p = some (pos 4320)
requested_height q2160p = some (pos 2160)
requested_height q1440p = some (pos 1440)
requested_height q1080p = some (pos 1080)
requested_height q720p = some (pos 720)
requested_height q480p = some (pos 480)
requested_height best = none
requested_height audio_only = none

pub record QualityGate : Type 0 where
  pub target_height : ℤ
  pub deadline : ℕ
  pub source_best_height : Option ℤ

pub data GateDecision : Type 0 where
  download : GateDecision
  wait : ℕ → GateDecision

-- The parts of `QualityGate::new` behind its two early returns.
gate_of : Calendar → ℤ → ℕ → Option ℕ → ℕ → Option ℤ → QualityGate
gate_of c target wait_hours published_at first_seen source_best = record {
  target_height = target;
  deadline =
      get_or (c.checked_add_signed (get_or published_at first_seen) (hours wait_hours)) c.max_utc;
  source_best_height = source_best;
}

unfoldable pub new : Calendar → Quality → ℕ → Option ℕ → ℕ → Option ℤ → Option QualityGate
unfolding gate_of requested_height
new c quality wait_hours published_at first_seen source_best =
    if wait_hours == 0 then none else elim (requested_height quality) [
      | none ↦ none
      | some target ↦ some (gate_of c target wait_hours published_at first_seen source_best)
    ]

-- The source never delivered more than is on offer now.
at_ceiling : Option ℤ → Option ℤ → Bool
at_ceiling (some best_height) (some available) = leb_ℤ best_height available
at_ceiling (some best_height) none = false
at_ceiling none available = false

unfoldable pub evaluate : Calendar → QualityGate → Option ℤ → ℕ → GateDecision
unfolding at_ceiling
evaluate c gate available_height now =
    if is_some_and available_height (leb_ℤ gate.target_height) || leb gate.deadline now
    then download
    else if at_ceiling gate.source_best_height available_height
    then download
    else wait (elim (c.checked_add_signed now recheck_interval) [
      | none ↦ gate.deadline
      | some t ↦ min t gate.deadline
    ])
