-- ===== src/Gate/Examples.antt =====
-- Examples of the quality gate.
use hofvarpnir.Base.{ℕ, ◌*◌, ◌<◌, refl, Option, none, some, ℤ, pos, [], ◌∷◌, length, arith}
use hofvarpnir.Clock.{hours}
use hofvarpnir.Samples.{calendar}
use hofvarpnir.Gate.{QualityGate, q1080p, new, evaluate}
use hofvarpnir.Gate.Waiting.{Held, Held-bounded}

-- A source that has delivered 1080 lines before, and a video of hour 10.
abbrev gate : QualityGate
gate = record {
  target_height = pos 1080;
  deadline = hours 34;
  source_best_height = some (pos 1080);
}

-- The video is held at hours 10 and 16.
abbrev held_twice : Held calendar gate ((hours 10, some (pos 720)) ∷ (hours 16, none) ∷ [])
unfolding evaluate
held_twice = (hours 16, refl, omega arith, (hours 22, refl, tt, tt))

Held-bounded_example : 6 * length {A = ℕ × Option ℤ} ((hours 16, none) ∷ []) < 24
unfolding new evaluate
Held-bounded_example =
    Held-bounded calendar q1080p 24 (some (hours 10)) (hours 12) (some (pos 1080)) gate (hours 10)
      (some (pos 720)) ((hours 16, none) ∷ []) refl (omega arith)
      (hours 16, refl, omega arith, (hours 22, refl, tt, tt))
