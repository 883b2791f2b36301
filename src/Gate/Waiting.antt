-- ===== src/Gate/Waiting.antt =====
-- How long the quality gate can hold a video, over all its rechecks (quality_gate.rs).
use hofvarpnir.Base.{
  ℕ, ◌+◌, ◌*◌, ◌≤◌, ◌<◌, ◌≡◌, refl, inl, inr, Option, some, ℤ, ◌≤ℤ◌, List, [], ◌∷◌, arith, length,
  get_or,
}
use hofvarpnir.Clock.{Calendar, hours}
use hofvarpnir.Gate.{QualityGate, download, wait, evaluate, Quality, new, recheck_interval}
use hofvarpnir.Gate.Decision.{IsReady, IsReady-download, download-IsReady, wait-recheck}

-- A check of the formats: when it ran, and the height on offer then.
abbrev Check : Type 0
Check = ℕ × Option ℤ

abbrev StartsAfter : ℕ → List Check → Type 0
StartsAfter r [] = Unit {0}
StartsAfter r ((t, h) ∷ rest) = r ≤ t

-- Checks that all hold the video, each at or after the recheck time that the one before it set.
abbrev pub Held : Calendar → QualityGate → List Check → Type 0
Held c gate [] = Unit {0}
Held c gate ((t, h) ∷ rest) =
    (r : ℕ) × (evaluate c gate h t ≡ wait r) × StartsAfter r rest × Held c gate rest

module _ (c : Calendar) (gate : QualityGate) where
  -- A check that holds the video, with k holding checks after it, came k intervals before the
  -- deadline at least.
  Held-before_deadline :
      (t : ℕ) (h : Option ℤ) (rest : List Check)
      → Held c gate ((t, h) ∷ rest)
      → t + length rest * recheck_interval < gate.deadline
  Held-before_deadline t h [] (r, e, _, _) = omega (arith, wait-recheck c gate h t r e)
  Held-before_deadline t h ((t', h') ∷ rest) (r, e, later, held) =
      omega (arith, wait-recheck c gate h t r e, Held-before_deadline t' h' rest held)

  -- Once the gate lets a video through, it does so at any later time, for any greater height.
  download_mono :
      (h h' : ℤ) (now now' : ℕ)
      → h ≤ℤ h'
      → now ≤ now'
      → evaluate c gate (some h) now ≡ download
      → evaluate c gate (some h') now' ≡ download
  download_mono h h' now now' taller later e =
      IsReady-download c gate (some h') now' (grow (download-IsReady c gate (some h) now e))
    where
      grow : IsReady c gate (some h) now → IsReady c gate (some h') now'
      grow (inl late) = inl (omega arith)
      grow (inr (k, same, inl enough)) = inr (h', refl, inl (ground arith))
      grow (inr (k, same, inr (b, best, reached))) = inr (h', refl, inr (b, best, ground arith))

-- The deadline is never past the start plus the wait: out of range, it is the last instant.
new-deadline-le :
    (c : Calendar) (quality : Quality) (w : ℕ) (published_at : Option ℕ) (first_seen : ℕ)
    (best : Option ℤ) (gate : QualityGate)
    → new c quality w published_at first_seen best ≡ some gate
    → gate.deadline ≤ get_or published_at first_seen + hours w
unfolding new
new-deadline-le c quality w published_at first_seen best gate built =
    let start = get_or published_at first_seen in
    ground (arith, c.add_in_range start (hours w), c.add_past_range start (hours w))

-- Whatever heights are on offer, a video whose checks start at its publication (or first sighting)
-- or later is held by six hours times the checks but one less than the w hours of its wait.
pub Held-bounded :
    (c : Calendar) (quality : Quality) (w : ℕ) (published_at : Option ℕ) (first_seen : ℕ)
    (best : Option ℤ) (gate : QualityGate) (t : ℕ) (h : Option ℤ) (rest : List Check)
    → new c quality w published_at first_seen best ≡ some gate
    → get_or published_at first_seen ≤ t
    → Held c gate ((t, h) ∷ rest)
    → 6 * length rest < w
Held-bounded c quality w published_at first_seen best gate t h rest built started held = omega (
  arith,
  Held-before_deadline c gate t h rest held,
  new-deadline-le c quality w published_at first_seen best gate built,
)
