-- ===== src/Gate/Decision.antt =====
-- What `evaluate` decides, and how long a video can be held (quality_gate.rs).
use hofvarpnir.Base.{
  ℕ, ◌+◌, ◌≤◌, ◌<◌, ◌≡◌, refl, ◌↔◌, ◌⊎◌, inl, inr, Option, none, some, ℤ, ◌≤ℤ◌, arith, leb, leb_ℤ,
  Bool-cases, Option-cases,
}
use hofvarpnir.Clock.{Calendar}
use hofvarpnir.Gate.{QualityGate, download, wait, evaluate, recheck_interval}

module _ (c : Calendar) (gate : QualityGate) where
  open gate use {target_height, deadline, source_best_height}

  -- The reasons for which a video need not wait any longer.
  abbrev pub IsReady : Option ℤ → ℕ → Type 0
  IsReady available now =
      (deadline ≤ now)
      ⊎ ((h : ℤ) × (available ≡ some h)
          × ((target_height ≤ℤ h) ⊎ ((b : ℤ) × (source_best_height ≡ some b) × (b ≤ℤ h))))

  pub IsReady-download :
      (available : Option ℤ) (now : ℕ)
      → IsReady available now
      → evaluate c gate available now ≡ download
  unfolding evaluate
  IsReady-download available now (inl h) = ground arith
  IsReady-download available now (inr (h, e, inl t)) = ground arith
  IsReady-download available now (inr (h, e, inr (b, s, t))) = ground arith

  pub download-IsReady :
      (available : Option ℤ) (now : ℕ)
      → evaluate c gate available now ≡ download
      → IsReady available now
  unfolding evaluate
  download-IsReady none now e = inl (ground arith)
  download-IsReady (some h) now e = elim (Bool-cases (leb deadline now)) [
    | inl late ↦ inl (ground arith)
    | inr early ↦ elim (Bool-cases (leb_ℤ target_height h)) [
      | inl enough ↦ inr (h, refl, inl (ground arith))
      | inr short ↦ elim (Option-cases source_best_height) [
        | inl unknown ↦ absurd (ground arith)
        | inr (b, known) ↦ inr (h, refl, inr (b, known, ground arith))
      ]
    ]
  ]

  -- The gate downloads exactly when the deadline has come, the target is met, or what is on offer
  -- is at least the best that the source ever delivered.
  pub download-iff-IsReady :
      (available : Option ℤ) (now : ℕ)
      → (evaluate c gate available now ≡ download) ↔ IsReady available now
  download-iff-IsReady available now =
      (download-IsReady available now, IsReady-download available now)

  -- A held video is held before the deadline, and its recheck is strictly later than now, at the
  -- deadline or one interval from now, whichever is first.
  pub wait-recheck :
      (available : Option ℤ) (now r : ℕ)
      → evaluate c gate available now ≡ wait r
      → (now < deadline)
        × (now < r)
        × (r ≤ deadline)
        × ((r ≡ deadline) ⊎ (r ≡ now + recheck_interval))
  unfolding evaluate
  wait-recheck available now r e = elim (Option-cases (c.checked_add_signed now recheck_interval)) [
    | inl past ↦
        let at : r ≡ deadline = ground arith in (ground arith, ground arith, ground arith, inl at)
    | inr (t, there) ↦
        let t_eq : t ≡ now + recheck_interval =
          ground
            (arith, c.add_in_range now recheck_interval, c.add_past_range now recheck_interval) in
        (ground arith, ground arith, ground arith, ground arith)
  ]
