-- ===== src/Settings/Pauses.antt =====
-- When the pause flags change, and when the settings listener is woken for it (runtime_config.rs).
use hofvarpnir.Base.{ℕ, ◌≤◌, ◌<◌, ◌≡◌, ◌⊎◌, true, false, none, some, arith}
use hofvarpnir.Clock.{Calendar}
use hofvarpnir.Settings.{
  EffectiveSettings, indexing_paused, downloads_paused, next_pause_deadline, indefinite_pause,
}

module _ (c : Calendar) (s : EffectiveSettings) where
  -- Both flags read alike at two instants.
  abbrev pub SameFlags : ℕ → ℕ → Type 0
  SameFlags t u =
      (indexing_paused s t ≡ indexing_paused s u) × (downloads_paused s t ≡ downloads_paused s u)

  -- A flag that is set at the first instant is clear at the second.
  abbrev pub Lapses : ℕ → ℕ → Type 0
  Lapses t u =
      ((indexing_paused s t ≡ true) × (indexing_paused s u ≡ false))
      ⊎ ((downloads_paused s t ≡ true) × (downloads_paused s u ≡ false))

  -- The armed deadline t is in the future, a pause lapses by then, and the flags read as now at
  -- every instant u before it, if t is not past the sentinel for an indefinite pause.
  pub next_pause_deadline-exact :
      (now t u : ℕ)
      → next_pause_deadline c s now ≡ some t
      → now ≤ u
      → u < t
      → t ≤ indefinite_pause c
      → (now < t) × SameFlags now u × Lapses now t
  unfolding next_pause_deadline indexing_paused downloads_paused
  next_pause_deadline-exact now t u e from before finite =
      (ground arith, ground arith, ground arith)

  -- With no deadline armed, the flags read as now at every later instant before the sentinel.
  next_pause_deadline-none :
      (now u : ℕ)
      → next_pause_deadline c s now ≡ none
      → now ≤ u
      → u < indefinite_pause c
      → SameFlags now u
  unfolding next_pause_deadline indexing_paused downloads_paused
  next_pause_deadline-none now u e later before = ground arith
