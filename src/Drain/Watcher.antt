-- ===== src/Drain/Watcher.antt =====
-- The drain watcher ends every drain (startup.rs).
use hofvarpnir.Base.{
  ℕ, zero, suc, ◌+◌, ◌*◌, ◌-◌, ◌≤◌, ◌≡◌, ◌⊎◌, inl, inr, true, Option, some, leb, Bool-cases, arith,
}
use hofvarpnir.Drain.{
  DrainToken, QuiescenceCounts, is_quiescent, poll_wait, drain_poll_interval, poll_until_quiescent,
  signal_complete,
}

module _ (probe : ℕ → QuiescenceCounts) (clock : ℕ → ℕ) (token : DrainToken) (deadline : ℕ) where
  -- The loop stopped in round j, after round k, for a reason, and signalled completion.
  abbrev pub Ended : ℕ → Option (DrainToken × ℕ) → Type 0
  Ended k result =
      (j : ℕ) × (k ≤ j)
      × (result ≡ some (record token { complete = true }, j))
      × ((is_quiescent (probe j) ≡ true) ⊎ (deadline ≤ clock j))

  -- The clock has gone on by the sleep of each round at least.
  abbrev Sleeps : Type 0
  Sleeps = (k : ℕ) → clock k + poll_wait deadline (clock k) ≤ clock (suc k)

  -- The drain watcher ends if each round sleeps as long as it means to: the fuel that half
  -- seconds fill up to the deadline is enough, whatever the probes report, and it ends in a
  -- round that is quiescent or not before the deadline, with completion signalled.
  pub poll_until_quiescent-Ended :
      (sleeps : Sleeps) (fuel k : ℕ)
      → deadline - clock k ≤ fuel * drain_poll_interval
      → Ended k (poll_until_quiescent (suc fuel) probe clock k token deadline)
  unfolding poll_until_quiescent signal_complete
  poll_until_quiescent-Ended sleeps zero k enough = elim (Bool-cases (is_quiescent (probe k))) [
    | inl quiet ↦ (k, omega arith, ground arith, inl quiet)
    | inr busy ↦ (k, omega arith, ground arith, inr (ground arith))
  ]
  poll_until_quiescent-Ended sleeps (suc fuel) k enough =
      elim (Bool-cases (is_quiescent (probe k))) [
        | inl quiet ↦ (k, omega arith, ground arith, inl quiet)
        | inr busy ↦ elim (Bool-cases (leb deadline (clock k))) [
          | inl late ↦ (k, omega arith, ground arith, inr (ground arith))
          | inr early ↦
              let left : deadline - clock (suc k) ≤ fuel * drain_poll_interval =
                ground (arith, sleeps k) in
              let (j, after, ends, why) = poll_until_quiescent-Ended sleeps fuel (suc k) left in
              (j, omega arith, rw (busy, early) ends, why)
        ]
      ]
