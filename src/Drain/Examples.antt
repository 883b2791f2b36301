-- ===== src/Drain/Examples.antt =====
-- Examples of the drain.
use hofvarpnir.Base.{ℕ, ◌+◌, ◌*◌, ◌≤◌, arith}
use hofvarpnir.Clock.{from_secs}
use hofvarpnir.Drain.{QuiescenceCounts, fresh, poll_until_quiescent, drain_poll_interval, poll_wait}
use hofvarpnir.Drain.Watcher.{Ended, poll_until_quiescent-Ended}

-- Downloads that never end, and a clock of half seconds.
abbrev busy : ℕ → QuiescenceCounts
busy k = record { active_downloads = 1; dispatching = 0; active_indexers = 0 }

abbrev half_seconds : ℕ → ℕ
half_seconds k = k * drain_poll_interval

half_seconds-Sleeps :
    (k : ℕ) → half_seconds k + poll_wait (from_secs 2) (half_seconds k) ≤ half_seconds (ℕ.suc k)
half_seconds-Sleeps k = omega arith

poll_until_quiescent-Ended_example :
    Ended busy half_seconds fresh
      (from_secs 2)
      0
      (poll_until_quiescent 5 busy half_seconds 0 fresh (from_secs 2))
poll_until_quiescent-Ended_example =
    poll_until_quiescent-Ended busy half_seconds fresh (from_secs 2) half_seconds-Sleeps 4 0
      (omega arith)
