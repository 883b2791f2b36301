-- ===== src/Drain.antt =====
-- The drain that ends the process: `DrainToken` of crates/hof-core/src/runtime_config.rs and the
-- drain watcher of crates/hof-core/src/startup.rs.
pub mod Frozen
pub mod Watcher
mod Examples
use hofvarpnir.Base.{
  ℕ, zero, suc, ◌+◌, ◌*◌, ◌-◌, ◌≤◌, ◌<◌, min, ◌≡◌, Bool, true, false, ◌&&◌, Option, none, some, leb,
  ◌==◌, if◌then◌else◌, is_some,
}
use mathlib.Core.Option
use hofvarpnir.Clock.{Calendar, from_secs}
use hofvarpnir.Settings.{sleep_duration_until}

pub record DrainStart : Type 0 where
  pub started_at : ℕ
  pub deadline : ℕ

-- The last values of the token's two `watch` channels.
pub record DrainToken : Type 0 where
  pub started : Option DrainStart
  pub complete : Bool

abbrev pub fresh : DrainToken
fresh = record { started = none; complete = false }

drain_deadline : Calendar → ℕ → ℕ → ℕ
drain_deadline c now timeout = elim (c.from_std timeout) [
  | none ↦ now
  | some delta ↦ elim (c.checked_add_signed now delta) [ none ↦ now | some t ↦ t ]
]

-- `send_if_modified` of `begin`: a start that is there is kept.
unfoldable pub begin : Calendar → DrainToken → ℕ → ℕ → DrainToken
unfolding drain_deadline
begin c token now timeout = elim token.started [
  | some start ↦ token
  | none ↦ record token {
    started = some (record { started_at = now; deadline = drain_deadline c now timeout });
  }
]

unfoldable pub started_at : DrainToken → Option ℕ
started_at token = Option.map (λ (start : DrainStart). start.started_at) token.started

unfoldable pub is_draining : DrainToken → Bool
unfolding started_at
is_draining token = is_some (started_at token)

unfoldable pub deadline : DrainToken → Option ℕ
deadline token = Option.map (λ (start : DrainStart). start.deadline) token.started

unfoldable pub signal_complete : DrainToken → DrainToken
signal_complete token = record token { complete = true }

abbrev pub drain_poll_interval : ℕ
drain_poll_interval = 500_000_000

pub record QuiescenceCounts : Type 0 where
  pub active_downloads : ℕ
  pub dispatching : ℕ
  pub active_indexers : ℕ

unfoldable pub is_quiescent : QuiescenceCounts → Bool
is_quiescent q = q.active_downloads == 0 && q.dispatching == 0 && q.active_indexers == 0

-- How long a round sleeps.
abbrev pub poll_wait : ℕ → ℕ → ℕ
poll_wait deadline now = min (deadline - now) drain_poll_interval

-- The loop of `poll_until_quiescent` from round k on. `probe k` is what the probe of round k
-- reports and `clock k` the time that the round reads; `none` means that the fuel ran out. The
-- result is the token and the last round.
unfoldable pub poll_until_quiescent :
    ℕ → (ℕ → QuiescenceCounts) → (ℕ → ℕ) → ℕ → DrainToken → ℕ → Option (DrainToken × ℕ)
unfolding is_quiescent signal_complete
poll_until_quiescent zero probe clock k token deadline = none
poll_until_quiescent (suc fuel) probe clock k token deadline =
    let next_round = poll_until_quiescent fuel probe clock (suc k) token deadline in
    if is_quiescent (probe k)
    then some (signal_complete token, k)
    else if leb deadline (clock k)
    then some (signal_complete token, k)
    else next_round
