-- ===== src/Drain/Frozen.antt =====
-- The first `begin` decides the drain's deadline (runtime_config.rs).
use hofvarpnir.Base.{ℕ, ◌+◌, ◌≤◌, ◌≡◌, refl, true, List, [], ◌∷◌, some, none, arith}
use hofvarpnir.Clock.{Calendar}
use hofvarpnir.Drain.{
  DrainToken, DrainStart, fresh, begin, deadline, started_at, is_draining, drain_deadline,
}

-- Calls of `begin` one after the other, each a time and a timeout.
unfoldable pub begin_all : Calendar → DrainToken → List (ℕ × ℕ) → DrainToken
begin_all c token [] = token
begin_all c token ((now, timeout) ∷ calls) = begin_all c (begin c token now timeout) calls

pub begin-started :
    (c : Calendar) (token : DrainToken) (start : DrainStart) (now timeout : ℕ)
    → token.started ≡ some start
    → begin c token now timeout ≡ token
unfolding begin
begin-started c token start now timeout e = ground arith

begin_all-started :
    (c : Calendar) (token : DrainToken) (start : DrainStart) (calls : List (ℕ × ℕ))
    → token.started ≡ some start
    → begin_all c token calls ≡ token
unfolding begin_all
begin_all-started c token start [] e = refl
begin_all-started c token start ((now, timeout) ∷ calls) e =
    rw (begin-started c token start now timeout e) (begin_all-started c token start calls e)

drain_deadline_bounds :
    (c : Calendar) (now timeout : ℕ)
    → (now ≤ drain_deadline c now timeout) × (drain_deadline c now timeout ≤ now + timeout)
unfolding drain_deadline
drain_deadline_bounds c now timeout = ground (
  arith,
  c.from_std_in_range timeout,
  c.from_std_past_range timeout,
  c.add_in_range now timeout,
  c.add_past_range now timeout,
)

pub begin-deadline :
    (c : Calendar) (token : DrainToken) (now timeout : ℕ)
    → token.started ≡ none
    → (d : ℕ) × (deadline (begin c token now timeout) ≡ some d) × (now ≤ d) × (d ≤ now + timeout)
unfolding begin deadline
begin-deadline c token now timeout e =
    let bounds = drain_deadline_bounds c now timeout in
    (drain_deadline c now timeout, ground arith, bounds.0, bounds.1)

-- Whatever calls follow the first `begin` of a fresh token, the drain has begun at the first
-- call's time, and its deadline is from then to the first call's timeout later.
pub begin_all-frozen :
    (c : Calendar) (now timeout : ℕ) (calls : List (ℕ × ℕ))
    → let token = begin_all c fresh ((now, timeout) ∷ calls) in
      (is_draining token ≡ true)
      × (started_at token ≡ some now)
      × (d : ℕ) × (deadline token ≡ some d)
      × (now ≤ d)
      × (d ≤ now + timeout)
unfolding begin_all begin is_draining deadline
begin_all-frozen c now timeout calls =
    let first : DrainStart = record { started_at = now; deadline = drain_deadline c now timeout } in
    let same = begin_all-started c (begin c fresh now timeout) first calls refl in
    let bounds = drain_deadline_bounds c now timeout in
    (rw same refl, rw same refl, drain_deadline c now timeout, rw same refl, bounds.0, bounds.1)
