-- ===== src/Supervisor/Resize.antt =====
-- How far a resize of the semaphore gets (download_supervisor.rs, `resize_semaphore`).
use hofvarpnir.Base.{
  ℕ, ◌≤◌, ◌<◌, max, ◌≡◌, ap, inl, inr, false, List, ◌∷◌, length, ltb, ltb→lt, lt→ltb, Bool-cases,
  arith,
}
use hofvarpnir.Semaphore.{SemaphoreApi, Permits}
use hofvarpnir.Semaphore.Totals.{total, IsFair}
use hofvarpnir.Supervisor.State.{Supervisor}
use hofvarpnir.Supervisor.Dispatch.{resize_semaphore}

ltb-false : (a b : ℕ) → ltb a b ≡ false → b ≤ a
ltb-false a b h = ground arith

ltb-asym : (a b : ℕ) → a < b → ltb b a ≡ false
ltb-asym a b h = ground arith

fair_waiters :
    (p : Permits) (waiter : ℕ) (waiters : List ℕ)
    → IsFair p
    → p.waiters ≡ waiter ∷ waiters
    → p.available ≡ 0
fair_waiters p waiter waiters (inl empty) waits = empty
fair_waiters p waiter waiters (inr idle) waits = ground (arith, idle, waits)

module _ (api : SemaphoreApi) (target : ℕ) (sup : Supervisor api) where
  -- If the supervisor counts its semaphore's permits, a resize brings them to the target, or as
  -- far down as the permits that are held.
  pub resize_semaphore-max :
      sup.permits_total ≡ total (api.permits sup.semaphore)
      → (resize_semaphore api target sup).permits_total
        ≡ max target (length (api.permits sup.semaphore).holders)
  unfolding resize_semaphore
  resize_semaphore-max counted = elim (Bool-cases (ltb sup.permits_total target)) [
    | inl grows ↦ rw grows (omega (arith, counted, ltb→lt _ _ grows))
    | inr stays ↦ elim (Bool-cases (ltb target sup.permits_total)) [
      | inl shrinks ↦
          rw (stays, shrinks, api.forget-count) (omega (arith, counted, ltb→lt _ _ shrinks))
      | inr same ↦
          rw (stays, same) (omega (arith, counted, ltb-false _ _ stays, ltb-false _ _ same))
    ]
  ]

  -- While a task waits for a permit, a resize to a lower target changes nothing: no permit is
  -- free to be taken away, since a permit that is dropped goes to the task that waits.
  pub resize_semaphore-starved :
      (waiter : ℕ) (waiters : List ℕ)
      → IsFair (api.permits sup.semaphore)
      → (api.permits sup.semaphore).waiters ≡ waiter ∷ waiters
      → target < sup.permits_total
      → ((resize_semaphore api target sup).permits_total ≡ sup.permits_total)
        × (api.permits (resize_semaphore api target sup).semaphore ≡ api.permits sup.semaphore)
  unfolding resize_semaphore
  resize_semaphore-starved waiter waiters fair waits lower =
      let empty = fair_waiters (api.permits sup.semaphore) waiter waiters fair waits in
      rw
        (
          lt→ltb target sup.permits_total lower,
          ltb-asym target sup.permits_total lower,
          api.forget-count,
          api.permits-forget,
        )
        (
          omega (arith, empty),
          ap (λ a. record (api.permits sup.semaphore) { available = a }) (omega (arith, empty)),
        )
