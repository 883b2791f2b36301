-- ===== src/Supervisor/Invariant.antt =====
-- What holds of the supervisor between any two messages (download_supervisor.rs).
use Prim.Native.String.{String}
use hofvarpnir.Base.{
  ℕ, ◌-◌, ◌≤◌, ◌≡◌, ◌≢◌, refl, ◌⊎◌, inl, inr, none, ltb, u32_max, arith, Bool-cases, ltb→lt,
}
use hofvarpnir.Clock.{Calendar}
use hofvarpnir.Settings.{EffectiveSettings}
use hofvarpnir.Semaphore.{SemaphoreApi}
use hofvarpnir.Semaphore.Totals.{total, total-free_many}
use hofvarpnir.Supervisor.State.{Supervisor, Runtime, Env}
use hofvarpnir.Supervisor.Backoff.{raised_multiplier, max_rate_limit_multiplier}
use hofvarpnir.Supervisor.Dispatch.{resize_semaphore}
use hofvarpnir.Supervisor.Failure.{note_db_failure, note_db_recovered, raise_multiplier}
use hofvarpnir.Supervisor.Handlers.{on_start}
use hofvarpnir.Supervisor.Messages.{Message, handle}
use hofvarpnir.Supervisor.Kept.{Keeps, handle-keeps}

module _ (api : SemaphoreApi) where
  -- The multiplier is in its range, the semaphore holds as many permits as the supervisor counts,
  -- and either the database was last seen healthy, with no deadline and no error, or there are
  -- failures counted and an error to show.
  pub record IsValid (sup : Supervisor api) : Type 0 where
    pub slowed :
        (1 ≤ sup.rate_limit_backoff_multiplier)
        × (sup.rate_limit_backoff_multiplier ≤ max_rate_limit_multiplier)
    pub counted : sup.permits_total ≡ total (api.permits sup.semaphore)
    pub outage :
        ((sup.db_failures ≡ 0) × (sup.db_retry_after ≡ none) × (sup.last_db_error ≡ none))
        ⊎ ((1 ≤ sup.db_failures) × (sup.db_failures ≤ u32_max) × (sup.last_db_error ≢ none))

  resize_semaphore-counted :
      (n : ℕ) (sup : Supervisor api)
      → sup.permits_total ≡ total (api.permits sup.semaphore)
      → (resize_semaphore api n sup).permits_total
        ≡ total (api.permits (resize_semaphore api n sup).semaphore)
  unfolding resize_semaphore
  resize_semaphore-counted n sup h = elim (Bool-cases (ltb sup.permits_total n)) [
    | inl grows ↦
        rw (grows, api.permits-add)
          (omega (
            arith,
            h,
            ltb→lt _ _ grows,
            total-free_many (n - sup.permits_total) (api.permits sup.semaphore),
          ))
    | inr stays ↦ elim (Bool-cases (ltb n sup.permits_total)) [
      | inl shrinks ↦ rw (stays, shrinks, api.permits-forget, api.forget-count) (omega (arith, h))
      | inr same ↦ rw (stays, same) h
    ]
  ]

  -- A resize keeps all else.
  resize_semaphore-IsValid :
      (n : ℕ) (sup : Supervisor api) → IsValid sup → IsValid (resize_semaphore api n sup)
  unfolding resize_semaphore
  resize_semaphore-IsValid n sup v = record {
    slowed = ground arith;
    counted = resize_semaphore-counted n sup v.counted;
    outage = ground arith;
  }

module _ (c : Calendar) (api : SemaphoreApi) where
  note_db_failure-IsValid :
      (env : Env) (e : String) (sup : Supervisor api)
      → IsValid api sup
      → IsValid api (note_db_failure c api env e sup)
  unfolding note_db_failure
  note_db_failure-IsValid env e sup v = record {
    slowed = v.slowed;
    counted = v.counted;
    outage = inr (omega arith, omega arith, λ none_shown. ground arith);
  }

  note_db_recovered-IsValid :
      (sup : Supervisor api) → IsValid api sup → IsValid api (note_db_recovered c api sup)
  unfolding note_db_recovered
  note_db_recovered-IsValid sup v = record {
    slowed = v.slowed;
    counted = v.counted;
    outage = inl (refl, refl, refl);
  }

  raise_multiplier-IsValid :
      (sup : Supervisor api) → IsValid api sup → IsValid api (raise_multiplier c api sup)
  unfolding raise_multiplier raised_multiplier
  raise_multiplier-IsValid sup v = record {
    slowed = ground arith;
    counted = v.counted;
    outage = v.outage;
  }

  kept : Keeps c api (IsValid api)
  kept = record {
    noted = note_db_failure-IsValid;
    recovered = note_db_recovered-IsValid;
    raised = raise_multiplier-IsValid;
    reset = λ sup v. record { slowed = omega arith; counted = v.counted; outage = v.outage };
    resized = resize_semaphore-IsValid api;
    registered =
        λ a d l sup v. record { slowed = v.slowed; counted = v.counted; outage = v.outage };
  }

  -- Every message keeps these three together: the rate limit multiplier is from 1 to 60, the
  -- supervisor counts as many permits as its semaphore has, free and held, and its record of the
  -- database is either all clear or has a failure counted and an error to show.
  pub handle-IsValid :
      (env : Env) (m : Message) (s : Runtime api)
      → IsValid api s.sup
      → IsValid api (handle c api env m s).sup
  handle-IsValid env m s v = handle-keeps c api (IsValid api) kept env m s v

  on_start-IsValid :
      (settings : EffectiveSettings) (wait_hours attempts : ℕ)
      → IsValid api (on_start c api settings wait_hours attempts)
  unfolding on_start
  on_start-IsValid settings wait_hours attempts = record {
    slowed = omega arith;
    counted = rw (api.permits-create) (omega arith);
    outage = inl (refl, refl, refl);
  }
