-- ===== src/Acquire.antt =====
-- crates/hof-core/src/db/mod.rs: the classes of database errors, and the retry of a query that
-- could not get a connection.
mod Retry
mod Examples
use hofvarpnir.Base.{
  ℕ, suc, ◌-◌, Bool, true, false, not, ◌||◌, Option, none, some, List, [], ◌∷◌, leb, if◌then◌else◌,
  Result, ok, err,
}

-- The variants of `sqlx::Error` that the source names.
pub data SqlxVariant : Type 0 where
  pool_timed_out io tls configuration pool_closed other : SqlxVariant

-- Milliseconds.
abbrev acquire_timeout : ℕ
acquire_timeout = 5000

abbrev pub max_acquire_attempts : ℕ
max_acquire_attempts = 3

abbrev acquire_retry_backoff : List ℕ
acquire_retry_backoff = 100 ∷ 500 ∷ 2000 ∷ []

-- `get` and `last` of a slice.
abbrev get {ℓ} : {A : Type ℓ} → List A → ℕ → Option A
get [] n = none
get (x ∷ xs) ℕ.zero = some x
get (x ∷ xs) (suc n) = get xs n

abbrev pub last {ℓ} : {A : Type ℓ} → List A → Option A
last [] = none
last (x ∷ []) = some x
last (x ∷ y ∷ xs) = last (y ∷ xs)

-- The pause after the failed attempt.
abbrev pub retry_backoff : ℕ → ℕ
retry_backoff attempt = elim (get acquire_retry_backoff (attempt - 1)) [
  | some millis ↦ millis
  | none ↦ elim (last acquire_retry_backoff) [ some millis ↦ millis | none ↦ acquire_timeout ]
]

module _ (E : Type 0) (variant : E → SqlxVariant) where
  pub data PoolError : Type 0 where
    missing_database_url : PoolError
    pool_timeout : (waited : ℕ) → PoolError
    connection_error : E → PoolError
    query_error : E → PoolError
    migration_error : PoolError
    invalid_ulid : PoolError
    entity_not_found : PoolError

  unfoldable pub is_transient_acquire : PoolError → Bool
  is_transient_acquire (pool_timeout waited) = true
  is_transient_acquire (connection_error e) = true
  is_transient_acquire missing_database_url = false
  is_transient_acquire (query_error e) = false
  is_transient_acquire migration_error = false
  is_transient_acquire invalid_ulid = false
  is_transient_acquire entity_not_found = false

  unfoldable pub classify : E → PoolError
  classify e = elim (variant e) [
    | pool_timed_out ↦ pool_timeout acquire_timeout
    | io ↦ connection_error e
    | tls ↦ connection_error e
    | configuration ↦ connection_error e
    | pool_closed ↦ connection_error e
    | other ↦ query_error e
  ]

  -- A run of the loop: the state that the attempts leave, the pauses, and the answer.
  pub record Attempts (S : Type 0) (T : Type 0) : Type 0 where
    pub state : S
    pub pauses : List ℕ
    pub answer : Result PoolError T

  module _ {S : Type 0} {T : Type 0} (op : S → S × Result E T) where
    -- The loop from the attempt on; no answer is one that runs out of fuel.
    unfoldable pub retry_from : (fuel attempt : ℕ) → S → Option (Attempts S T)
    retry_from ℕ.zero attempt s = none
    retry_from (suc fuel) attempt s =
        let s' = (op s).0 in
        let later = retry_from fuel (suc attempt) s' in
        elim ((op s).1) [
          | ok value ↦ some (record { state = s'; pauses = []; answer = ok value })
          | err raw ↦
              let error = classify raw in
              if not (is_transient_acquire error) || leb max_acquire_attempts attempt
              then some (record { state = s'; pauses = []; answer = err error })
              else elim later [
                | none ↦ none
                | some rest ↦ some (record rest { pauses = retry_backoff attempt ∷ rest.pauses })
              ]
        ]

    unfoldable pub with_acquire_retry : S → Option (Attempts S T)
    unfolding retry_from
    with_acquire_retry s = retry_from max_acquire_attempts 1 s
