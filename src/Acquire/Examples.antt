-- ===== src/Acquire/Examples.antt =====
-- Examples of the retry of a query.
use hofvarpnir.Base.{ℕ, suc, ◌+◌, ◌<◌, ◌≡◌, refl, some, [], ◌∷◌, Result, ok, err}
use hofvarpnir.Acquire.{
  SqlxVariant, pool_timed_out, io, other, Attempts, classify, is_transient_acquire, retry_from,
  with_acquire_retry, query_error,
}
use hofvarpnir.Acquire.Retry.{after, IsBusy, Answers, take, with_acquire_retry-end}

abbrev variant : SqlxVariant → SqlxVariant
variant v = v

-- The pool is full twice, and then the query is served.
abbrev busy_pool : ℕ → ℕ × Result SqlxVariant ℕ
busy_pool ℕ.zero = (1, err pool_timed_out)
busy_pool (suc ℕ.zero) = (2, err io)
busy_pool (suc (suc n)) = (suc (suc (suc n)), ok 7)

with_acquire_retry-end_example :
    (n : ℕ) × (run : Attempts SqlxVariant variant ℕ ℕ) × (with_acquire_retry SqlxVariant variant
        busy_pool 0
      ≡ some run)
    × (n < 3)
    × ((i : ℕ)
        → i < n
        → IsBusy SqlxVariant variant busy_pool
            ((busy_pool (after SqlxVariant variant busy_pool i 0)).1))
    × (run.state ≡ after SqlxVariant variant busy_pool (suc n) 0)
    × (run.pauses ≡ take n (100 ∷ 500 ∷ []))
    × ((left : ℕ)
        → n + left ≡ 2
        → Answers SqlxVariant variant busy_pool left
            ((busy_pool (after SqlxVariant variant busy_pool n 0)).1)
            run.answer)
with_acquire_retry-end_example = with_acquire_retry-end SqlxVariant variant busy_pool 0

served_third :
    with_acquire_retry SqlxVariant variant busy_pool 0
    ≡ some (record { state = 3; pauses = 100 ∷ 500 ∷ []; answer = ok 7 })
unfolding with_acquire_retry retry_from classify is_transient_acquire
served_third = refl

-- A query that the server rejects is not repeated.
abbrev rejected : ℕ → ℕ × Result SqlxVariant ℕ
rejected n = (suc n, err other)

rejected_once :
    with_acquire_retry SqlxVariant variant rejected 0
    ≡ some (record { state = 1; pauses = []; answer = err (query_error other) })
unfolding with_acquire_retry retry_from classify is_transient_acquire
rejected_once = refl
