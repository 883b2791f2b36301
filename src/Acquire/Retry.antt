-- ===== src/Acquire/Retry.antt =====
-- The retry of a query, run to its end (db/mod.rs).
use hofvarpnir.Base.{
  ℕ, zero, suc, ◌+◌, ◌<◌, ◌≡◌, ◌≢◌, refl, sym, ap, ◌∙◌, subst, ◌⊎◌, inl, inr, true, false, not,
  ◌||◌, leb, some, List, [], ◌∷◌, Result, ok, err, arith,
}
use hofvarpnir.Acquire.{
  SqlxVariant, pool_timed_out, io, tls, configuration, pool_closed, other, max_acquire_attempts,
  retry_backoff, PoolError, is_transient_acquire, classify, Attempts, retry_from,
  with_acquire_retry,
}

abbrev pauses_from : (attempt n : ℕ) → List ℕ
pauses_from attempt zero = []
pauses_from attempt (suc n) = retry_backoff attempt ∷ pauses_from (suc attempt) n

abbrev pub take {ℓ} : {A : Type ℓ} → ℕ → List A → List A
take zero xs = []
take (suc n) [] = []
take (suc n) (x ∷ xs) = x ∷ take n xs

ladder : (n : ℕ) → n < 3 → pauses_from 1 n ≡ take n (100 ∷ 500 ∷ [])
ladder zero lt = refl
ladder (suc zero) lt = refl
ladder (suc (suc zero)) lt = refl
ladder (suc (suc (suc n))) lt = absurd (omega arith)

module _ (E : Type 0) (variant : E → SqlxVariant) where
  transient_variant :
      (e : E) → variant e ≢ other → is_transient_acquire E variant (classify E variant e) ≡ true
  unfolding is_transient_acquire classify
  transient_variant e busy = go (variant e) refl
    where
      go :
          (v : SqlxVariant)
          → variant e ≡ v
          → is_transient_acquire E variant (classify E variant e) ≡ true
      go pool_timed_out v = rw (v, is_transient_acquire, classify) refl
      go io v = rw (v, is_transient_acquire, classify) refl
      go tls v = rw (v, is_transient_acquire, classify) refl
      go configuration v = rw (v, is_transient_acquire, classify) refl
      go pool_closed v = rw (v, is_transient_acquire, classify) refl
      go other v = absurd (busy v)

  other_variant :
      (e : E) → variant e ≡ other → is_transient_acquire E variant (classify E variant e) ≡ false
  unfolding is_transient_acquire classify
  other_variant e v = rw (v, is_transient_acquire, classify) refl

  is_other : (e : E) → (variant e ≡ other) ⊎ (variant e ≢ other)
  is_other e = go (variant e)
    where
      go : (v : SqlxVariant) → (v ≡ other) ⊎ (v ≢ other)
      go pool_timed_out = inr (λ h. absurd cc)
      go io = inr (λ h. absurd cc)
      go tls = inr (λ h. absurd cc)
      go configuration = inr (λ h. absurd cc)
      go pool_closed = inr (λ h. absurd cc)
      go other = inl refl

  module _ {S : Type 0} {T : Type 0} (op : S → S × Result E T) where
    -- The state after `n` calls.
    abbrev pub after : ℕ → S → S
    after zero s = s
    after (suc n) s = after n ((op s).0)

    -- The call got no connection.
    abbrev pub IsBusy : Result E T → Type 0
    IsBusy reply = (e : E) × (reply ≡ err e) × (variant e ≢ other)

    -- The answer is the reply of the last call, which is a value, an error of the query, or the
    -- third reply.
    abbrev pub Answers : (left : ℕ) → Result E T → Result (PoolError E variant) T → Type 0
    Answers left (ok value) answer = answer ≡ ok value
    Answers left (err e) answer =
        (answer ≡ err (classify E variant e)) × ((variant e ≡ other) ⊎ (left ≡ 0))

    abbrev EndsAfter : (fuel attempt : ℕ) → S → ℕ → Type 0
    EndsAfter fuel attempt s n =
        (run : Attempts E variant S T) × (retry_from E variant op fuel attempt s ≡ some run)
        × (n < fuel)
        × ((i : ℕ) → i < n → IsBusy ((op (after i s)).1))
        × (run.state ≡ after (suc n) s)
        × (run.pauses ≡ pauses_from attempt n)
        × ((left : ℕ) → suc (n + left) ≡ fuel → Answers left ((op (after n s)).1) run.answer)

    retry_value :
        (fuel attempt : ℕ) (s : S) (value : T)
        → (op s).1 ≡ ok value
        → retry_from E variant op (suc fuel) attempt s
          ≡ some (record { state = (op s).0; pauses = []; answer = ok value })
    unfolding retry_from
    retry_value fuel attempt s value reply = rw (reply, retry_from) refl

    retry_stop :
        (fuel attempt : ℕ) (s : S) (e : E)
        → (op s).1 ≡ err e
        → (not (is_transient_acquire E variant (classify E variant e))
            || leb max_acquire_attempts attempt)
          ≡ true
        → retry_from E variant op (suc fuel) attempt s
          ≡ some (record { state = (op s).0; pauses = []; answer = err (classify E variant e) })
    unfolding retry_from
    retry_stop fuel attempt s e reply stop = rw (reply, stop, retry_from) refl

    retry_again :
        (fuel attempt : ℕ) (s : S) (e : E) (rest : Attempts E variant S T)
        → (op s).1 ≡ err e
        → (not (is_transient_acquire E variant (classify E variant e))
            || leb max_acquire_attempts attempt)
          ≡ false
        → retry_from E variant op fuel (suc attempt) ((op s).0) ≡ some rest
        → retry_from E variant op (suc fuel) attempt s
          ≡ some (record rest { pauses = retry_backoff attempt ∷ rest.pauses })
    unfolding retry_from
    retry_again fuel attempt s e rest reply again later = rw (reply, again, later, retry_from) refl

    stopped :
        (fuel attempt : ℕ) (s : S) (e : E)
        → (op s).1 ≡ err e
        → (not (is_transient_acquire E variant (classify E variant e))
            || leb max_acquire_attempts attempt)
          ≡ true
        → ((left : ℕ) → suc left ≡ suc fuel → (variant e ≡ other) ⊎ (left ≡ 0))
        → (n : ℕ) × EndsAfter (suc fuel) attempt s n
    stopped fuel attempt s e reply stop why = (
      0,
      (
        record { state = (op s).0; pauses = []; answer = err (classify E variant e) },
        retry_stop fuel attempt s e reply stop,
        omega arith,
        (λ i lt. absurd (omega arith)),
        refl,
        refl,
        (λ left last.
            subst (λ r. Answers left r (err (classify E variant e))) (sym reply)
              (refl, why left (omega (arith, last)))),
      ),
    )

    first-IsBusy :
        (i n : ℕ) (e : E) (s : S)
        → (op s).1 ≡ err e
        → variant e ≢ other
        → ((i : ℕ) → i < n → IsBusy ((op (after i ((op s).0))).1))
        → i < suc n
        → IsBusy ((op (after i s)).1)
    first-IsBusy zero n e s reply busy later lt = (e, reply, busy)
    first-IsBusy (suc i) n e s reply busy later lt = later i (omega (arith, lt))

    replied :
        (fuel attempt : ℕ) (s : S) (reply : Result E T)
        → (op s).1 ≡ reply
        → suc fuel + attempt ≡ suc max_acquire_attempts
        → ((n : ℕ) × EndsAfter fuel (suc attempt) ((op s).0) n) ⊎ (fuel ≡ 0)
        → (n : ℕ) × EndsAfter (suc fuel) attempt s n
    replied fuel attempt s (ok value) reply sum later = (
      0,
      (
        record { state = (op s).0; pauses = []; answer = ok value },
        retry_value fuel attempt s value reply,
        omega arith,
        (λ i lt. absurd (omega arith)),
        refl,
        refl,
        (λ left last. subst (λ r. Answers left r (ok value)) (sym reply) refl),
      ),
    )
    replied fuel attempt s (err e) reply sum later = elim (is_other e) [
      | inl query ↦
          stopped fuel attempt s e reply (rw (other_variant e query) refl) (λ left last. inl query)
      | inr busy ↦ elim later [
        | inr last ↦
            stopped fuel attempt s e reply
              (rw (transient_variant e busy) (ground (arith, sum, last)))
              (λ left spent. inr (omega (arith, spent, last)))
        | inl (n, (run, ran, lt, busy_before, state, pauses, answers)) ↦ (
          suc n,
          (
            record run { pauses = retry_backoff attempt ∷ run.pauses },
            retry_again fuel attempt s e run reply
                (rw (transient_variant e busy) (ground (arith, sum, lt))) ran,
            omega (arith, lt),
            (λ i lt. first-IsBusy i n e s reply busy busy_before lt),
            state,
            ap (λ pauses. retry_backoff attempt ∷ pauses) pauses,
            (λ left last. answers left (omega (arith, last))),
          ),
        )
      ]
    ]

    retry_from-end :
        (fuel attempt : ℕ) (s : S)
        → suc fuel + attempt ≡ suc max_acquire_attempts
        → (n : ℕ) × EndsAfter (suc fuel) attempt s n
    unfolding retry_from
    retry_from-end zero attempt s sum = replied zero attempt s ((op s).1) refl sum (inr refl)
    retry_from-end (suc fuel) attempt s sum =
        replied (suc fuel) attempt s ((op s).1) refl sum
          (inl (retry_from-end fuel (suc attempt) ((op s).0) (omega (arith, sum))))

    -- The retry always ends, after at most three calls: each call but the last got no connection,
    -- between the calls it paused for 100 and then 500 milliseconds, the state is the one that the
    -- calls leave, and the answer is the last reply, which is a value, an error of another kind,
    -- or the third reply.
    pub with_acquire_retry-end :
        (s : S)
        → (n : ℕ) × (run : Attempts E variant S T) × (with_acquire_retry E variant op s ≡ some run)
          × (n < 3)
          × ((i : ℕ) → i < n → IsBusy ((op (after i s)).1))
          × (run.state ≡ after (suc n) s)
          × (run.pauses ≡ take n (100 ∷ 500 ∷ []))
          × ((left : ℕ) → n + left ≡ 2 → Answers left ((op (after n s)).1) run.answer)
    unfolding with_acquire_retry
    with_acquire_retry-end s =
        let (n, (run, ran, lt, busy, state, pauses, answers)) = retry_from-end 2 1 s refl in
        (
          n,
          run,
          ran,
          lt,
          busy,
          state,
          pauses ∙ ladder n lt,
          (λ left sum. answers left (omega (arith, sum))),
        )
