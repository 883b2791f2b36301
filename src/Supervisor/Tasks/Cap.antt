-- ===== src/Supervisor/Tasks/Cap.antt =====
-- No more downloads at a time than permits (download_supervisor.rs).
use hofvarpnir.Base.{
  ℕ, zero, suc, ◌+◌, ◌≤◌, ◌≡◌, refl, inl, inr, Bool, true, false, ◌&&◌, Option, none, some, List,
  [], ◌∷◌, ◌==◌, contains, count_if, length, Bool-cases, arith,
}
use hofvarpnir.Semaphore.{SemaphoreApi, Permits, free_one, free_many, taken, remove_first}
use hofvarpnir.Semaphore.Totals.{total, total-taken, total-free_one, length-remove_first}
use hofvarpnir.Supervisor.State.{
  Task, Phase, sleeping, acquiring, starting, working, released, completed, DownloadOutcome,
}
use hofvarpnir.Supervisor.Tasks.{advance, sleep_over}
use hofvarpnir.Supervisor.Tasks.Single.{one_if}

-- From the permit's grant to its drop.
abbrev pub is_running : Phase → Bool
is_running starting = true
is_running (working worker) = true
is_running _ = false

abbrev pub has_task_id : ℕ → Task → Bool
has_task_id a t = t.id == a

abbrev pub runs : ℕ → Task → Bool
runs a t = t.id == a && is_running t.phase

abbrev pub occurrences : ℕ → List ℕ → ℕ
occurrences a xs = count_if (λ x. x == a) xs

occurrences-remove_first :
    (a b : ℕ) (xs : List ℕ)
    → contains xs a ≡ true
    → occurrences b (remove_first a xs) + one_if (a == b) ≡ occurrences b xs
occurrences-remove_first a b [] h = ground arith
occurrences-remove_first a b (x ∷ xs) h = ground (arith, occurrences-remove_first a b xs)

occurrences-le :
    (a b : ℕ) (xs : List ℕ) → occurrences b xs ≤ occurrences b (remove_first a xs) + one_if (a == b)
occurrences-le a b [] = ground arith
occurrences-le a b (x ∷ xs) = ground (arith, occurrences-le a b xs)

contains-occurrences : (a : ℕ) (xs : List ℕ) → contains xs a ≡ true → 1 ≤ occurrences a xs
contains-occurrences a [] h = ground arith
contains-occurrences a (x ∷ xs) h = ground (arith, contains-occurrences a xs)

occurrences-contains : (a : ℕ) (xs : List ℕ) → 1 ≤ occurrences a xs → contains xs a ≡ true
occurrences-contains a [] h = ground arith
occurrences-contains a (x ∷ xs) h = ground (arith, occurrences-contains a xs)

occurrences-free_one :
    (a : ℕ) (p : Permits) → occurrences a p.holders ≤ occurrences a (free_one p).holders
occurrences-free_one a p = ground arith

pub occurrences-free_many :
    (a n : ℕ) (p : Permits) → occurrences a p.holders ≤ occurrences a (free_many n p).holders
occurrences-free_many a zero p = omega arith
occurrences-free_many a (suc n) p =
    omega (arith, occurrences-free_one a p, occurrences-free_many a n (free_one p))

occurrences-taken :
    (a task : ℕ) (p : Permits) → occurrences a p.holders ≤ occurrences a (taken task p).holders
occurrences-taken a task p = ground arith

-- If each task's number is a holder's as often as the task runs, no more tasks run than there are
-- holders.
pub running-le-holders :
    (ts : List Task) (hs : List ℕ)
    → ((a : ℕ) → count_if (runs a) ts ≤ occurrences a hs)
    → count_if (λ t. is_running t.phase) ts ≤ length hs
running-le-holders [] hs h = omega arith
running-le-holders (t ∷ ts) hs h = elim (Bool-cases (is_running t.phase)) [
  | inl run ↦
      let held : contains hs t.id ≡ true =
        occurrences-contains t.id hs (ground (arith, h t.id, run)) in
      let fewer =
        running-le-holders ts (remove_first t.id hs)
          (λ b. ground (arith, h b, run, occurrences-remove_first t.id b hs held)) in
      ground (arith, run, fewer, length-remove_first t.id hs held)
  | inr rest ↦ ground (arith, rest, running-le-holders ts hs (λ b. ground (arith, h b, rest)))
]

module _ (api : SemaphoreApi) where
  -- What a task does keeps its permit: `others` counts the other tasks of number a that run.
  pub advance-held :
      (now : ℕ) (outcome : Option DownloadOutcome) (p : Phase) (t : Task)
      (semaphore : api.Semaphore) (a others : ℕ)
      → others + one_if (t.id == a) ≤ 1
      → others + one_if (runs a (record t { phase = p }))
        ≤ occurrences a (api.permits semaphore).holders
      → let (phase, semaphore', told) =
          advance api now outcome (record t { phase = p }) semaphore in
        others + one_if (runs a (record t { phase = phase }))
        ≤ occurrences a (api.permits semaphore').holders
  unfolding advance
  advance-held now outcome sleeping t semaphore a others alone h =
      elim (Bool-cases (sleep_over now t)) [
        | inl over ↦
            rw (over, api.permits-acquire)
              (ground (arith, h, occurrences-taken a t.id (api.permits semaphore)))
        | inr early ↦ rw early h
      ]
  advance-held now outcome acquiring t semaphore a others alone h =
      ground (arith, contains-occurrences t.id (api.permits semaphore).holders)
  advance-held now outcome starting t semaphore a others alone h = h
  advance-held now outcome (working worker) t semaphore a others alone h = rw (api.permits-drop) (
      ground (
        arith,
        h,
        alone,
        occurrences-le t.id a (api.permits semaphore).holders,
        occurrences-free_one a (record (api.permits semaphore) {
          holders = remove_first t.id (api.permits semaphore).holders;
        }),
      ))
  advance-held now outcome (released answer) t semaphore a others alone h = h
  advance-held now outcome (completed none) t semaphore a others alone h = h
  advance-held now outcome (completed (some answer)) t semaphore a others alone h = h

  pub advance-total :
      (now : ℕ) (outcome : Option DownloadOutcome) (p : Phase) (t : Task)
      (semaphore : api.Semaphore)
      → one_if (is_running p) ≤ occurrences t.id (api.permits semaphore).holders
      → total (api.permits (advance api now outcome (record t { phase = p }) semaphore).1)
        ≡ total (api.permits semaphore)
  unfolding advance
  advance-total now outcome sleeping t semaphore h = elim (Bool-cases (sleep_over now t)) [
    | inl over ↦ rw (over, api.permits-acquire) (total-taken t.id (api.permits semaphore))
    | inr early ↦ rw early refl
  ]
  advance-total now outcome acquiring t semaphore h = ground arith
  advance-total now outcome starting t semaphore h = refl
  advance-total now outcome (working worker) t semaphore h =
      rw (api.permits-drop, total-free_one)
        (omega (
          arith,
          length-remove_first t.id (api.permits semaphore).holders
              (occurrences-contains t.id (api.permits semaphore).holders (ground (arith, h))),
        ))
  advance-total now outcome (released answer) t semaphore h = refl
  advance-total now outcome (completed none) t semaphore h = refl
  advance-total now outcome (completed (some answer)) t semaphore h = refl
