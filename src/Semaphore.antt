-- ===== src/Semaphore.antt =====
-- tokio's `Semaphore`, which the supervisor shares with its download tasks: an interface with the
-- documented behaviour of its operations. A permit that comes free goes to the task that has
-- waited longest, if one waits; only permits that nobody waits for can be forgotten.
pub mod Totals
use hofvarpnir.Base.{ℕ, zero, suc, ◌-◌, min, ◌≡◌, List, [], ◌∷◌, ◌++◌, ◌==◌, if◌then◌else◌}

-- What can be observed: the free permits, the tasks that hold one, and those that wait for one,
-- the longest first.
pub record Permits : Type 0 where
  pub available : ℕ
  pub holders : List ℕ
  pub waiters : List ℕ

abbrev pub remove_first : ℕ → List ℕ → List ℕ
remove_first a [] = []
remove_first a (x ∷ xs) = let rest = remove_first a xs in if x == a then xs else x ∷ rest

abbrev pub free_one : Permits → Permits
free_one p = elim p.waiters [
  | [] ↦ record p { available = suc p.available }
  | w ∷ ws ↦ record p { holders = w ∷ p.holders; waiters = ws }
]

abbrev pub free_many : ℕ → Permits → Permits
free_many zero p = p
free_many (suc n) p = free_many n (free_one p)

abbrev pub taken : ℕ → Permits → Permits
taken task p = elim p.available [
  | zero ↦ record p { waiters = p.waiters ++ task ∷ [] }
  | suc n ↦ record p { available = n; holders = task ∷ p.holders }
]

pub record SemaphoreApi : Type 1 where
  pub Semaphore : Type 0
  pub permits : Semaphore → Permits
  pub create : ℕ → Semaphore
  pub add_permits : Semaphore → ℕ → Semaphore
  pub forget_permits : Semaphore → ℕ → Semaphore × ℕ
  pub acquire : Semaphore → ℕ → Semaphore
  pub drop_permit : Semaphore → ℕ → Semaphore
  pub permits-create :
      (n : ℕ) → permits (create n) ≡ record { available = n; holders = []; waiters = [] }
  pub permits-add : (s : Semaphore) (n : ℕ) → permits (add_permits s n) ≡ free_many n (permits s)
  pub permits-forget :
      (s : Semaphore) (n : ℕ)
      → permits (forget_permits s n).0
        ≡ record (permits s) { available = (permits s).available - n }
  pub forget-count : (s : Semaphore) (n : ℕ) → (forget_permits s n).1 ≡ min n (permits s).available
  pub permits-acquire :
      (s : Semaphore) (task : ℕ) → permits (acquire s task) ≡ taken task (permits s)
  pub permits-drop :
      (s : Semaphore) (task : ℕ)
      → permits (drop_permit s task)
        ≡ free_one (record (permits s) { holders = remove_first task (permits s).holders })
