-- ===== src/Supervisor/Retry.antt =====
-- When a failed download is tried again (download_supervisor.rs, `handle_failure`).
use Prim.Native.String.{String}
use hofvarpnir.Base.{
  ◌∙◌, add_one_ℤ, length, ℕ, zero, suc, ◌+◌, ◌*◌, ◌-◌, ◌^◌, ◌≤◌, ◌<◌, min, ◌≡◌, refl, ap, ◌⊎◌, inl,
  inr, true, false, none, some, List, [], ◌∷◌, lt→ltb, pos, i32_saturate, arith, i32_max, ◌↔◌,
}
use hofvarpnir.Clock.{Calendar, from_secs}
use hofvarpnir.Supervisor.Backoff.{db_backoff, checked_shl_one, capped_backoff}
use hofvarpnir.Videos.{Video, failed, permanently_failed, set_downloading, set_failed, is_ready}
use hofvarpnir.Supervisor.Failure.{retry_time}

pow-pos : (n : ℕ) → 1 ≤ 2 ^ n
pow-pos zero = omega arith
pow-pos (suc n) = omega (arith, pow-pos n)

pub pow_mono : (m n : ℕ) → m ≤ n → 2 ^ m ≤ 2 ^ n
pow_mono m zero h = ground arith
pow_mono zero (suc n) h = pow-pos (suc n)
pow_mono (suc m) (suc n) h = omega (arith, pow_mono m n (omega arith))

-- The backoff doubles from two minutes for each attempt, up to 64 minutes.
capped_backoff-min : (a : ℕ) → capped_backoff (pos a) ≡ min (120 * 2 ^ a) 3840
unfolding capped_backoff
capped_backoff-min a = omega arith

pub le_or_lt : (m n : ℕ) → (m ≤ n) ⊎ (n < m)
le_or_lt m n = omega arith

min_left : (m n : ℕ) → m ≤ n → min m n ≡ m
min_left m n h = omega arith

min_right : (m n : ℕ) → n < m → min m n ≡ n
min_right m n h = omega arith

-- The cap on the shift is beyond the cap on the pause.
pow-capped : (k : ℕ) → min (2 ^ min k 63) 600 ≡ min (2 ^ k) 600
pow-capped k = elim (le_or_lt k 63) [
  | inl short ↦ rw (min_left k 63 short) refl
  | inr long ↦ rw (min_right k 63 long) (omega (arith, pow_mono 63 k (omega (arith, long))))
]

shift-exact : (n : ℕ) → n ≤ 63 → checked_shl_one n ≡ some (2 ^ n)
unfolding checked_shl_one
shift-exact n h = rw (lt→ltb n 64 (omega (arith, h))) (ap some (omega (arith, pow_mono n 63 h)))

-- The pause after the nth failure in a row: a second, doubled for each failure, up to ten minutes.
pub db_backoff-min : (n : ℕ) → db_backoff n ≡ from_secs (min (2 ^ (n - 1)) 600)
unfolding db_backoff
db_backoff-min n =
    rw (shift-exact (min (n - 1) 63) (omega arith)) (ap from_secs (pow-capped (n - 1)))

-- The calendar holds the given moment and every backoff after it.
abbrev HasRoom : Calendar → ℕ → Type 0
HasRoom c now = now + from_secs 3840 ≤ c.max_utc

i32_saturate-min : (n : ℕ) → i32_saturate n ≡ pos (min n i32_max)
i32_saturate-min n = ground arith

retry_time-none :
    (c : Calendar) (limit n now : ℕ) → min limit i32_max ≤ n → retry_time c limit (pos n) now ≡ none
unfolding retry_time
retry_time-none c limit n now over = rw (i32_saturate-min limit) (ground (arith, over))

retry_time-some :
    (c : Calendar) (limit n now : ℕ)
    → HasRoom c now
    → n < min limit i32_max
    → retry_time c limit (pos n) now ≡ some (now + from_secs (min (120 * 2 ^ n) 3840))
unfolding retry_time
retry_time-some c limit n now room under =
    rw
      (
        i32_saturate-min limit,
        capped_backoff-min n,
        c.add_in_range now (from_secs (min (120 * 2 ^ n) 3840)) (omega (arith, room)),
      )
      (ground (arith, under))

-- One failed download of a video: the worker claims it, the supervisor writes the failure.
abbrev pub failed_attempt : Calendar → ℕ → String → ℕ → Video → Video
failed_attempt c limit error now v =
    let claimed = set_downloading v in
    set_failed error (retry_time c limit claimed.attempts now) claimed

-- A failed download of a video with n attempts, at a time that has 3840 seconds left in the
-- calendar: the row has one attempt more; if that reaches the limit it is permanently failed and
-- never ready; otherwise it is failed, and the sweep finds it again exactly from
-- min(120 * 2^(n + 1), 3840) seconds after the failure on.
pub failed_attempt-ready :
    (c : Calendar) (limit n now : ℕ) (error : String) (v : Video)
    → HasRoom c now
    → v.attempts ≡ pos n
    → let after = failed_attempt c limit error now v in
      (after.attempts ≡ pos (suc n))
      × (((min limit i32_max ≤ suc n)
            × (after.status ≡ permanently_failed)
            × ((later : ℕ) → is_ready later after ≡ false))
          ⊎ ((suc n < min limit i32_max)
              × (after.status ≡ failed)
              × ((later : ℕ)
                  → (is_ready later after ≡ true)
                    ↔ (now + from_secs (min (120 * 2 ^ suc n) 3840) ≤ later))))
unfolding set_failed set_downloading is_ready
failed_attempt-ready c limit n now error v room e = elim (le_or_lt (min limit i32_max) (suc n)) [
  | inl over ↦
      rw (e, retry_time-none c limit (suc n) now over) (refl, inl (over, refl, λ later. refl))
  | inr under ↦
      rw (e, retry_time-some c limit (suc n) now room under)
        (refl, inr (under, refl, λ later. (λ h. ground (arith, h), λ h. ground (arith, h))))
]

-- Failed downloads one after the other, at the given times.
abbrev pub failed_attempts : Calendar → ℕ → String → List ℕ → Video → Video
failed_attempts c limit error [] v = v
failed_attempts c limit error (now ∷ later) v =
    failed_attempts c limit error later (failed_attempt c limit error now v)

failed_attempts-count :
    (c : Calendar) (limit n : ℕ) (error : String) (nows : List ℕ) (v : Video)
    → v.attempts ≡ pos n
    → (failed_attempts c limit error nows v).attempts ≡ pos (length nows + n)
unfolding set_failed set_downloading
failed_attempts-count c limit n error [] v e = e ∙ ap pos (omega arith)
failed_attempts-count c limit n error (now ∷ later) v e =
    failed_attempts-count c limit (suc n) error later (failed_attempt c limit error now v)
      (ap add_one_ℤ e)
    ∙ ap pos (omega arith)

-- A new video whose downloads all fail, the last at a time that has 3840 seconds left in the
-- calendar, is permanently failed exactly when it has been tried as often as the limit says (at
-- most 2^31 - 1), and at least once.
pub failed_attempts-given_up :
    (c : Calendar) (limit now : ℕ) (error : String) (before : List ℕ) (v : Video)
    → HasRoom c now
    → v.attempts ≡ pos 0
    → ((failed_attempt c limit error now (failed_attempts c limit error before v)).status
        ≡ permanently_failed)
      ↔ (min limit i32_max ≤ suc (length before))
failed_attempts-given_up c limit now error before v room e =
    let counted = failed_attempts-count c limit 0 error before v e in
    elim (failed_attempt-ready c limit (length before + 0) now error
      (failed_attempts c limit error before v) room counted).1 [
        | inl (over, given_up, _) ↦ ((λ h. omega (arith, over)), (λ h. given_up))
        | inr (under, retried, _) ↦
            ((λ h. ground (arith, h, retried)), (λ h. ground (arith, h, under)))
      ]
