-- ===== src/Verify/Scan.antt =====
-- The scan for zeros, chunk by chunk (verify.rs).
use hofvarpnir.Base.{
  ℕ, suc, ◌+◌, ◌≤◌, ◌<◌, ◌≡◌, refl, ap, sym, ◌∙◌, true, false, some, List, [], ◌∷◌, ◌++◌, length,
  leb, ◌==◌, inl, inr, u64_max, arith, Bool-cases, ==_iff, subst,
}
use hofvarpnir.Verify.{ZeroRun, ChunkScan, found, passed, count_zero, scan_chunk}
use hofvarpnir.Verify.ZeroRuns.{
  shift, shift-shift, first_zero_run, zeros, skip_short, at_head, zeros_snoc,
}

-- The run is short of the threshold, and with the zeros before `position` it started at `base`.
abbrev pub Tracks : (threshold base position : ℕ) → ZeroRun → Type 0
Tracks threshold base position run =
    (run.run_bytes < threshold)
    × (base + run.run_bytes ≡ position)
    × (0 < run.run_bytes → run.run_start ≡ base)

-- The chunk's scan says what the reference does for the zeros carried over, the chunk and
-- whatever follows, or leaves that question to the run that goes on.
abbrev pub Agrees : (threshold base end : ℕ) → ZeroRun → List ℕ → ChunkScan → Type 0
Agrees threshold base end run bytes (found start run_bytes) =
    (run_bytes ≡ threshold)
    × ((rest : List ℕ)
        → shift base (first_zero_run threshold (zeros run.run_bytes ++ (bytes ++ rest)))
          ≡ some start)
Agrees threshold base end run bytes (passed run') =
    (base' : ℕ) × Tracks threshold base' end run'
    × ((rest : List ℕ)
        → shift base (first_zero_run threshold (zeros run.run_bytes ++ (bytes ++ rest)))
          ≡ shift base' (first_zero_run threshold (zeros run'.run_bytes ++ rest)))

-- A byte is scanned.
Agrees-cons :
    (t base base' end end' b : ℕ) (bytes : List ℕ) (run run' : ZeroRun) (scan : ChunkScan)
    → end ≡ end'
    → ((rest : List ℕ)
        → shift base (first_zero_run t (zeros run.run_bytes ++ b ∷ rest))
          ≡ shift base' (first_zero_run t (zeros run'.run_bytes ++ rest)))
    → Agrees t base' end run' bytes scan
    → Agrees t base end' run (b ∷ bytes) scan
Agrees-cons t base base' end end' b bytes run run' (found start n) same step (is_t, at) =
    (is_t, λ rest. step (bytes ++ rest) ∙ at rest)
Agrees-cons t base base' end end' b bytes run run' (passed last) same step
      (base2, (lt, at, started), tail) =
    (base2, (lt, at ∙ same, started), λ rest. step (bytes ++ rest) ∙ tail rest)

-- What a byte does to the scan.
module _ (t offset index b : ℕ) (bytes : List ℕ) (run : ZeroRun) where
  scan_other :
      b == 0 ≡ false
      → scan_chunk t offset index (b ∷ bytes) run
        ≡ scan_chunk t offset (suc index) bytes (record run { run_bytes = 0 })
  unfolding scan_chunk
  scan_other other_byte = rw (other_byte, scan_chunk) refl

  scan_zero :
      b == 0 ≡ true
      → leb t (suc run.run_bytes) ≡ false
      → scan_chunk t offset index (b ∷ bytes) run
        ≡ scan_chunk t offset (suc index) bytes (count_zero offset index run)
  unfolding scan_chunk
  scan_zero zero_byte short = rw (zero_byte, short, scan_chunk) refl

  scan_last_zero :
      b == 0 ≡ true
      → leb t (suc run.run_bytes) ≡ true
      → scan_chunk t offset index (b ∷ bytes) run
        ≡ found (count_zero offset index run).run_start (suc run.run_bytes)
  unfolding scan_chunk
  scan_last_zero zero_byte enough = rw (zero_byte, enough, scan_chunk) refl

-- A zero joins those that are carried over.
carry_zero :
    (t base k b : ℕ) (rest : List ℕ)
    → b == 0 ≡ true
    → shift base (first_zero_run t (zeros k ++ b ∷ rest))
      ≡ shift base (first_zero_run t (zeros (suc k) ++ rest))
carry_zero t base k b rest zero_byte =
    ap (λ xs. shift base (first_zero_run t xs))
      (ap (λ b. zeros k ++ b ∷ rest) ((==_iff b 0).0 zero_byte) ∙ zeros_snoc k rest)

-- Another byte ends the run.
drop_run :
    (t base position k b : ℕ) (rest : List ℕ)
    → k < t
    → base + k ≡ position
    → b == 0 ≡ false
    → shift base (first_zero_run t (zeros k ++ b ∷ rest))
      ≡ shift (suc position) (first_zero_run t rest)
drop_run t base position k b rest lt at other_byte =
    ap (shift base) (skip_short t k b rest lt (ground (arith, other_byte)))
    ∙ shift-shift base (suc k) _ (first_zero_run t rest) (omega (arith, at))

count_zero-start :
    (t offset index base : ℕ) (run : ZeroRun)
    → Tracks t base (offset + index) run
    → offset + index ≤ u64_max
    → (count_zero offset index run).run_start ≡ base
count_zero-start t offset index base run (lt, at, started) bound =
    ground (arith, at, started, bound)

run_found :
    (t k base : ℕ) (rest : List ℕ)
    → suc k ≡ t
    → shift base (first_zero_run t (zeros (suc k) ++ rest)) ≡ some base
run_found t k base rest is_t =
    subst (λ t. shift base (first_zero_run t (zeros (suc k) ++ rest)) ≡ some base) is_t
      (rw (at_head k rest) (ap some (omega arith)))

pub scan_chunk-Agrees :
    (threshold offset index base : ℕ) (bytes : List ℕ) (run : ZeroRun)
    → Tracks threshold base (offset + index) run
    → offset + index + length bytes ≤ u64_max
    → Agrees threshold base
        (offset + index + length bytes)
        run
        bytes
        (scan_chunk threshold offset index bytes run)
unfolding scan_chunk
scan_chunk-Agrees t offset index base [] run (lt, at, started) bound =
    (base, (lt, omega (arith, at), started), λ rest. refl)
scan_chunk-Agrees t offset index base (b ∷ bytes) run tracks bound =
    let (lt, at, started) = tracks in
    let end = offset + index + length (b ∷ bytes) in
    let Here = Agrees t base end run (b ∷ bytes) in
    let start = count_zero-start t offset index base run tracks (omega arith) in
    elim (Bool-cases (b == 0)) [
      | inl zero_byte ↦ elim (Bool-cases (leb t (suc run.run_bytes))) [
        | inl enough ↦
            let is_t : suc run.run_bytes ≡ t = ground (arith, enough, lt) in
            subst Here (sym (scan_last_zero t offset index b bytes run zero_byte enough)) (
              is_t,
              λ rest.
                  carry_zero t base run.run_bytes b (bytes ++ rest) zero_byte
                  ∙ run_found t run.run_bytes base (bytes ++ rest) is_t
                  ∙ ap some (sym start),
            )
        | inr short ↦ subst Here (sym (scan_zero t offset index b bytes run zero_byte short)) (
            Agrees-cons t base base (offset + suc index + length bytes) end b bytes run
              (count_zero offset index run) _ (omega arith)
              (λ rest. carry_zero t base run.run_bytes b rest zero_byte)
              (scan_chunk-Agrees t offset (suc index) base bytes (count_zero offset index run)
                (ground (arith, short), omega (arith, at), λ pos. start) (omega arith)))
      ]
      | inr other_byte ↦ subst Here (sym (scan_other t offset index b bytes run other_byte)) (
          Agrees-cons t base (suc (offset + index)) (offset + suc index + length bytes) end b bytes
            run (record run { run_bytes = 0 }) _ (omega arith)
            (λ rest. drop_run t base (offset + index) run.run_bytes b rest lt at other_byte)
            (scan_chunk-Agrees t offset (suc index) (suc (offset + index)) bytes
              (record run { run_bytes = 0 }) (omega arith, omega arith, λ lt. absurd (omega arith))
              (omega arith)))
    ]
