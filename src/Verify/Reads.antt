-- ===== src/Verify/Reads.antt =====
-- The scan for zeros of a whole file, read in chunks (verify.rs).
use hofvarpnir.Base.{
  ℕ, ◌+◌, ◌≤◌, ◌<◌, min, ◌≡◌, refl, ap, sym, ◌∙◌, Option, none, some, List, [], ◌∷◌, ◌++◌, map,
  length, length-append, All, u64_max, Result, ok, err, arith, subst,
}
use hofvarpnir.Verify.{
  Float, VerificationError, zero_run, ZeroRun, ChunkScan, found, passed, scan_chunk, scan_reads,
  scan_for_zero_runs,
}
use hofvarpnir.Verify.Scan.{Tracks, Agrees, scan_chunk-Agrees}
use hofvarpnir.Verify.ZeroRuns.{shift, first_zero_run, zeros, none_short}

shift_zero : (o : Option ℕ) → shift 0 o ≡ o
shift_zero none = refl
shift_zero (some i) = ap some (omega arith)

abbrev pub concat : List (List ℕ) → List ℕ
concat [] = []
concat (chunk ∷ chunks) = chunk ++ concat chunks

abbrev pub IsFull : List ℕ → Type 0
IsFull chunk = 0 < length chunk

module _ (float : Float) (t : ℕ) where
  -- What is answered when the first run is at a place.
  abbrev pub verdict : Option ℕ → Result (VerificationError float) (Unit {0})
  verdict none = ok tt
  verdict (some start) = err (zero_run start t)

  scan_first :
      (offset base : ℕ) (bytes : List ℕ) (run : ZeroRun)
      → Tracks t base offset run
      → offset + length bytes ≤ u64_max
      → Agrees t base (offset + length bytes) run bytes (scan_chunk t offset 0 bytes run)
  scan_first offset base bytes run (lt, at, started) bound =
      subst (λ end. Agrees t base end run bytes (scan_chunk t offset 0 bytes run)) (omega arith)
        (scan_chunk-Agrees t offset 0 base bytes run (lt, omega (arith, at), started)
          (omega (arith, bound)))

  -- What the outer loop does with what the inner loop leaves.
  read_on :
      (offset base b : ℕ) (bytes : List ℕ) (chunks : List (List ℕ)) (run : ZeroRun)
      (scan : ChunkScan)
      → scan_chunk t offset 0 (b ∷ bytes) run ≡ scan
      → Agrees t base (offset + length (b ∷ bytes)) run (b ∷ bytes) scan
      → offset + length (b ∷ bytes) ≤ u64_max
      → ((base' : ℕ) (run' : ZeroRun)
          → Tracks t base' (offset + length (b ∷ bytes)) run'
          → scan_reads float t (offset + length (b ∷ bytes)) run' (map ok chunks)
            ≡ verdict (shift base' (first_zero_run t (zeros run'.run_bytes ++ concat chunks))))
      → scan_reads float t offset run (map ok ((b ∷ bytes) ∷ chunks))
        ≡ verdict
            (shift base (first_zero_run t (zeros run.run_bytes ++ concat ((b ∷ bytes) ∷ chunks))))
  unfolding scan_reads
  read_on offset base b bytes chunks run (found start n) scanned (is_t, at) bound later =
      rw (scanned, at (concat chunks), is_t, scan_reads) refl
  read_on offset base b bytes chunks run (passed run') scanned (base', tracks, same) bound later =
      let fits : min (offset + length (b ∷ bytes)) u64_max ≡ offset + length (b ∷ bytes) =
        omega (arith, bound) in
      rw (scanned, fits, scan_reads)
        (later base' run' tracks ∙ ap verdict (sym (same (concat chunks))))

  scan_reads-from :
      (offset base : ℕ) (chunks : List (List ℕ)) (run : ZeroRun)
      → Tracks t base offset run
      → All IsFull chunks
      → offset + length (concat chunks) ≤ u64_max
      → scan_reads float t offset run (map ok chunks)
        ≡ verdict (shift base (first_zero_run t (zeros run.run_bytes ++ concat chunks)))
  unfolding scan_reads
  scan_reads-from offset base [] run tracks full bound =
      ap (λ o. verdict (shift base o)) (sym (none_short t run.run_bytes tracks.0))
  scan_reads-from offset base ([] ∷ chunks) run tracks (full, fulls) bound = absurd (omega arith)
  scan_reads-from offset base ((b ∷ bytes) ∷ chunks) run tracks (full, fulls) bound =
      let size = length-append (b ∷ bytes) (concat chunks) in
      read_on offset base b bytes chunks run (scan_chunk t offset 0 (b ∷ bytes) run) refl
        (scan_first offset base (b ∷ bytes) run tracks (omega (arith, size, bound)))
        (omega (arith, size, bound))
        (λ base' run' tracks'.
          scan_reads-from (offset + length (b ∷ bytes)) base' chunks run' tracks' fulls
            (omega (arith, size, bound)))

-- A file that opens and is read to its end in chunks that are not empty, of whatever sizes, gets
-- the answer that follows from its bytes alone: it passes when they hold no run of `threshold`
-- zeros, and else the error names where the first run starts. The threshold is positive, and the
-- file's size fits in 64 bits.
pub scan_for_zero_runs-first_zero_run :
    (float : Float) (threshold : ℕ) (chunks : List (List ℕ))
    → 0 < threshold
    → All IsFull chunks
    → length (concat chunks) ≤ u64_max
    → scan_for_zero_runs float threshold none (map ok chunks)
      ≡ verdict float threshold (first_zero_run threshold (concat chunks))
unfolding scan_for_zero_runs
scan_for_zero_runs-first_zero_run float t chunks lt full bound =
    scan_reads-from float t 0 0 chunks (record { run_bytes = 0; run_start = 0 })
      (lt, refl, λ pos. absurd (omega arith)) full (omega (arith, bound))
    ∙ ap (verdict float t) (shift_zero (first_zero_run t (concat chunks)))
