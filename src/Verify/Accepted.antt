-- ===== src/Verify/Accepted.antt =====
-- What a file is known to be once `verify_media` has accepted it (verify.rs).
use Prim.Native.String.{String}
use hofvarpnir.Base.{
  ℕ, ◌≡◌, refl, ℤ, ◌<◌, ◌∙◌, sym, ap, subst, true, false, Option, none, some, List, Mem, map,
  length, All, ◌≤◌, u64_max, pos, Result, ok, err, Option-cases, arith, inl, inr,
}
use hofvarpnir.Verify.{
  no_duration, ToolRun, Float, VerificationError, Expectations, Probe, ProbeLine, codec_video,
  codec_audio, duration_is, ToolOutput, read_lines, run_probe, run_demux, scan_for_zero_runs, Media,
  check_duration, check_streams, shortest_accepted, usable_duration, check_probe, verify_media,
  zero_run_threshold, ◌>>◌,
}
use hofvarpnir.Verify.ZeroRuns.{first_zero_run}
use hofvarpnir.Verify.Reads.{concat, IsFull, verdict, scan_for_zero_runs-first_zero_run}
use hofvarpnir.Verify.Lines.{some_inj, has_video-Mem, has_audio-Mem, duration-Mem, unset, announced}

ok≢err : {E : Type 0} {A : Type 0} {e : E} {a : A} → err e ≡ ok a → ⊥
ok≢err h = cc

module _ (float : Float) where
  open float use {F64}

  >>_ok :
      (a b : Result (VerificationError float) (Unit {0}))
      → ◌>>◌ float a b ≡ ok tt
      → (a ≡ ok tt) × (b ≡ ok tt)
  >>_ok (ok tt) b h = (refl, h)
  >>_ok (err e) b h = absurd (ok≢err h)

  -- The streams that are asked for are announced.
  abbrev pub Streams : Expectations → List (ProbeLine float) → Type 0
  Streams expect lines =
      (expect.expect_video ≡ true → Mem codec_video lines)
      × (expect.expect_audio ≡ true → Mem codec_audio lines)

  -- A duration is announced that is positive and, when one is expected, not too short.
  abbrev pub Lasts : Option ℤ → List (ProbeLine float) → Type 0
  Lasts duration_secs lines =
      (d : F64) × Mem (duration_is d) lines
      × (float.is_positive d ≡ true)
      × ((n : ℕ)
          → duration_secs ≡ some (pos n)
          → 0 < n
          → float.lt d (shortest_accepted float n) ≡ false)

  check_duration_ok :
      (d : F64) (expect : Expectations)
      → check_duration float expect d ≡ ok tt
      → (n : ℕ) → expect.duration_secs ≡ some (pos n)
      → 0 < n
      → float.lt d (shortest_accepted float n) ≡ false
  unfolding check_duration
  check_duration_ok d expect h n asked lt = ground (arith, h, asked)

  check_streams_ok :
      (expect : Expectations) (lines : List (ProbeLine float)) (probe : Probe float)
      → check_streams float expect probe ≡ ok tt
      → (probe.has_video ≡ true → Mem codec_video lines)
      → (probe.has_audio ≡ true → Mem codec_audio lines)
      → Streams expect lines
  unfolding check_streams
  check_streams_ok expect lines probe h video audio =
      (ground (arith, h, video), ground (arith, h, audio))

  no_lines : Probe float
  no_lines = record { duration = none; has_video = false; has_audio = false }

  run_probe_ok :
      (run : ToolRun float) (probe : Probe float)
      → run_probe float run ≡ ok probe
      → (output : ToolOutput float) × (run ≡ ok output)
        × (output.success ≡ true)
        × (read_lines float output.lines no_lines ≡ probe)
  unfolding run_probe no_lines
  run_probe_ok (err e) probe h = absurd (ok≢err h)
  run_probe_ok (ok output) probe h = (output, refl, ground (arith, h), ground (arith, h))

  run_demux_ok :
      (run : ToolRun float)
      → run_demux float run ≡ ok tt
      → (output : ToolOutput float) × (run ≡ ok output) × (output.stderr ≡ none)
  unfolding run_demux
  run_demux_ok (err e) h = absurd (ok≢err h)
  run_demux_ok (ok output) h = (output, refl, ground (arith, h))

  usable_duration-some :
      (o : Option F64) (d : F64)
      → usable_duration float o ≡ some d
      → (o ≡ some d) × (float.is_positive d ≡ true)
  unfolding usable_duration
  usable_duration-some none d h = absurd cc
  usable_duration-some (some d') d h =
      let same : some d' ≡ some d = ground (arith, h) in
      let positive : float.is_positive d' ≡ true = ground (arith, h) in
      (same, ap float.is_positive (sym (some_inj same)) ∙ positive)

  check_probe_ok :
      (expect : Expectations) (probe : Probe float)
      → check_probe float expect probe ≡ ok tt
      → (d : F64) × (probe.duration ≡ some d)
        × (float.is_positive d ≡ true)
        × (check_streams float expect probe ≡ ok tt)
        × (check_duration float expect d ≡ ok tt)
  unfolding check_probe
  check_probe_ok expect probe h = elim (Option-cases (usable_duration float probe.duration)) [
    | inl unusable ↦
        let refused : check_probe float expect probe ≡ err (no_duration probe.duration) =
          rw (unusable, check_probe) refl in
        absurd (ok≢err (sym refused ∙ h))
    | inr (d, usable) ↦
        let step : check_probe float expect probe
            ≡ ◌>>◌ float (check_streams float expect probe) (check_duration float expect d) =
          rw (usable, check_probe) refl in
        let (known, positive) = usable_duration-some probe.duration d usable in
        let (streams, lasts) = >>_ok _ _ (sym step ∙ h) in (d, known, positive, streams, lasts)
  ]

  scan_opened :
      (t : ℕ) (opened : Option String) (reads : List (Result String (List ℕ)))
      → scan_for_zero_runs float t opened reads ≡ ok tt
      → opened ≡ none
  unfolding scan_for_zero_runs
  scan_opened t none reads h = refl
  scan_opened t (some e) reads h = absurd (ok≢err h)

  verdict_ok : (t : ℕ) (o : Option ℕ) → verdict float t o ≡ ok tt → o ≡ none
  verdict_ok t none h = refl
  verdict_ok t (some i) h = absurd (ok≢err h)

  -- The steps of `verify_media`, when it accepts.
  verify_media_ok :
      (media : Media float) (expect : Expectations)
      → verify_media float media expect ≡ ok tt
      → (probe : Probe float) × (run_probe float media.probed ≡ ok probe)
        × (check_probe float expect probe ≡ ok tt)
        × (scan_for_zero_runs float zero_run_threshold media.open_error media.reads ≡ ok tt)
        × (run_demux float media.demuxed ≡ ok tt)
  unfolding verify_media
  verify_media_ok media expect h = go (run_probe float media.probed) refl
    where
      go :
          (probed : Result (VerificationError float) (Probe float))
          → run_probe float media.probed ≡ probed
          → (probe : Probe float) × (run_probe float media.probed ≡ ok probe)
            × (check_probe float expect probe ≡ ok tt)
            × (scan_for_zero_runs float zero_run_threshold media.open_error media.reads ≡ ok tt)
            × (run_demux float media.demuxed ≡ ok tt)
      go (err e) probed =
          let refused : verify_media float media expect ≡ err e = rw (probed, verify_media) refl in
          absurd (ok≢err (sym refused ∙ h))
      go (ok probe) probed =
          let step : verify_media float media expect
              ≡ ◌>>◌ float
                  (◌>>◌ float (check_probe float expect probe)
                    (scan_for_zero_runs float zero_run_threshold media.open_error media.reads))
                  (run_demux float media.demuxed) =
            rw (probed, verify_media) refl in
          let (before, demuxed) = >>_ok _ _ (sym step ∙ h) in
          let (checked, scanned) = >>_ok _ _ before in (probe, probed, checked, scanned, demuxed)

  -- A file that is accepted, with a content that was read in chunks that are not empty: `ffprobe`
  -- ended well, announced each stream that is asked for, and announced a duration that is positive
  -- and, where one is expected, not too short; the file opened, and its bytes hold no run of
  -- `ZERO_RUN_THRESHOLD` zeros; `ffmpeg` read it through and complained of nothing.
  pub verify_media-IsSound :
      (media : Media float) (expect : Expectations) (chunks : List (List ℕ))
      → All IsFull chunks
      → length (concat chunks) ≤ u64_max
      → media.reads ≡ map ok chunks
      → verify_media float media expect ≡ ok tt
      → ((output : ToolOutput float) × (media.probed ≡ ok output)
          × (output.success ≡ true)
          × Streams expect output.lines
          × Lasts expect.duration_secs output.lines)
        × (media.open_error ≡ none)
        × (first_zero_run zero_run_threshold (concat chunks) ≡ none)
        × ((output : ToolOutput float) × (media.demuxed ≡ ok output) × (output.stderr ≡ none))
  unfolding no_lines
  verify_media-IsSound media expect chunks full size contents h =
      let (probe, probed, checked, scanned, demuxed) = verify_media_ok media expect h in
      let (output, ran, success, same) = run_probe_ok media.probed probe probed in
      let (d, known, positive, streams, lasts) = check_probe_ok expect probe checked in
      let opened = scan_opened zero_run_threshold media.open_error media.reads scanned in
      let lines = output.lines in
      (
        (
          output,
          ran,
          success,
          check_streams_ok expect lines probe streams
              (λ set. unset float (
                has_video-Mem float lines no_lines
                  (ap (λ (p : Probe float). p.has_video) same ∙ set)))
              (λ set. unset float (
                has_audio-Mem float lines no_lines
                  (ap (λ (p : Probe float). p.has_audio) same ∙ set))),
          (
            d,
            announced float d lines (
                duration-Mem float d lines no_lines
                  (ap (λ (p : Probe float). p.duration) same ∙ known)),
            positive,
            check_duration_ok d expect lasts,
          ),
        ),
        opened,
        verdict_ok zero_run_threshold _ (
            sym (
              scan_for_zero_runs-first_zero_run float zero_run_threshold chunks (omega arith) full
                size)
            ∙ subst (λ reads. scan_for_zero_runs float zero_run_threshold none reads ≡ ok tt)
                contents
                (subst
                  (λ opened. scan_for_zero_runs float zero_run_threshold opened media.reads ≡ ok tt)
                  opened scanned)),
        run_demux_ok media.demuxed demuxed,
      )
