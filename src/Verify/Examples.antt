-- ===== src/Verify/Examples.antt =====
-- Examples of the verification of files.
use hofvarpnir.Base.{◌≡◌, refl, true, none, some, map, pos, ok, err, arith}
use hofvarpnir.Verify.{
  zero_run, Expectations, ToolOutput, scan_for_zero_runs, verify_media, zero_run_threshold,
  run_probe, read_lines, check_probe, check_streams, check_duration, usable_duration, run_demux,
  scan_reads, scan_chunk,
}
use hofvarpnir.Samples.{seconds, chunks, clip}
use hofvarpnir.Verify.ZeroRuns.{first_zero_run}
use hofvarpnir.Verify.Reads.{concat, verdict, scan_for_zero_runs-first_zero_run}
use hofvarpnir.Verify.Accepted.{Streams, Lasts, verify_media-IsSound}

scan_for_zero_runs-first_zero_run_example :
    scan_for_zero_runs seconds 3 none (map ok chunks)
    ≡ verdict seconds 3 (first_zero_run 3 (concat chunks))
scan_for_zero_runs-first_zero_run_example =
    scan_for_zero_runs-first_zero_run seconds 3 chunks (omega arith)
      (omega arith, (omega arith, tt)) (omega arith)

-- The run that crosses the chunks starts at the byte 1.
crossing_run : scan_for_zero_runs seconds 3 none (map ok chunks) ≡ err (zero_run 1 3)
unfolding scan_for_zero_runs scan_reads scan_chunk
crossing_run = refl

abbrev expect : Expectations
expect = record { expect_video = true; expect_audio = true; duration_secs = some (pos 100) }

verify_media-IsSound_example :
    ((output : ToolOutput seconds) × (clip.probed ≡ ok output)
      × (output.success ≡ true)
      × Streams seconds expect output.lines
      × Lasts seconds (some (pos 100)) output.lines)
    × (clip.open_error ≡ none)
    × (first_zero_run zero_run_threshold (concat chunks) ≡ none)
    × ((output : ToolOutput seconds) × (clip.demuxed ≡ ok output) × (output.stderr ≡ none))
unfolding verify_media run_probe read_lines check_probe check_streams check_duration usable_duration
    run_demux scan_for_zero_runs scan_reads scan_chunk
verify_media-IsSound_example =
    verify_media-IsSound seconds clip expect chunks (omega arith, (omega arith, tt)) (omega arith)
      refl refl
