-- ===== src/Verify.antt =====
-- crates/hof-core/src/verify.rs: a downloaded file is checked before it is published.
pub mod ZeroRuns
pub mod Scan
pub mod Reads
pub mod Lines
pub mod Accepted
mod Examples
use Prim.Native.String.{String}
use hofvarpnir.Base.{
  get_or, ℕ, suc, ◌+◌, ◌*◌, min, Bool, true, false, not, ◌&&◌, Option, none, some, List, [], ◌∷◌,
  length, ltb, leb, ◌==◌, if◌then◌else◌, ℤ, pos, negsuc, u64_max, Result, ok, err,
}

pub record Expectations : Type 0 where
  pub expect_video : Bool
  pub expect_audio : Bool
  pub duration_secs : Option ℤ

-- The run of zeros that the scan is in, and where it started.
pub record ZeroRun : Type 0 where
  pub run_bytes : ℕ
  pub run_start : ℕ

-- What a chunk leaves: the error, or the run that goes on in the next chunk.
pub data ChunkScan : Type 0 where
  found : (offset run_bytes : ℕ) → ChunkScan
  passed : ZeroRun → ChunkScan

-- A zero byte at `index` of the chunk at `offset`.
abbrev pub count_zero : (offset index : ℕ) → ZeroRun → ZeroRun
count_zero offset index run = record {
  run_bytes = suc run.run_bytes;
  run_start = if run.run_bytes == 0 then min (offset + index) u64_max else run.run_start;
}

-- The inner loop, from `index` of the chunk on. `threshold` is `ZERO_RUN_THRESHOLD`.
unfoldable pub scan_chunk : (threshold offset index : ℕ) → List ℕ → ZeroRun → ChunkScan
scan_chunk threshold offset index [] run = passed run
scan_chunk threshold offset index (byte ∷ bytes) run = elim (byte == 0) [
  | false ↦ scan_chunk threshold offset (suc index) bytes (record run { run_bytes = 0 })
  | true ↦
      let run' = count_zero offset index run in
      elim (leb threshold run'.run_bytes) [
        | true ↦ found run'.run_start run'.run_bytes
        | false ↦ scan_chunk threshold offset (suc index) bytes run'
      ]
]

-- The source's `f64`, with the operations that it uses, and `value.parse::<f64>()`.
pub record Float : Type 1 where
  pub F64 : Type 0
  pub is_positive : F64 → Bool
  pub lt : F64 → F64 → Bool
  pub from_int : ℕ → F64
  pub sub : F64 → F64 → F64
  pub mul : F64 → F64 → F64
  pub larger : F64 → F64 → F64
  pub tolerance_ratio : F64
  pub tolerance_min_secs : F64

abbrev pub zero_run_threshold : ℕ
zero_run_threshold = 4 * 1024 * 1024

module _ (float : Float) where
  open float use {F64}

  pub data VerificationError : Type 0 where
    tool_unavailable : String → String → VerificationError
    timed_out : VerificationError
    unreadable_container : String → VerificationError
    no_duration : Option F64 → VerificationError
    missing_stream : String → VerificationError
    duration_mismatch : F64 → ℕ → VerificationError
    damaged_streams : String → VerificationError
    zero_run : (offset run_bytes : ℕ) → VerificationError
    unreadable : String → VerificationError

  pub record Probe : Type 0 where
    pub duration : Option F64
    pub has_video : Bool
    pub has_audio : Bool

  -- A line of ffprobe's output, as the `match` on it reads it: a duration is one that parses.
  pub data ProbeLine : Type 0 where
    codec_video codec_audio other_line : ProbeLine
    duration_is : F64 → ProbeLine

  -- What a tool leaves: the lines of its output, and the first line of what it says on stderr,
  -- if it says anything.
  pub record ToolOutput : Type 0 where
    pub success : Bool
    pub lines : List ProbeLine
    pub stderr : Option String

  -- `run_tool`: the tool may be missing, or take too long.
  abbrev pub ToolRun : Type 0
  ToolRun = Result VerificationError ToolOutput

  unfoldable pub read_lines : List ProbeLine → Probe → Probe
  read_lines [] probe = probe
  read_lines (codec_video ∷ lines) probe = read_lines lines (record probe { has_video = true })
  read_lines (codec_audio ∷ lines) probe = read_lines lines (record probe { has_audio = true })
  read_lines (duration_is d ∷ lines) probe = read_lines lines (record probe { duration = some d })
  read_lines (other_line ∷ lines) probe = read_lines lines probe

  unfoldable pub run_probe : ToolRun → Result VerificationError Probe
  unfolding read_lines
  run_probe (err e) = err e
  run_probe (ok output) =
      if not output.success
      then err (unreadable_container (get_or output.stderr ""))
      else ok (
          read_lines output.lines
            (record { duration = none; has_video = false; has_audio = false }))

  unfoldable pub run_demux : ToolRun → Result VerificationError (Unit {0})
  run_demux (err e) = err e
  run_demux (ok output) = elim output.stderr [
    | none ↦ ok tt
    | some line ↦ err (damaged_streams line)
  ]

  -- The outer loop over the replies of `read`; an empty one is the end of the file.
  unfoldable pub scan_reads :
      (threshold offset : ℕ)
      → ZeroRun
      → List (Result String (List ℕ))
      → Result VerificationError (Unit {0})
  scan_reads threshold offset run [] = ok tt
  scan_reads threshold offset run (err e ∷ reads) = err (unreadable e)
  scan_reads threshold offset run (ok [] ∷ reads) = ok tt
  scan_reads threshold offset run (ok (byte ∷ bytes) ∷ reads) =
      elim (scan_chunk threshold offset 0 (byte ∷ bytes) run) [
        | found start run_bytes ↦ err (zero_run start run_bytes)
        | passed run' ↦
            scan_reads threshold (min (offset + length (byte ∷ bytes)) u64_max) run' reads
      ]

  -- `scan_for_zero_runs`, for the reply of `open` and those of `read`.
  unfoldable pub scan_for_zero_runs :
      (threshold : ℕ)
      → Option String
      → List (Result String (List ℕ))
      → Result VerificationError (Unit {0})
  scan_for_zero_runs threshold (some e) reads = err (unreadable e)
  scan_for_zero_runs threshold none reads =
      scan_reads threshold 0 (record { run_bytes = 0; run_start = 0 }) reads

  -- What the tools and the file say when they are asked.
  pub record Media : Type 0 where
    pub probed : ToolRun
    pub open_error : Option String
    pub reads : List (Result String (List ℕ))
    pub demuxed : ToolRun

  abbrev expected_secs : Option ℤ → Option ℕ
  expected_secs none = none
  expected_secs (some (negsuc n)) = none
  expected_secs (some (pos n)) = if n == 0 then none else some n

  -- The shortest duration that passes for an expected one.
  abbrev pub shortest_accepted : ℕ → F64
  shortest_accepted expected =
      let expected_f = float.from_int expected in
      float.sub expected_f
        (float.larger (float.mul expected_f float.tolerance_ratio) float.tolerance_min_secs)

  unfoldable pub check_duration : Expectations → F64 → Result VerificationError (Unit {0})
  check_duration expect duration = elim (expected_secs expect.duration_secs) [
    | none ↦ ok tt
    | some expected ↦
        if float.lt duration (shortest_accepted expected)
        then err (duration_mismatch duration expected)
        else ok tt
  ]

  unfoldable pub check_streams : Expectations → Probe → Result VerificationError (Unit {0})
  check_streams expect probe =
      if expect.expect_video && not probe.has_video
      then err (missing_stream "video")
      else if expect.expect_audio && not probe.has_audio
      then err (missing_stream "audio")
      else ok tt

  infixl 5 ◌>>◌
  abbrev pub ◌>>◌ :
      Result VerificationError (Unit {0})
      → Result VerificationError (Unit {0})
      → Result VerificationError (Unit {0})
  err e >> rest = err e
  ok _ >> rest = rest

  unfoldable pub usable_duration : Option F64 → Option F64
  usable_duration none = none
  usable_duration (some d) = if float.is_positive d then some d else none

  unfoldable pub check_probe : Expectations → Probe → Result VerificationError (Unit {0})
  unfolding check_streams check_duration usable_duration
  check_probe expect probe = elim (usable_duration probe.duration) [
    | none ↦ err (no_duration probe.duration)
    | some duration ↦ check_streams expect probe >> check_duration expect duration
  ]

  unfoldable pub verify_media : Media → Expectations → Result VerificationError (Unit {0})
  unfolding check_probe run_probe run_demux scan_for_zero_runs
  verify_media media expect = elim (run_probe media.probed) [
    | err e ↦ err e
    | ok probe ↦
        check_probe expect probe
        >> scan_for_zero_runs zero_run_threshold media.open_error media.reads
        >> run_demux media.demuxed
  ]
