-- ===== src/Supervisor/FailureRow.antt =====
-- What a reported failure does to the video's row (download_supervisor.rs, `handle_failure`).
use Prim.Native.String.{String}
use hofvarpnir.Supervisor.State.{Supervisor}
