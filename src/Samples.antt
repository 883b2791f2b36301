-- ===== src/Samples.antt =====
-- Concrete inputs for the examples: a calendar, a semaphore, a video with its source and profile,
-- and a supervisor that has just started.
use hofvarpnir.Base.{
  max, ltb, map, ok, List, true, ℕ, ◌+◌, ◌*◌, ◌-◌, ◌≤◌, ◌<◌, min, ◌≡◌, refl, false, Option, none,
  some, [], ◌∷◌, leb, if◌then◌else◌, pos, arith,
}
use hofvarpnir.Clock.{Calendar, from_secs}
use hofvarpnir.Gate.{q1080p}
use hofvarpnir.Verify.{Float, ProbeLine, codec_video, codec_audio, other_line, duration_is, Media}
use hofvarpnir.Settings.{EffectiveSettings, Resolved, compiled}
use hofvarpnir.Drain.{fresh}
use hofvarpnir.Videos.{Video, pending}
use hofvarpnir.Database.{World, Source, Profile}
use hofvarpnir.Semaphore.{SemaphoreApi, Permits, free_one, free_many, taken, remove_first}
use hofvarpnir.Supervisor.State.{Supervisor, Runtime, Env, EnqueueDownload}

abbrev pub last_moment : ℕ
last_moment = from_secs 1_000_000_000_000

abbrev bounded : ℕ → Option ℕ
bounded t = if leb t last_moment then some t else none

pub bounded-in : (t : ℕ) → t ≤ last_moment → bounded t ≡ some t
bounded-in t h = ground arith

pub bounded-past : (t : ℕ) → last_moment < t → bounded t ≡ none
bounded-past t h = ground arith

abbrev pub calendar : Calendar
calendar = record {
  unix_epoch = 0;
  max_utc = last_moment;
  max_duration = last_moment;
  checked_add_signed = λ t d. bounded (t + d);
  from_timestamp_micros = λ micros. bounded (1000 * micros);
  from_std = bounded;
  max_instant = last_moment;
  instant_checked_add = λ t d. bounded (t + d);
  add_in_range = λ t d h. bounded-in (t + d) h;
  add_past_range = λ t d h. bounded-past (t + d) h;
  from_std_in_range = bounded-in;
  from_std_past_range = bounded-past;
  instant_in_range = λ t d h. bounded-in (t + d) h;
  instant_past_range = λ t d h. bounded-past (t + d) h;
}

-- A semaphore that is no more than what can be observed of it.
abbrev pub semaphores : SemaphoreApi
semaphores = record {
  Semaphore = Permits;
  permits = λ p. p;
  create = λ n. record { available = n; holders = []; waiters = [] };
  add_permits = λ p n. free_many n p;
  forget_permits = λ p n. (record p { available = p.available - n }, min n p.available);
  acquire = λ p task. taken task p;
  drop_permit = λ p task. free_one (record p { holders = remove_first task p.holders });
  permits-create = λ n. refl;
  permits-add = λ p n. refl;
  permits-forget = λ p n. refl;
  forget-count = λ p n. refl;
  permits-acquire = λ p task. refl;
  permits-drop = λ p task. refl;
}

abbrev pub video : Video
video = record {
  id = 7;
  platform = "youtube";
  platform_video_id = "abc";
  title = "A video";
  description = none;
  duration_secs = none;
  published_at = some 1000;
  thumbnail_url = none;
  status = pending;
  attempts = pos 0;
  next_retry = none;
  last_error = none;
  file_path = none;
  file_size_bytes = none;
  video_height = none;
  video_codec = none;
  downloaded_at = none;
  created_at = 2000;
  updated_at = 2000;
  skip_quality_gate = false;
}

abbrev pub profile : Profile
profile = record {
  id = 3;
  quality = q1080p;
  quality_wait_hours = none;
  storage_quota_bytes = pos 1000;
  retention_days = none;
  created_at = 0;
}

abbrev pub source : Source
source = record {
  id = 5;
  profile_id = 3;
  url = "https://example.org";
  custom_name = none;
  exclude_from_cleanup = false;
  retention_days = none;
  created_at = 0;
}

abbrev pub request : EnqueueDownload
request = record { video = video; profile = profile; source = source }

abbrev pub world : World
world = record {
  videos = video ∷ [];
  source_videos = (5, 7) ∷ [];
  sources = source ∷ [];
  profiles = profile ∷ [];
  activities = [];
  faults = [];
}

abbrev preset : ℕ → Resolved
preset n = record { value = n; provenance = compiled }

abbrev pub settings : EffectiveSettings
settings = record {
  indexing_paused_until = none;
  downloads_paused_until = none;
  max_concurrent_downloads = preset 3;
  max_indexers_per_tick = preset 5;
  rate_limit_delay = preset (from_secs 5);
  check_interval = preset (from_secs 60);
  cleanup_interval = preset (from_secs 10800);
  drain_timeout = preset (from_secs 1800);
}

abbrev pub env : Env
env = record {
  settings = settings;
  drain = fresh;
  utc_now = from_secs 5000;
  instant_now = from_secs 100;
}

abbrev pub idle_supervisor : Supervisor semaphores
idle_supervisor = record {
  semaphore = record { available = 3; holders = []; waiters = [] };
  permits_total = 3;
  last_download_start = none;
  rate_limit_backoff_multiplier = 1;
  active_downloads = [];
  dispatching = [];
  quality_wait_hours = 24;
  max_attempts = 5;
  db_failures = 0;
  db_retry_after = none;
  last_db_error = none;
}

abbrev pub idle : Runtime semaphores
idle = record { sup = idle_supervisor; world = world; tasks = []; next_task = 0; stopped = [] }

-- Whole seconds, with a tolerance of ten.
abbrev pub seconds : Float
seconds = record {
  F64 = ℕ;
  is_positive = ltb 0;
  lt = ltb;
  from_int = λ n. n;
  sub = λ a b. a - b;
  mul = λ a b. a * b;
  larger = max;
  tolerance_ratio = 0;
  tolerance_min_secs = 10;
}

abbrev pub chunks : List (List ℕ)
chunks = (1 ∷ 0 ∷ 0 ∷ []) ∷ (0 ∷ 0 ∷ 7 ∷ []) ∷ []

abbrev pub announced_lines : List (ProbeLine seconds)
announced_lines = codec_video ∷ codec_audio ∷ other_line ∷ duration_is 95 ∷ []

abbrev pub clip : Media seconds
clip = record {
  probed = ok (record { success = true; lines = announced_lines; stderr = none });
  open_error = none;
  reads = map ok chunks;
  demuxed = ok (record { success = true; lines = []; stderr = none });
}
