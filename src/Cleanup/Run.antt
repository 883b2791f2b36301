-- ===== src/Cleanup/Run.antt =====
-- crates/hof-core/src/actors/cleanup.rs: one run of the cleanup, on the database and on the files.
use Prim.Native.String.{String}
use text.Mathlib.Text.{◌==◌ as ◌=s◌}
use hofvarpnir.Base.{
  ℕ, suc, ◌+◌, Bool, true, false, not, ◌&&◌, Option, none, some, List, [], ◌∷◌, ◌++◌, leb,
  if◌then◌else◌, ℤ, pos, leb_ℤ, ◌+ℤ◌, ◌-ℤ◌, sort_by, filter_if, contains, insert, get_or, Result,
  ok, err,
}
use hofvarpnir.Videos.{Video, cleaned}
use hofvarpnir.Database.{
  World, Db, DbError, Source, Profile, update_video_status, log_and_broadcast, video_cleaned,
}
use hofvarpnir.Cleanup.{
  is_completed, list_videos_past_retention, list_profiles, list_sources_for_profile,
  list_videos_for_source,
}

-- The files that there are.
pub record Cleaner : Type 0 where
  pub world : World
  pub exists : String → Bool

pub data CleanupError : Type 0 where
  database : DbError → CleanupError
  not_deleted : String → CleanupError

-- `color_eyre::Result`, over the state.
abbrev pub Cleaning : Type 0 → Type 0
Cleaning A = Cleaner → Result CleanupError A × Cleaner

abbrev pub pure : {A : Type 0} → A → Cleaning A
pure a s = (ok a, s)

abbrev pub go_on :
    {A B : Type 0}
    → Result CleanupError A × Cleaner
    → (A → Cleaning B)
    → Result CleanupError B × Cleaner
go_on (err e, s) f = (err e, s)
go_on (ok a, s) f = f a s

-- `?`.
infixl 5 ◌>>=◌
abbrev pub ◌>>=◌ : {A B : Type 0} → Cleaning A → (A → Cleaning B) → Cleaning B
◌>>=◌ m f s = go_on (m s) f

abbrev pub answer :
    {A : Type 0} → Cleaner → Result DbError A × World → Result CleanupError A × Cleaner
answer s (err e, w) = (err (database e), record s { world = w })
answer s (ok a, w) = (ok a, record s { world = w })

abbrev pub run_query : {A : Type 0} → Db A → Cleaning A
run_query q s = answer s (q s.world)

-- `stuck` are the files that cannot be deleted.
unfoldable pub remove_video_file : (stuck : String → Bool) → Option String → Cleaning (Unit {0})
remove_video_file stuck none s = (ok tt, s)
remove_video_file stuck (some path) s =
    if not (s.exists path)
    then (ok tt, s)
    else if stuck path
    then (err (not_deleted path), s)
    else (ok tt, record s { exists = λ other. if other =s path then false else s.exists other })

abbrev pub log_cleaned : ℕ → Cleaning (Unit {0})
log_cleaned id s = (ok tt, record s { world = log_and_broadcast video_cleaned id s.world })

unfoldable pub clean_video : (stuck : String → Bool) → ℕ → Video → Cleaning ℤ
unfolding remove_video_file update_video_status log_and_broadcast
clean_video stuck now v = do
  _ ← remove_video_file stuck v.file_path
  _ ← run_query (update_video_status now v.id cleaned)
  _ ← log_cleaned v.id
  pure (get_or v.file_size_bytes (pos 0))

-- How many videos were cleaned, and how many bytes that freed.
pub record Cleaned : Type 0 where
  pub count : ℕ
  pub bytes : ℤ

abbrev pub nothing : Cleaned
nothing = record { count = 0; bytes = pos 0 }

abbrev pub tally : Cleaned → Result CleanupError ℤ → Cleaned
tally c (err e) = c
tally c (ok bytes) = record { count = suc c.count; bytes = c.bytes +ℤ bytes }

-- The loop of `cleanup_retention`: a video that cannot be cleaned is passed over.
unfoldable pub clean_each : (stuck : String → Bool) → ℕ → List Video → Cleaned → Cleaning Cleaned
unfolding clean_video
clean_each stuck now [] c s = (ok c, s)
clean_each stuck now (v ∷ vs) c s =
    let (reply, s') = clean_video stuck now v s in clean_each stuck now vs (tally c reply) s'

unfoldable pub cleanup_retention : (stuck : String → Bool) → Option ℤ → ℕ → Cleaning Cleaned
unfolding list_videos_past_retention clean_each
cleanup_retention stuck global now = do
  videos ← run_query (list_videos_past_retention global now)
  clean_each stuck now videos nothing

-- The videos that were counted, and the bytes of those that are completed.
pub record Usage : Type 0 where
  pub counted : List ℕ
  pub total_bytes : ℤ

abbrev pub count_video : Video → Usage → Usage
count_video v u = if contains u.counted v.id then u else record {
  counted = insert v.id u.counted;
  total_bytes =
      if is_completed v.status
      then u.total_bytes +ℤ get_or v.file_size_bytes (pos 0)
      else u.total_bytes;
}

unfoldable pub count_videos : List Video → Usage → Usage
count_videos [] u = u
count_videos (v ∷ vs) u = count_videos vs (count_video v u)

unfoldable pub usage_of : List Source → Usage → Cleaning Usage
unfolding list_videos_for_source count_videos
usage_of [] u = pure u
usage_of (source ∷ sources) u = do
  videos ← run_query (list_videos_for_source source.id)
  usage_of sources (count_videos videos u)

unfoldable pub calculate_profile_usage : ℕ → Cleaning ℤ
unfolding list_sources_for_profile usage_of
calculate_profile_usage profile = do
  sources ← run_query (list_sources_for_profile profile)
  usage ← usage_of sources (record { counted = []; total_bytes = pos 0 })
  pure usage.total_bytes

unfoldable pub insert_ids : List Video → List ℕ → List ℕ
insert_ids [] ids = ids
insert_ids (v ∷ vs) ids = insert_ids vs (insert v.id ids)

-- The ids of the videos of the sources that are excluded.
unfoldable pub protected_ids : List Source → List ℕ → Cleaning (List ℕ)
unfolding list_videos_for_source insert_ids
protected_ids [] ids = pure ids
protected_ids (source ∷ sources) ids = do
  videos ← run_query (list_videos_for_source source.id)
  protected_ids sources (insert_ids videos ids)

-- The videos to evict so far, the latest first, and those that were seen.
pub record Candidates : Type 0 where
  pub videos : List Video
  pub seen : List ℕ

abbrev pub add_candidate : List ℕ → Video → Candidates → Candidates
add_candidate protected v c = if contains c.seen v.id then c else record {
  videos =
      if not (contains protected v.id) && is_completed v.status then v ∷ c.videos else c.videos;
  seen = insert v.id c.seen;
}

unfoldable pub add_candidates : List ℕ → List Video → Candidates → Candidates
add_candidates protected [] c = c
add_candidates protected (v ∷ vs) c = add_candidates protected vs (add_candidate protected v c)

unfoldable pub candidates_of : List ℕ → List Source → Candidates → Cleaning Candidates
unfolding list_videos_for_source add_candidates
candidates_of protected [] c = pure c
candidates_of protected (source ∷ sources) c = do
  videos ← run_query (list_videos_for_source source.id)
  candidates_of protected sources (add_candidates protected videos c)

abbrev pub older : Video → Video → Bool
older a b = leb (get_or a.downloaded_at a.created_at) (get_or b.downloaded_at b.created_at)

abbrev pub reverse_onto {ℓ} : {A : Type ℓ} → List A → List A → List A
reverse_onto [] ys = ys
reverse_onto (x ∷ xs) ys = reverse_onto xs (x ∷ ys)

unfoldable pub get_profile_videos_by_age : ℕ → Cleaning (List Video)
unfolding list_sources_for_profile protected_ids candidates_of
get_profile_videos_by_age profile = do
  sources ← run_query (list_sources_for_profile profile)
  protected ← protected_ids (filter_if (λ (s : Source). s.exclude_from_cleanup) sources) []
  c ← candidates_of protected sources (record { videos = []; seen = [] })
  pure (sort_by older (reverse_onto c.videos []))

-- The loop of `enforce_quotas` over the videos of one profile.
unfoldable pub evict :
    (stuck : String → Bool)
    → ℕ
    → (over_quota : ℤ) → List Video
    → (freed : Cleaned) → Cleaning Cleaned
unfolding clean_video
evict stuck now over_quota [] freed s = (ok freed, s)
evict stuck now over_quota (v ∷ vs) freed s = elim (leb_ℤ over_quota freed.bytes) [
  | true ↦ (ok freed, s)
  | false ↦
      let (reply, s') = clean_video stuck now v s in
      evict stuck now over_quota vs (tally freed reply) s'
]

abbrev pub add_cleaned : Cleaned → Cleaned → Cleaned
add_cleaned a b = record { count = a.count + b.count; bytes = a.bytes +ℤ b.bytes }

unfoldable pub enforce_quota : (stuck : String → Bool) → ℕ → Profile → Cleaning Cleaned
unfolding calculate_profile_usage get_profile_videos_by_age evict
enforce_quota stuck now profile = calculate_profile_usage profile.id >>= λ usage.
    if leb_ℤ usage profile.storage_quota_bytes
    then pure nothing
    else (get_profile_videos_by_age profile.id >>= λ videos.
        evict stuck now (usage -ℤ profile.storage_quota_bytes) videos nothing)

unfoldable pub enforce_each :
    (stuck : String → Bool) → ℕ → List Profile → Cleaned → Cleaning Cleaned
unfolding enforce_quota
enforce_each stuck now [] total = pure total
enforce_each stuck now (profile ∷ profiles) total = do
  freed ← enforce_quota stuck now profile
  enforce_each stuck now profiles (add_cleaned total freed)

unfoldable pub enforce_quotas : (stuck : String → Bool) → ℕ → Cleaning Cleaned
unfolding list_profiles enforce_each
enforce_quotas stuck now = do
  profiles ← run_query list_profiles
  enforce_each stuck now profiles nothing

-- `CleanupResult`, less the temporary files.
pub record CleanupResult : Type 0 where
  pub retention_cleaned : ℕ
  pub quota_cleaned : ℕ
  pub bytes_freed : ℤ
  pub errors : List CleanupError

abbrev pub after_retention : Result CleanupError Cleaned → CleanupResult
after_retention (err e) = record {
  retention_cleaned = 0;
  quota_cleaned = 0;
  bytes_freed = pos 0;
  errors = e ∷ [];
}
after_retention (ok c) = record {
  retention_cleaned = c.count;
  quota_cleaned = 0;
  bytes_freed = c.bytes;
  errors = [];
}

abbrev pub after_quotas : CleanupResult → Result CleanupError Cleaned → CleanupResult
after_quotas r (err e) = record r { errors = r.errors ++ e ∷ [] }
after_quotas r (ok c) = record r { quota_cleaned = c.count; bytes_freed = r.bytes_freed +ℤ c.bytes }

-- The first two phases of the handler of `RunCleanup`.
unfoldable pub run_cleanup :
    (stuck : String → Bool) → Option ℤ → ℕ → Cleaner → CleanupResult × Cleaner
unfolding cleanup_retention enforce_quotas
run_cleanup stuck global now s =
    let (retention, s') = cleanup_retention stuck global now s in
    let (quotas, s'') = enforce_quotas stuck now s' in
    (after_quotas (after_retention retention) quotas, s'')
