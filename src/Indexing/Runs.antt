-- ===== src/Indexing/Runs.antt =====
-- Examples of a run of an indexer.
use hofvarpnir.Base.{
  ℕ, ◌*◌, ◌≤◌, ◌≡◌, refl, ap, sym, ◌∙◌, true, false, none, some, pos, List, [], ◌∷◌, ok, arith,
}
use hofvarpnir.Clock.{hours}
use hofvarpnir.Text.{codes, strip_prefix}
use hofvarpnir.Sources.{SourceRow, record_source_indexing_error, update_source_last_indexed}
use hofvarpnir.Indexing.{contains_text, record_filtered}
use hofvarpnir.Indexing.Walk.{
  VideoMetadata, published_on, Fetched, metadata, rate_limit, PlaylistEntry, Filters, Walk,
  descending, walk_entries, process_entry, is_likely_short, create_new_video, take_outcome, plan_of,
  check_video_filter, is_short, create_video_from_metadata,
}
use hofvarpnir.Indexing.Execute.{
  Replies, Indexer, no_result, execute_indexing, index_entries, order_plan, should_redetect_order,
  stamp_last_indexed,
}
use hofvarpnir.Indexing.Early.{PublishedBy, IsNewestFirst, walk_entries-early}
use hofvarpnir.Indexing.Enqueued.{IsNamed, IsOnce, walk_entries-IsOnce}
use hofvarpnir.Indexing.Cleared.{IsCleared, execute_indexing-IsCleared}

abbrev on_day : ℕ → ℕ → VideoMetadata
on_day id day = record {
  video = id;
  published_at = some (hours 24 * day);
  media_type = none;
  is_live = false;
  was_live = false;
}

abbrev entry : ℕ → Fetched → PlaylistEntry
entry id fetched = record {
  title = codes "A video";
  video = id;
  lookup_fault = none;
  link_fault = none;
  upsert_fault = none;
  fetched = fetched;
}

abbrev filters : Filters
filters = record {
  include_shorts = false;
  include_livestreams = false;
  cutoff_day = 10;
  to_lowercase = λ s. s;
  show_day = λ d. [];
}

-- One video after the cutoff day, and two before it.
abbrev playlist : List PlaylistEntry
playlist =
    entry 1 (metadata (on_day 1 12))
    ∷ entry 2 (metadata (on_day 2 8))
    ∷ entry 3 (metadata (on_day 3 7))
    ∷ []

abbrev start : Walk
start = record {
  result = no_result;
  library = record { stored = []; linked = [] };
  consecutive_before_cutoff = 0;
  enqueued = [];
  limited = none;
}

metadata_inj : {m n : VideoMetadata} → metadata m ≡ metadata n → m ≡ n
metadata_inj h = cc

some_inj : {a b : ℕ} → some a ≡ some b → a ≡ b
some_inj h = cc

-- Entries of two days that are not in the wrong order.
by_day :
    (id d : ℕ) (earlier later m : VideoMetadata) (a b : ℕ)
    → published_on earlier ≡ some a
    → published_on later ≡ some b
    → a ≤ b
    → metadata later ≡ metadata m
    → published_on m ≡ some d
    → PublishedBy d (entry id (metadata earlier))
by_day id d earlier later m a b first last le is dated n other =
    let same = some_inj (sym last ∙ ap published_on (metadata_inj is) ∙ dated) in
    (a, sym (ap published_on (metadata_inj other)) ∙ first, omega (arith, le, same))

dated_8 : published_on (on_day 2 8) ≡ some 8
unfolding published_on
dated_8 = refl

dated_7 : published_on (on_day 3 7) ≡ some 7
unfolding published_on
dated_7 = refl

dated_12 : published_on (on_day 1 12) ≡ some 12
unfolding published_on
dated_12 = refl

playlist-IsNewestFirst : IsNewestFirst playlist
playlist-IsNewestFirst = (
  (λ m d is dated. (
    by_day 2 d (on_day 2 8) (on_day 1 12) m 8 12 dated_8 dated_12 (omega arith) is dated,
    (by_day 3 d (on_day 3 7) (on_day 1 12) m 7 12 dated_7 dated_12 (omega arith) is dated, tt),
  )),
  (
    (λ m d is dated.
        (by_day 3 d (on_day 3 7) (on_day 2 8) m 7 8 dated_7 dated_8 (omega arith) is dated, tt)),
    ((λ m d is dated. tt), tt),
  ),
)

walk_entries-early_example :
    (walk_entries filters true playlist start).enqueued
    ≡ (walk_entries filters false playlist start).enqueued
walk_entries-early_example = walk_entries-early filters playlist start playlist-IsNewestFirst

-- The playlist lists a video twice.
abbrev twice : List PlaylistEntry
twice = entry 1 (metadata (on_day 1 12)) ∷ playlist

named : (id day : ℕ) → IsNamed (entry id (metadata (on_day id day)))
named id day m is = sym (ap (λ (n : VideoMetadata). n.video) (metadata_inj is))

walk_entries-IsOnce_example : IsOnce (walk_entries filters true twice start)
walk_entries-IsOnce_example =
    walk_entries-IsOnce filters true twice start
      (named 1 12, (named 1 12, (named 2 8, (named 3 7, tt))))
      (tt, (λ v here. absurd cc), (λ v here. absurd cc))

enqueued_once : (walk_entries filters true twice start).enqueued ≡ 1 ∷ []
unfolding walk_entries process_entry is_likely_short contains_text strip_prefix create_new_video
    check_video_filter is_short published_on create_video_from_metadata take_outcome record_filtered
enqueued_once = refl

-- A playlist of another site than its video: the video is stored and is handed on again.
abbrev elsewhere : List PlaylistEntry
elsewhere = entry 1 (metadata (on_day 2 12)) ∷ []

abbrev indexed_before : Walk
indexed_before = record start { library = record { stored = 2 ∷ []; linked = 2 ∷ [] } }

stored_again : (walk_entries filters true elsewhere indexed_before).enqueued ≡ 2 ∷ []
unfolding walk_entries process_entry is_likely_short contains_text strip_prefix create_new_video
    check_video_filter is_short published_on create_video_from_metadata take_outcome record_filtered
stored_again = refl

abbrev source : SourceRow
source = record {
  id = 4;
  profile_id = 3;
  enabled = true;
  index_frequency_secs = pos 3600;
  last_indexed_at = none;
  last_error = none;
  index_error_count = pos 2;
}

-- yt-dlp is rate limited at the first entry.
abbrev replies : Replies
replies = record {
  now = 5000;
  listing = ok (entry 1 (rate_limit (codes "429")) ∷ []);
  channel_fault = none;
  first_fetch = rate_limit (codes "429");
  last_fetch = rate_limit (codes "429");
  order_fault = false;
  record_fault = false;
  last_indexed_fault = none;
}

abbrev indexer : Indexer
indexer = record {
  sources = source ∷ [];
  stored_order = record { entry_order = descending; detected_at = some 4000 };
  library = record { stored = []; linked = [] };
  enqueued = [];
}

execute_indexing-IsCleared_example :
    IsCleared 4 5000 (execute_indexing filters 4 replies indexer).0.sources
execute_indexing-IsCleared_example =
    execute_indexing-IsCleared filters 4 replies (entry 1 (rate_limit (codes "429")) ∷ []) indexer
      refl refl refl

limited_once :
    (execute_indexing filters 4 replies indexer).1.errors ≡ codes "rate limited: 429" ∷ []
unfolding execute_indexing index_entries order_plan plan_of should_redetect_order walk_entries
    process_entry is_likely_short contains_text strip_prefix create_new_video take_outcome
    stamp_last_indexed record_source_indexing_error update_source_last_indexed
limited_once = refl
