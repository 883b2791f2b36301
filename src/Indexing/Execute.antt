-- ===== src/Indexing/Execute.antt =====
-- crates/hof-core/src/actors/source_indexer.rs: a whole run of an indexer, from the listing of the
-- playlist to the source's row. The channel's metadata and the files for Jellyfin are left out.
use hofvarpnir.Base.{
  ℕ, ◌-◌, ◌/◌, Bool, true, false, ◌||◌, Option, none, some, List, [], ◌∷◌, ◌++◌, leb, if◌then◌else◌,
  Result, ok, err, length,
}
use hofvarpnir.Clock.{hours}
use hofvarpnir.Database.{to_string}
use hofvarpnir.Sources.{SourceRow, record_source_indexing_error, update_source_last_indexed}
use hofvarpnir.Text.{Text, codes}
use hofvarpnir.Indexing.{IndexingResult}
use hofvarpnir.Indexing.Walk.{
  EntryOrder, unknown, ascending, descending, unordered, Fetched, metadata, video_unavailable,
  age_restricted_video, rate_limit, other_failure, PlaylistEntry, Filters, Library, Walk,
  walk_entries, determine_order_from_dates, plan_of, EntryOrderPlan, arrange,
}
use Prim.Native.String.{String}

abbrev redetection_days : ℕ
redetection_days = 30

abbrev is_unknown : EntryOrder → Bool
is_unknown unknown = true
is_unknown ascending = false
is_unknown descending = false
is_unknown unordered = false

unfoldable pub should_redetect_order : EntryOrder → Option ℕ → ℕ → Bool
should_redetect_order order detected_at now =
    if is_unknown order
    then false
    else elim detected_at [ none ↦ true | some ts ↦ leb redetection_days ((now - ts) / hours 24) ]

-- The columns of the source that the detection reads and writes.
pub record StoredOrder : Type 0 where
  pub entry_order : EntryOrder
  pub detected_at : Option ℕ

-- What is answered during the run.
pub record Replies : Type 0 where
  pub now : ℕ
  pub listing : Result Text (List PlaylistEntry)
  pub channel_fault : Option Text
  pub first_fetch : Fetched
  pub last_fetch : Fetched
  pub order_fault : Bool
  pub record_fault : Bool
  pub last_indexed_fault : Option String

pub record Indexer : Type 0 where
  pub sources : List SourceRow
  pub stored_order : StoredOrder
  pub library : Library
  pub enqueued : List ℕ

abbrev pub published : Fetched → Option (Option ℕ)
published (metadata m) = some m.published_at
published (video_unavailable e) = none
published (age_restricted_video e) = none
published (rate_limit e) = none
published (other_failure e) = none

abbrev order_of_fetched : Option (Option ℕ) → Option (Option ℕ) → Option EntryOrder
order_of_fetched none last = none
order_of_fetched (some first) none = none
order_of_fetched (some first) (some last) = determine_order_from_dates first last

unfoldable detect_entry_order : Replies → List PlaylistEntry → Option EntryOrder
unfolding determine_order_from_dates
detect_entry_order replies entries =
    if leb 2 (length entries)
    then order_of_fetched (published replies.first_fetch) (published replies.last_fetch)
    else none

abbrev pub no_result : IndexingResult
no_result = record {
  new_videos = 0;
  existing_videos = 0;
  filtered_out = 0;
  filtered_before_cutoff = 0;
  filtered_shorts = 0;
  filtered_livestreams = 0;
  filtered_unavailable = 0;
  filtered_private = 0;
  filtered_other = 0;
  errors = [];
}

abbrev push_error : Text → IndexingResult → IndexingResult
push_error e result = record result { errors = result.errors ++ e ∷ [] }

-- The error of a run is stored as this text; the model keeps one for all of them.
abbrev pub recorded : Replies → ℕ → String → List SourceRow → List SourceRow
recorded replies id error sources =
    if replies.record_fault then sources else (record_source_indexing_error id error sources).1

abbrev needs_detection : Replies → StoredOrder → Bool
needs_detection replies stored =
    is_unknown stored.entry_order
    || should_redetect_order stored.entry_order stored.detected_at replies.now

abbrev persist_order : Replies → Option EntryOrder → StoredOrder → StoredOrder
persist_order replies none stored = stored
persist_order replies (some verdict) stored =
    if replies.order_fault
    then stored
    else record { entry_order = verdict; detected_at = some replies.now }

-- The last write of a run, whatever became of its entries.
unfoldable pub stamp_last_indexed :
    Replies → ℕ → IndexingResult × List SourceRow → IndexingResult × List SourceRow
unfolding update_source_last_indexed
stamp_last_indexed replies id (result, sources) = elim replies.last_indexed_fault [
  | some e ↦ (push_error (codes "Failed to update last_indexed_at: " ++ codes e) result, sources)
  | none ↦ elim ((update_source_last_indexed id replies.now sources).0) [
    | err e ↦ (
      push_error (codes "Failed to update last_indexed_at: " ++ codes (to_string e)) result,
      sources,
    )
    | ok _ ↦ (result, (update_source_last_indexed id replies.now sources).1)
  ]
]

abbrev pub after_limit : Replies → ℕ → Walk → List SourceRow → List SourceRow
after_limit replies id w sources = elim w.limited [
  | none ↦ sources
  | some reason ↦ recorded replies id "rate limited" sources
]

abbrev started_result : Replies → IndexingResult
started_result replies = elim replies.channel_fault [
  | none ↦ no_result
  | some e ↦ push_error (codes "Channel metadata update failed: " ++ e) no_result
]

unfoldable pub order_plan : Replies → StoredOrder → List PlaylistEntry → EntryOrderPlan
unfolding plan_of detect_entry_order should_redetect_order
order_plan replies stored entries =
    let detecting = needs_detection replies stored in
    plan_of (if detecting then detect_entry_order replies entries else none) stored.entry_order
      detecting

abbrev pub first_walk : Replies → Indexer → Walk
first_walk replies s = record {
  result = started_result replies;
  library = s.library;
  consecutive_before_cutoff = 0;
  enqueued = s.enqueued;
  limited = none;
}

abbrev finish_run :
    Replies
    → ℕ
    → EntryOrderPlan
    → Indexer
    → Walk
    → IndexingResult × List SourceRow
    → Indexer × IndexingResult
finish_run replies id plan s w stamped = (
  record {
    sources = stamped.1;
    stored_order = persist_order replies plan.persist s.stored_order;
    library = w.library;
    enqueued = w.enqueued;
  },
  stamped.0,
)

-- A run over the entries that the playlist listed.
unfoldable pub index_entries :
    Filters → ℕ → Replies → List PlaylistEntry → Indexer → Indexer × IndexingResult
unfolding walk_entries order_plan stamp_last_indexed record_source_indexing_error
index_entries filters id replies entries s =
    let plan = order_plan replies s.stored_order entries in
    let w =
      walk_entries filters plan.early_termination (arrange plan.order entries)
        (first_walk replies s) in
    finish_run replies id plan s w
      (stamp_last_indexed replies id (w.result, after_limit replies id w s.sources))

unfoldable pub execute_indexing : Filters → ℕ → Replies → Indexer → Indexer × IndexingResult
unfolding index_entries record_source_indexing_error
execute_indexing filters id replies s = elim replies.listing [
  | err e ↦ (
    record s { sources = recorded replies id "failed to index source" s.sources },
    push_error (codes "Failed to index source: " ++ e) no_result,
  )
  | ok entries ↦ index_entries filters id replies entries s
]
