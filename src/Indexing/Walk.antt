-- ===== src/Indexing/Walk.antt =====
-- crates/hof-core/src/actors/source_indexer.rs: one run of an indexer over a playlist. What
-- yt-dlp and the database answer about an entry is given with the entry.
use hofvarpnir.Base.{
  ℕ, suc, ◌/◌, Bool, true, false, not, ◌&&◌, ◌||◌, Option, none, some, List, [], ◌∷◌, ◌++◌, ltb,
  leb, contains, insert, if◌then◌else◌,
}
use hofvarpnir.Clock.{hours}
use hofvarpnir.Text.{Text, codes, equal_text}
use hofvarpnir.Indexing.{IndexingResult, add_one, contains_text, record_filtered}

pub data EntryOrder : Type 0 where
  unknown ascending descending unordered : EntryOrder

-- What the filters read of a video's metadata. `video` stands for the platform and the platform's id
-- that it names, and for the row that has them, of which the table has at most one.
pub record VideoMetadata : Type 0 where
  pub video : ℕ
  pub published_at : Option ℕ
  pub media_type : Option Text
  pub is_live : Bool
  pub was_live : Bool

unfoldable pub is_short : VideoMetadata → Bool
unfolding equal_text
is_short m = elim m.media_type [
  | none ↦ false
  | some media_type ↦ equal_text media_type (codes "short")
]

-- The day of the publication: `date_naive`.
abbrev day_of : Option ℕ → Option ℕ
day_of none = none
day_of (some at) = some (at / hours 24)

unfoldable pub published_on : VideoMetadata → Option ℕ
published_on m = day_of m.published_at

pub data Fetched : Type 0 where
  metadata : VideoMetadata → Fetched
  video_unavailable age_restricted_video rate_limit other_failure : Text → Fetched

-- An entry of the playlist, and what is answered about it. `video` stands for the platform of the
-- playlist and the id of the entry, which the metadata need not name.
pub record PlaylistEntry : Type 0 where
  pub title : Text
  pub video : ℕ
  pub lookup_fault : Option Text
  pub link_fault : Option Text
  pub upsert_fault : Option Text
  pub fetched : Fetched

-- The profile's and the source's settings.
pub record Filters : Type 0 where
  pub include_shorts : Bool
  pub include_livestreams : Bool
  pub cutoff_day : ℕ
  pub to_lowercase : Text → Text
  pub show_day : ℕ → Text

pub data EntryOutcome : Type 0 where
  new_video : ℕ → EntryOutcome
  existing : EntryOutcome
  filtered before_cutoff age_restricted rate_limited failed : Text → EntryOutcome

-- The videos that are stored, and those that are linked to the source.
pub record Library : Type 0 where
  pub stored : List ℕ
  pub linked : List ℕ

unfoldable pub is_likely_short : Filters → PlaylistEntry → Bool
unfolding contains_text
is_likely_short filters entry =
    let title_lower = filters.to_lowercase entry.title in
    contains_text (codes "#shorts") title_lower || contains_text (codes "#short") title_lower

abbrev pub cutoff_reason : Filters → ℕ → Text
cutoff_reason filters day =
    codes "published "
    ++ (filters.show_day day ++ (codes " before cutoff " ++ filters.show_day filters.cutoff_day))

unfoldable pub check_video_filter : Filters → VideoMetadata → Option EntryOutcome
unfolding published_on is_short
check_video_filter filters m =
    if not filters.include_shorts && is_short m
    then some (filtered (codes "short video excluded"))
    else if not filters.include_livestreams && (m.is_live || m.was_live)
    then some (filtered (codes "livestream excluded"))
    else elim (published_on m) [
      | none ↦ none
      | some day ↦
          if ltb day filters.cutoff_day
          then some (before_cutoff (cutoff_reason filters day))
          else none
    ]

abbrev pub link_video : PlaylistEntry → ℕ → EntryOutcome → Library → EntryOutcome × Library
link_video entry video outcome library = elim entry.link_fault [
  | some e ↦ (failed (codes "Failed to link video: " ++ e), library)
  | none ↦ (outcome, record library { linked = insert video library.linked })
]

-- The upsert answers with the row of the metadata's video, also where there is one already.
unfoldable pub create_video_from_metadata :
    PlaylistEntry → VideoMetadata → Library → EntryOutcome × Library
create_video_from_metadata entry m library = elim entry.upsert_fault [
  | some e ↦ (failed (codes "Failed to create video: " ++ e), library)
  | none ↦
      link_video entry m.video (new_video m.video)
        (record library { stored = insert m.video library.stored })
]

unfoldable pub create_new_video : Filters → PlaylistEntry → Library → EntryOutcome × Library
unfolding check_video_filter create_video_from_metadata
create_new_video filters entry library = elim entry.fetched [
  | video_unavailable e ↦ (filtered (codes "unavailable: " ++ e), library)
  | age_restricted_video e ↦ (age_restricted (codes "age-restricted: " ++ e), library)
  | rate_limit e ↦ (rate_limited (codes "rate limited: " ++ e), library)
  | other_failure e ↦ (filtered (codes "metadata fetch failed: " ++ e), library)
  | metadata m ↦ elim (check_video_filter filters m) [
    | some outcome ↦ (outcome, library)
    | none ↦ create_video_from_metadata entry m library
  ]
]

unfoldable pub process_entry : Filters → PlaylistEntry → Library → EntryOutcome × Library
unfolding is_likely_short create_new_video
process_entry filters entry library =
    if not filters.include_shorts && is_likely_short filters entry
    then (filtered (codes "shorts excluded"), library)
    else elim entry.lookup_fault [
      | some e ↦ (failed (codes "Database error: " ++ e), library)
      | none ↦
          if contains library.stored entry.video
          then link_video entry entry.video existing library
          else create_new_video filters entry library
    ]

-- The variables of the walk: `enqueued` are the new videos that were handed on, newest first,
-- `limited` is the reason of a rate limit, which was recorded on the source's row.
pub record Walk : Type 0 where
  pub result : IndexingResult
  pub library : Library
  pub consecutive_before_cutoff : ℕ
  pub enqueued : List ℕ
  pub limited : Option Text

abbrev pub max_consecutive_before_cutoff : ℕ
max_consecutive_before_cutoff = 3

pub data Next : Type 0 where
  go_on stop_walk : Walk → Next

abbrev count_filtered : Filters → Text → Walk → Walk
count_filtered filters reason w = record w {
  result = record_filtered filters.to_lowercase reason w.result;
}

abbrev reset_consecutive : Walk → Walk
reset_consecutive w = record w { consecutive_before_cutoff = 0 }

-- The body of the loop, for the outcome of the entry.
unfoldable pub take_outcome : Filters → Bool → EntryOutcome → Walk → Next
unfolding record_filtered
take_outcome filters early (new_video video) w = go_on (
    reset_consecutive (record w {
      result = record w.result { new_videos = add_one w.result.new_videos };
      enqueued = video ∷ w.enqueued;
    }))
take_outcome filters early existing w = go_on (
    reset_consecutive (record w {
      result = record w.result { existing_videos = add_one w.result.existing_videos };
    }))
take_outcome filters early (filtered reason) w =
    go_on (reset_consecutive (count_filtered filters reason w))
take_outcome filters early (before_cutoff reason) w =
    let w' = record (count_filtered filters reason w) {
      consecutive_before_cutoff = suc w.consecutive_before_cutoff;
    } in
    if early && leb max_consecutive_before_cutoff w'.consecutive_before_cutoff
    then stop_walk w'
    else go_on w'
take_outcome filters early (age_restricted reason) w =
    go_on (reset_consecutive (count_filtered filters reason w))
take_outcome filters early (rate_limited reason) w = stop_walk (record w {
  result = record w.result { errors = w.result.errors ++ reason ∷ [] };
  limited = some reason;
})
take_outcome filters early (failed e) w = go_on (
    reset_consecutive
      (record w { result = record w.result { errors = w.result.errors ++ e ∷ [] } }))

abbrev pub step_entry : Filters → Bool → PlaylistEntry → Walk → Next
step_entry filters early entry w =
    take_outcome filters early (process_entry filters entry w.library).0
      (record w { library = (process_entry filters entry w.library).1 })

unfoldable pub walk_entries : Filters → Bool → List PlaylistEntry → Walk → Walk
unfolding take_outcome process_entry
walk_entries filters early [] w = w
walk_entries filters early (entry ∷ entries) w = elim (step_entry filters early entry w) [
  | stop_walk w' ↦ w'
  | go_on w' ↦ walk_entries filters early entries w'
]

unfoldable pub determine_order_from_dates : (first last : Option ℕ) → Option EntryOrder
determine_order_from_dates (some first) (some last) =
    if ltb first last then some ascending else if ltb last first then some descending else none
determine_order_from_dates none last = none
determine_order_from_dates (some first) none = none

pub record EntryOrderPlan : Type 0 where
  pub order : Option EntryOrder
  pub persist : Option EntryOrder
  pub early_termination : Bool

abbrev is_ordered : Option EntryOrder → Bool
is_ordered none = false
is_ordered (some unknown) = false
is_ordered (some ascending) = true
is_ordered (some descending) = true
is_ordered (some unordered) = false

unfoldable pub plan_of : Option EntryOrder → EntryOrder → Bool → EntryOrderPlan
plan_of detected stored ran_detection =
    let order = if ran_detection then detected else some stored in
    record {
      order = order;
      persist = if ran_detection then detected else none;
      early_termination = is_ordered order;
    }

abbrev reverse_onto {ℓ} : {A : Type ℓ} → List A → List A → List A
reverse_onto [] ys = ys
reverse_onto (x ∷ xs) ys = reverse_onto xs (x ∷ ys)

-- The entries in the order of the walk.
abbrev pub arrange : Option EntryOrder → List PlaylistEntry → List PlaylistEntry
arrange none entries = entries
arrange (some unknown) entries = entries
arrange (some ascending) entries = reverse_onto entries []
arrange (some descending) entries = entries
arrange (some unordered) entries = entries
