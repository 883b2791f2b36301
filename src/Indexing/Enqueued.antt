-- ===== src/Indexing/Enqueued.antt =====
-- The videos that a walk hands on (actors/source_indexer.rs).
use hofvarpnir.Base.{
  ℕ, ◌≡◌, refl, subst, Bool, true, false, Bool-cases, inl, inr, not, ◌&&◌, Option, none, some,
  Option-cases, All, List, [], ◌∷◌, contains, insert, contains-insert, leb, ltb, suc, ◌==◌, arith,
  ◌||◌,
}
use hofvarpnir.Indexing.Walk.{
  VideoMetadata, is_short, published_on, Fetched, metadata, video_unavailable, age_restricted_video,
  rate_limit, other_failure, PlaylistEntry, Filters, EntryOutcome, new_video, existing, filtered,
  before_cutoff, age_restricted, rate_limited, failed, Library, is_likely_short, check_video_filter,
  link_video, create_video_from_metadata, create_new_video, process_entry,
  max_consecutive_before_cutoff, Walk, Next, go_on, stop_walk, take_outcome, step_entry,
  walk_entries,
}

-- Nothing is removed.
abbrev Grows : List ℕ → List ℕ → Type 0
Grows xs ys = (v : ℕ) → contains xs v ≡ true → contains ys v ≡ true

Grows-insert : (a : ℕ) (xs : List ℕ) → Grows xs (insert a xs)
Grows-insert a xs v here = ground (arith, here, contains-insert a v xs)

here_now : (a : ℕ) (xs : List ℕ) → contains (insert a xs) a ≡ true
here_now a xs = ground (arith, contains-insert a a xs)

-- The metadata of an entry, if there is any, names the video that the entry names.
abbrev pub IsNamed : PlaylistEntry → Type 0
IsNamed entry = (m : VideoMetadata) → entry.fetched ≡ metadata m → m.video ≡ entry.video

-- A new video is stored and linked, and was not stored before.
abbrev Made : Library → Library → EntryOutcome → Type 0
Made before after (new_video v) =
    (contains before.stored v ≡ false)
    × (contains after.stored v ≡ true)
    × (contains after.linked v ≡ true)
Made before after existing = Unit
Made before after (filtered reason) = Unit
Made before after (before_cutoff reason) = Unit
Made before after (age_restricted reason) = Unit
Made before after (rate_limited reason) = Unit
Made before after (failed e) = Unit

abbrev Answered : Library → EntryOutcome × Library → Type 0
Answered before (outcome, after) =
    Grows before.stored after.stored × Grows before.linked after.linked × Made before after outcome

-- What is answered for a reason changes nothing.
unchanged :
    (library : Library) (outcome : EntryOutcome)
    → Made library library outcome
    → Answered library (outcome, library)
unchanged library outcome made = ((λ v here. here), (λ v here. here), made)

create_video-Answered :
    (entry : PlaylistEntry) (m : VideoMetadata) (library : Library)
    → contains library.stored m.video ≡ false
    → Answered library (create_video_from_metadata entry m library)
unfolding create_video_from_metadata
create_video-Answered entry m library absent = elim (Option-cases entry.upsert_fault) [
  | inr (e, fault) ↦ rw (fault, create_video_from_metadata) ((λ v here. here), (λ v here. here), tt)
  | inl stored ↦ elim (Option-cases entry.link_fault) [
    | inr (e, fault) ↦
        rw (stored, fault, create_video_from_metadata)
          (Grows-insert m.video library.stored, (λ v here. here), tt)
    | inl linked ↦
        rw (stored, linked, create_video_from_metadata)
          (
            Grows-insert m.video library.stored,
            Grows-insert m.video library.linked,
            (absent, here_now m.video library.stored, here_now m.video library.linked),
          )
  ]
]

link_existing-Answered :
    (entry : PlaylistEntry) (library : Library)
    → Answered library (link_video entry entry.video existing library)
link_existing-Answered entry library = elim (Option-cases entry.link_fault) [
  | inr (e, fault) ↦ rw (fault) ((λ v here. here), (λ v here. here), tt)
  | inl linked ↦ rw (linked) ((λ v here. here), Grows-insert entry.video library.linked, tt)
]

-- The filter makes no new video.
abbrev Harmless : Library → Option EntryOutcome → Type 0
Harmless library none = Unit
Harmless library (some outcome) = Made library library outcome

check_video_filter-Harmless :
    (filters : Filters) (m : VideoMetadata) (library : Library)
    → Harmless library (check_video_filter filters m)
unfolding check_video_filter
check_video_filter-Harmless filters m library =
    elim (Bool-cases (not filters.include_shorts && is_short m)) [
      | inl short ↦ rw (short, check_video_filter) tt
      | inr long ↦
          elim (Bool-cases (not filters.include_livestreams && (m.is_live || m.was_live))) [
            | inl live ↦ rw (long, live, check_video_filter) tt
            | inr not_live ↦ elim (Option-cases (published_on m)) [
              | inl undated ↦ rw (long, not_live, undated, check_video_filter) tt
              | inr (day, dated) ↦ elim (Bool-cases (ltb day filters.cutoff_day)) [
                | inl early ↦ rw (long, not_live, dated, early, check_video_filter) tt
                | inr late ↦ rw (long, not_live, dated, late, check_video_filter) tt
              ]
            ]
          ]
    ]

create_new_video-Answered :
    (filters : Filters) (entry : PlaylistEntry) (library : Library)
    → IsNamed entry
    → contains library.stored entry.video ≡ false
    → Answered library (create_new_video filters entry library)
unfolding create_new_video
create_new_video-Answered filters entry library named absent = go entry.fetched refl
  where
    checked :
        (m : VideoMetadata) (o : Option EntryOutcome)
        → entry.fetched ≡ metadata m
        → check_video_filter filters m ≡ o
        → Answered library (create_new_video filters entry library)
    checked m (some outcome) is check =
        rw (is, check, create_new_video)
          (unchanged library outcome
            (subst (Harmless library) check (check_video_filter-Harmless filters m library)))
    checked m none is check =
        rw (is, check, create_new_video)
          (create_video-Answered entry m library (rw (named m is) absent))

    go :
        (fetched : Fetched)
        → entry.fetched ≡ fetched
        → Answered library (create_new_video filters entry library)
    go (metadata m) is = checked m (check_video_filter filters m) is refl
    go (video_unavailable e) is = rw (is, create_new_video) ((λ v here. here), (λ v here. here), tt)
    go (age_restricted_video e) is =
        rw (is, create_new_video) ((λ v here. here), (λ v here. here), tt)
    go (rate_limit e) is = rw (is, create_new_video) ((λ v here. here), (λ v here. here), tt)
    go (other_failure e) is = rw (is, create_new_video) ((λ v here. here), (λ v here. here), tt)

process_entry-Answered :
    (filters : Filters) (entry : PlaylistEntry) (library : Library)
    → IsNamed entry
    → Answered library (process_entry filters entry library)
unfolding process_entry
process_entry-Answered filters entry library named =
    elim (Bool-cases (not filters.include_shorts && is_likely_short filters entry)) [
      | inl short ↦ rw (short, process_entry) ((λ v here. here), (λ v here. here), tt)
      | inr long ↦ elim (Option-cases entry.lookup_fault) [
        | inr (e, fault) ↦ rw (long, fault, process_entry) ((λ v here. here), (λ v here. here), tt)
        | inl looked ↦ elim (Bool-cases (contains library.stored entry.video)) [
          | inl known ↦
              rw (long, looked, known, process_entry) (link_existing-Answered entry library)
          | inr new ↦
              rw (long, looked, new, process_entry)
                (create_new_video-Answered filters entry library named new)
        ]
      ]
    ]

abbrev IsDistinct : List ℕ → Type 0
IsDistinct [] = Unit
IsDistinct (v ∷ vs) = (contains vs v ≡ false) × IsDistinct vs

-- The videos that were handed on are stored, linked to the source, and no two are the same.
abbrev pub IsOnce : Walk → Type 0
IsOnce w =
    IsDistinct w.enqueued × Grows w.enqueued w.library.stored × Grows w.enqueued w.library.linked

grown :
    (w : Walk) (after : Library)
    → IsOnce w
    → Grows w.library.stored after.stored
    → Grows w.library.linked after.linked
    → IsOnce (record w { library = after })
grown w after (once, stored, linked) more also =
    (once, (λ v here. more v (stored v here)), (λ v here. also v (linked v here)))

handed_on :
    (v : ℕ) (w : Walk) (after : Library)
    → IsOnce w
    → Answered w.library (new_video v, after)
    → IsOnce (record w { library = after; enqueued = v ∷ w.enqueued })
handed_on v w after (once, stored, linked) (more, also, (absent, in_stored, in_linked)) = (
  (fresh (contains w.enqueued v) refl, once),
  (λ u here. kept u after.stored in_stored (λ there. more u (stored u there)) here),
  (λ u here. kept u after.linked in_linked (λ there. also u (linked u there)) here),
)
  where
    fresh : (b : Bool) → contains w.enqueued v ≡ b → contains w.enqueued v ≡ false
    fresh false is = is
    fresh true is = absurd (ground (arith, stored v is, absent))

    kept :
        (u : ℕ) (xs : List ℕ)
        → contains xs v ≡ true
        → (contains w.enqueued u ≡ true → contains xs u ≡ true)
        → contains (v ∷ w.enqueued) u ≡ true
        → contains xs u ≡ true
    kept u xs now before here = elim (Bool-cases (v == u)) [
      | inl same ↦ ground (arith, same, now)
      | inr other ↦ before (ground (arith, here, other))
    ]

abbrev NextIsOnce : Next → Type 0
NextIsOnce (go_on w) = IsOnce w
NextIsOnce (stop_walk w) = IsOnce w

take_outcome-IsOnce :
    (filters : Filters) (early : Bool) (outcome : EntryOutcome) (after : Library) (w : Walk)
    → IsOnce w
    → Answered w.library (outcome, after)
    → NextIsOnce (take_outcome filters early outcome (record w { library = after }))
unfolding take_outcome
take_outcome-IsOnce filters early (new_video v) after w once answer =
    handed_on v w after once answer
take_outcome-IsOnce filters early existing after w once (more, also, made) =
    grown w after once more also
take_outcome-IsOnce filters early (filtered reason) after w once (more, also, made) =
    grown w after once more also
take_outcome-IsOnce filters early (before_cutoff reason) after w once (more, also, made) =
    elim (Bool-cases
      (early && leb max_consecutive_before_cutoff (suc w.consecutive_before_cutoff))) [
        | inl enough ↦ rw (enough, take_outcome) (grown w after once more also)
        | inr few ↦ rw (few, take_outcome) (grown w after once more also)
      ]
take_outcome-IsOnce filters early (age_restricted reason) after w once (more, also, made) =
    grown w after once more also
take_outcome-IsOnce filters early (rate_limited reason) after w once (more, also, made) =
    grown w after once more also
take_outcome-IsOnce filters early (failed e) after w once (more, also, made) =
    grown w after once more also

-- If the metadata of each entry names the video that the entry names, then, whatever else is answered
-- about the entries and however the walk ends, the videos that it has handed on are stored, linked to
-- the source, and no two are the same, if this held before.
pub walk_entries-IsOnce :
    (filters : Filters) (early : Bool) (entries : List PlaylistEntry) (w : Walk)
    → All IsNamed entries
    → IsOnce w
    → IsOnce (walk_entries filters early entries w)
unfolding walk_entries
walk_entries-IsOnce filters early [] w all once = once
walk_entries-IsOnce filters early (entry ∷ entries) w (named, all) once =
    go (step_entry filters early entry w) refl
      (take_outcome-IsOnce filters early _ _ w once
        (process_entry-Answered filters entry w.library named))
      (λ w'. walk_entries-IsOnce filters early entries w' all)
  where
    go :
        (next : Next)
        → step_entry filters early entry w ≡ next
        → NextIsOnce (step_entry filters early entry w)
        → ((w' : Walk) → IsOnce w' → IsOnce (walk_entries filters early entries w'))
        → IsOnce (walk_entries filters early (entry ∷ entries) w)
    go (stop_walk w') is at later = rw (is, walk_entries) (subst NextIsOnce is at)
    go (go_on w') is at later = rw (is, walk_entries) (later w' (subst NextIsOnce is at))
