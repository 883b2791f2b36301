-- ===== src/Indexing/Early.antt =====
-- The early end of a walk loses no new video (actors/source_indexer.rs).
use hofvarpnir.Base.{
  ℕ, suc, ◌≤◌, ◌<◌, ◌≡◌, refl, sym, subst, true, false, Bool-cases, inl, inr, some, List, [], ◌∷◌,
  All, leb, arith,
}
use hofvarpnir.Indexing.Walk.{
  VideoMetadata, published_on, metadata, PlaylistEntry, Filters, EntryOutcome, new_video, existing,
  filtered, before_cutoff, age_restricted, rate_limited, failed, Library, process_entry,
  max_consecutive_before_cutoff, Walk, take_outcome, walk_entries,
}
use hofvarpnir.Indexing.Verdicts.{Verdict, process_entry-Verdict}

-- What yt-dlp says of the entry, if it says anything, is dated no later than the day.
abbrev pub PublishedBy : ℕ → PlaylistEntry → Type 0
PublishedBy day entry =
    (m : VideoMetadata)
    → entry.fetched ≡ metadata m
    → (d : ℕ) × (published_on m ≡ some d) × (d ≤ day)

-- After an entry with a date, all metadata has a date, and none is later.
abbrev pub IsNewestFirst : List PlaylistEntry → Type 0
IsNewestFirst [] = Unit
IsNewestFirst (entry ∷ entries) =
    ((m : VideoMetadata) (d : ℕ)
      → entry.fetched ≡ metadata m
      → published_on m ≡ some d
      → All (PublishedBy d) entries)
    × IsNewestFirst entries

abbrev IsOld : Filters → PlaylistEntry → Type 0
IsOld filters entry =
    (m : VideoMetadata)
    → entry.fetched ≡ metadata m
    → (d : ℕ) × (published_on m ≡ some d) × (d < filters.cutoff_day)

old_outcome :
    (filters : Filters) (entry : PlaylistEntry) (v : ℕ)
    → IsOld filters entry
    → Verdict filters entry (new_video v)
    → ⊥
old_outcome filters entry v old (m, is, late) =
    let (d, dated, early) = old m is in omega (arith, early, late d dated)

All-IsOld :
    (filters : Filters) (day : ℕ) (entries : List PlaylistEntry)
    → day < filters.cutoff_day
    → All (PublishedBy day) entries
    → All (IsOld filters) entries
All-IsOld filters day [] early all = tt
All-IsOld filters day (entry ∷ entries) early (by, all) = (
  (λ m is. let (d, dated, le) = by m is in (d, dated, omega (arith, le, early))),
  All-IsOld filters day entries early all,
)

-- Old entries add nothing.
old_step :
    (filters : Filters) (entry : PlaylistEntry) (entries : List PlaylistEntry) (w : Walk)
    → IsOld filters entry
    → ((w' : Walk) → (walk_entries filters false entries w').enqueued ≡ w'.enqueued)
    → (walk_entries filters false (entry ∷ entries) w).enqueued ≡ w.enqueued
unfolding walk_entries take_outcome
old_step filters entry entries w old later = go (process_entry filters entry w.library) refl
  where
    same : Type 0
    same = (walk_entries filters false (entry ∷ entries) w).enqueued ≡ w.enqueued

    go : (answer : EntryOutcome × Library) → process_entry filters entry w.library ≡ answer → same
    go (new_video v, library) is = absurd (
        old_outcome filters entry v old (
          subst (λ (answer : EntryOutcome × Library). Verdict filters entry answer.0) is
            (process_entry-Verdict filters entry w.library)))
    go (existing, library) is = rw (is, walk_entries, take_outcome) (later _)
    go (filtered reason, library) is = rw (is, walk_entries, take_outcome) (later _)
    go (before_cutoff reason, library) is = rw (is, walk_entries, take_outcome) (later _)
    go (age_restricted reason, library) is = rw (is, walk_entries, take_outcome) (later _)
    go (rate_limited reason, library) is = rw (is, walk_entries, take_outcome) refl
    go (failed e, library) is = rw (is, walk_entries, take_outcome) (later _)

old_walk :
    (filters : Filters) (entries : List PlaylistEntry) (w : Walk)
    → All (IsOld filters) entries
    → (walk_entries filters false entries w).enqueued ≡ w.enqueued
unfolding walk_entries
old_walk filters [] w old = refl
old_walk filters (entry ∷ entries) w (old, olds) =
    old_step filters entry entries w old (λ w'. old_walk filters entries w' olds)

-- The walk with the early end and the one without agree on the new videos.
abbrev Agree : Filters → List PlaylistEntry → Walk → Type 0
Agree filters entries w =
    (walk_entries filters true entries w).enqueued ≡ (walk_entries filters false entries w).enqueued

Agree-cons :
    (filters : Filters) (entry : PlaylistEntry) (entries : List PlaylistEntry) (w : Walk)
    → ((m : VideoMetadata) (d : ℕ)
        → entry.fetched ≡ metadata m
        → published_on m ≡ some d
        → All (PublishedBy d) entries)
    → ((w' : Walk) → Agree filters entries w')
    → Agree filters (entry ∷ entries) w
unfolding walk_entries take_outcome
Agree-cons filters entry entries w newest later = go (process_entry filters entry w.library) refl
  where
    go :
        (answer : EntryOutcome × Library)
        → process_entry filters entry w.library ≡ answer
        → Agree filters (entry ∷ entries) w
    go (new_video v, library) is = rw (is, walk_entries, take_outcome) (later _)
    go (existing, library) is = rw (is, walk_entries, take_outcome) (later _)
    go (filtered reason, library) is = rw (is, walk_entries, take_outcome) (later _)
    go (before_cutoff reason, library) is =
        let (m, d, fetched, dated, early) =
          subst (λ (answer : EntryOutcome × Library). Verdict filters entry answer.0) is
            (process_entry-Verdict filters entry w.library) in
        let olds = All-IsOld filters d entries early (newest m d fetched dated) in
        elim (Bool-cases (leb max_consecutive_before_cutoff (suc w.consecutive_before_cutoff))) [
          | inl enough ↦
              rw (is, enough, walk_entries, take_outcome) (sym (old_walk filters entries _ olds))
          | inr few ↦ rw (is, few, walk_entries, take_outcome) (later _)
        ]
    go (age_restricted reason, library) is = rw (is, walk_entries, take_outcome) (later _)
    go (rate_limited reason, library) is = rw (is, walk_entries, take_outcome) refl
    go (failed e, library) is = rw (is, walk_entries, take_outcome) (later _)

-- On a playlist where, after an entry with a date, all metadata has a date that is no later, the
-- walk that ends after three entries in a row before the cutoff enqueues the same new videos as
-- the walk over all entries.
pub walk_entries-early :
    (filters : Filters) (entries : List PlaylistEntry) (w : Walk)
    → IsNewestFirst entries
    → (walk_entries filters true entries w).enqueued
      ≡ (walk_entries filters false entries w).enqueued
unfolding walk_entries
walk_entries-early filters [] w newest = refl
walk_entries-early filters (entry ∷ entries) w (newest, rest) =
    Agree-cons filters entry entries w newest (λ w'. walk_entries-early filters entries w' rest)
