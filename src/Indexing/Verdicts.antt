-- ===== src/Indexing/Verdicts.antt =====
-- What the outcome of an entry tells of its date (actors/source_indexer.rs).
use hofvarpnir.Base.{
  ℕ, ◌≤◌, ◌<◌, ◌≡◌, refl, ◌∙◌, sym, subst, Bool-cases, inl, inr, not, ◌&&◌, ◌||◌, Option, none,
  some, Option-cases, contains, ltb, ltb→lt, arith,
}
use hofvarpnir.Indexing.Walk.{
  VideoMetadata, is_short, published_on, Fetched, metadata, video_unavailable, age_restricted_video,
  rate_limit, other_failure, PlaylistEntry, Filters, EntryOutcome, new_video, existing, filtered,
  before_cutoff, age_restricted, rate_limited, failed, Library, is_likely_short, cutoff_reason,
  check_video_filter, link_video, create_video_from_metadata, create_new_video, process_entry,
}

none≢some : {a : ℕ} → none ≡ some a → ⊥
none≢some h = cc

some_inj : {a b : ℕ} → some a ≡ some b → a ≡ b
some_inj h = cc

-- What the outcome of an entry says of the entry.
abbrev pub Verdict : Filters → PlaylistEntry → EntryOutcome → Type 0
Verdict filters entry (new_video v) =
    (m : VideoMetadata) × (entry.fetched ≡ metadata m)
    × ((d : ℕ) → published_on m ≡ some d → filters.cutoff_day ≤ d)
Verdict filters entry existing = Unit
Verdict filters entry (filtered reason) = Unit
Verdict filters entry (before_cutoff reason) =
    (m : VideoMetadata) × (d : ℕ) × (entry.fetched ≡ metadata m)
    × (published_on m ≡ some d)
    × (d < filters.cutoff_day)
Verdict filters entry (age_restricted reason) = Unit
Verdict filters entry (rate_limited reason) = Unit
Verdict filters entry (failed e) = Unit

Verdict-link_video :
    (filters : Filters) (entry : PlaylistEntry) (video : ℕ) (outcome : EntryOutcome)
    (library : Library)
    → Verdict filters entry outcome
    → Verdict filters entry (link_video entry video outcome library).0
Verdict-link_video filters entry video outcome library holds =
    elim (Option-cases entry.link_fault) [
      | inl linked ↦ rw (linked) holds
      | inr (e, fault) ↦ rw (fault) tt
    ]

Verdict-create_video :
    (filters : Filters) (entry : PlaylistEntry) (m : VideoMetadata) (library : Library)
    → ((v : ℕ) → Verdict filters entry (new_video v))
    → Verdict filters entry (create_video_from_metadata entry m library).0
unfolding create_video_from_metadata
Verdict-create_video filters entry m library holds = elim (Option-cases entry.upsert_fault) [
  | inl stored ↦
      rw (stored, create_video_from_metadata)
        (Verdict-link_video filters entry m.video _ _ (holds m.video))
  | inr (e, fault) ↦ rw (fault, create_video_from_metadata) tt
]

-- What the filter says of the metadata.
abbrev FilterVerdict : Filters → VideoMetadata → Option EntryOutcome → Type 0
FilterVerdict filters m none = (d : ℕ) → published_on m ≡ some d → filters.cutoff_day ≤ d
FilterVerdict filters m (some outcome) =
    (entry : PlaylistEntry) → entry.fetched ≡ metadata m → Verdict filters entry outcome

check_video_filter-Verdict :
    (filters : Filters) (m : VideoMetadata) → FilterVerdict filters m (check_video_filter filters m)
unfolding check_video_filter
check_video_filter-Verdict filters m =
    elim (Bool-cases (not filters.include_shorts && is_short m)) [
      | inl short ↦ rw (short, check_video_filter) (λ entry fetched. tt)
      | inr long ↦
          elim (Bool-cases (not filters.include_livestreams && (m.is_live || m.was_live))) [
            | inl live ↦ rw (long, live, check_video_filter) (λ entry fetched. tt)
            | inr not_live ↦ elim (Option-cases (published_on m)) [
              | inl undated ↦
                  let kept : check_video_filter filters m ≡ none =
                    rw (long, not_live, undated, check_video_filter) refl in
                  subst (FilterVerdict filters m) (sym kept)
                    (λ d dated. absurd (none≢some (sym undated ∙ dated)))
              | inr (day, dated) ↦ elim (Bool-cases (ltb day filters.cutoff_day)) [
                | inl early ↦
                    let cut : check_video_filter filters m
                        ≡ some (before_cutoff (cutoff_reason filters day)) =
                      rw (long, not_live, dated, early, check_video_filter) refl in
                    subst (FilterVerdict filters m) (sym cut) (λ entry fetched.
                      (m, day, fetched, dated, ltb→lt day filters.cutoff_day early))
                | inr late ↦
                    let kept : check_video_filter filters m ≡ none =
                      rw (long, not_live, dated, late, check_video_filter) refl in
                    subst (FilterVerdict filters m) (sym kept) (λ d at.
                      subst (λ n. filters.cutoff_day ≤ n) (some_inj (sym dated ∙ at))
                        (ground (arith, late)))
              ]
            ]
          ]
    ]

create_new_video-Verdict :
    (filters : Filters) (entry : PlaylistEntry) (library : Library)
    → Verdict filters entry (create_new_video filters entry library).0
unfolding create_new_video
create_new_video-Verdict filters entry library = go entry.fetched refl
  where
    made : Type 0
    made = Verdict filters entry (create_new_video filters entry library).0

    checked :
        (m : VideoMetadata) (o : Option EntryOutcome)
        → entry.fetched ≡ metadata m
        → check_video_filter filters m ≡ o
        → made
    checked m (some outcome) is check =
        let step : create_new_video filters entry library ≡ (outcome, library) =
          rw (is, check, create_new_video) refl in
        subst (λ (answer : EntryOutcome × Library). Verdict filters entry answer.0) (sym step)
          (subst (FilterVerdict filters m) check (check_video_filter-Verdict filters m) entry is)
    checked m none is check =
        let step : create_new_video filters entry library
            ≡ create_video_from_metadata entry m library =
          rw (is, check, create_new_video) refl in
        subst (λ (answer : EntryOutcome × Library). Verdict filters entry answer.0) (sym step)
          (Verdict-create_video filters entry m library (λ v.
            (m, is, subst (FilterVerdict filters m) check (check_video_filter-Verdict filters m))))

    go : (fetched : Fetched) → entry.fetched ≡ fetched → made
    go (metadata m) is = checked m (check_video_filter filters m) is refl
    go (video_unavailable e) is = rw (is, create_new_video) tt
    go (age_restricted_video e) is = rw (is, create_new_video) tt
    go (rate_limit e) is = rw (is, create_new_video) tt
    go (other_failure e) is = rw (is, create_new_video) tt

pub process_entry-Verdict :
    (filters : Filters) (entry : PlaylistEntry) (library : Library)
    → Verdict filters entry (process_entry filters entry library).0
unfolding process_entry
process_entry-Verdict filters entry library =
    elim (Bool-cases (not filters.include_shorts && is_likely_short filters entry)) [
      | inl short ↦ rw (short, process_entry) tt
      | inr long ↦ elim (Option-cases entry.lookup_fault) [
        | inr (e, fault) ↦ rw (long, fault, process_entry) tt
        | inl looked ↦ elim (Bool-cases (contains library.stored entry.video)) [
          | inl known ↦
              rw (long, looked, known, process_entry)
                (Verdict-link_video filters entry entry.video existing library tt)
          | inr unknown ↦
              rw (long, looked, unknown, process_entry)
                (create_new_video-Verdict filters entry library)
        ]
      ]
    ]
