-- ===== src/Cleanup.antt =====
-- crates/hof-core/src/actors/cleanup.rs and the queries that it runs: which videos are deleted
-- when their retention ends or their profile is over its quota.
pub mod Run
pub mod Due
pub mod Kept
pub mod Linked
pub mod Protected
pub mod Excluded
pub mod Quota
mod Examples
use hofvarpnir.Base.{
  ℕ, ◌*◌, ◌+◌, Bool, true, false, not, ◌&&◌, ◌||◌, Option, none, some, List, [], ◌∷◌, map, leb, ltb,
  ◌==◌, if◌then◌else◌, ℤ, pos, pos_part, neg_part, sub_ℕ, leb_ℤ, ◌+ℤ◌, any_if, all_if, take,
  filter_if, sort_by, is_some, is_some_and, contains, flatten_options, get_or, Result, ok, err,
}
use hofvarpnir.Clock.{hours}
use hofvarpnir.Videos.{
  Video, VideoStatus, pending, awaiting_quality, downloading, completed, failed, skipped, cleaned,
  permanently_failed,
}
use hofvarpnir.Database.{
  World, Db, Source, Profile, query, find_source, find_profile, linked_sources,
}

abbrev pub is_completed : VideoStatus → Bool
is_completed completed = true
is_completed _ = false

-- `source_videos` has the pair.
abbrev pub is_linked : (source video : ℕ) → List (ℕ × ℕ) → Bool
is_linked source video links = any_if (λ (link : ℕ × ℕ). link.0 == source && link.1 == video) links

-- The sources that a video is linked to: a join with `sources`.
unfoldable pub sources_of : World → ℕ → List Source
sources_of w video = filter_if (λ (s : Source). is_linked s.id video w.source_videos) w.sources

-- `COALESCE(s.retention_days, p.retention_days, $1)`.
abbrev pub coalesce : (source profile global : Option ℤ) → Option ℤ
coalesce (some d) profile global = some d
coalesce none (some d) global = some d
coalesce none none global = global

abbrev pub profile_retention : Option Profile → Option ℤ
profile_retention none = none
profile_retention (some p) = p.retention_days

-- The profile of a source is there, by its foreign key.
unfoldable pub effective_retention : World → Option ℤ → Source → Option ℤ
unfolding find_profile
effective_retention w global s =
    coalesce s.retention_days (profile_retention (find_profile s.profile_id w.profiles)) global

-- `t + make_interval(days => d)`.
abbrev pub after_days : ℕ → ℤ → ℤ
after_days t d = sub_ℕ (t + hours 24 * pos_part d) (hours 24 * neg_part d)

-- The source keeps the video: it does so for ever, or its retention has not passed.
unfoldable pub keeps : World → Option ℤ → (now downloaded_at : ℕ) → Source → Bool
unfolding effective_retention
keeps w global now downloaded_at s = elim (effective_retention w global s) [
  | none ↦ true
  | some days ↦ not (leb_ℤ (after_days downloaded_at days) (pos now))
]

-- The WHERE clause of `list_videos_past_retention`.
unfoldable pub is_past_retention : World → Option ℤ → ℕ → Video → Bool
unfolding keeps sources_of
is_past_retention w global now v =
    is_completed v.status
    && is_some_and v.downloaded_at λ at.
      not (any_if (keeps w global now at) (sources_of w v.id))
      && not (any_if (λ (s : Source). s.exclude_from_cleanup) (sources_of w v.id))

abbrev pub earlier : Option ℕ → Option ℕ → Bool
earlier none b = true
earlier (some a) none = false
earlier (some a) (some b) = leb a b

unfoldable pub past_retention : World → Option ℤ → ℕ → List Video
unfolding is_past_retention
past_retention w global now =
    sort_by (λ (a b : Video). earlier a.downloaded_at b.downloaded_at)
      (filter_if (is_past_retention w global now) w.videos)

unfoldable pub list_videos_past_retention : Option ℤ → ℕ → Db (List Video)
unfolding past_retention
list_videos_past_retention global now = query (λ w. (ok (past_retention w global now), w))

-- `MAX` over the rows of a group, which passes over NULL.
abbrev pub max_ℤ : ℤ → ℤ → ℤ
max_ℤ a b = if leb_ℤ a b then b else a

abbrev pub maximum : List ℤ → Option ℤ
maximum [] = none
maximum (x ∷ xs) = elim (maximum xs) [ none ↦ some x | some y ↦ some (max_ℤ x y) ]

abbrev pub expiries : (downloaded_at : ℕ) → List (Option ℤ) → List ℤ
expiries downloaded_at retentions = map (after_days downloaded_at) (flatten_options retentions)

unfoldable pub scheduled_deletion_at : World → Option ℤ → ℕ → ℕ → Option ℤ
unfolding sources_of effective_retention
scheduled_deletion_at w global downloaded_at video =
    maximum (expiries downloaded_at (map (effective_retention w global) (sources_of w video)))

-- `$3::int IS NULL OR scheduled_deletion_at <= NOW() + make_interval(days => $3)`.
abbrev pub is_within : Option ℤ → ℕ → Option ℤ → Bool
is_within none now scheduled = true
is_within (some days) now scheduled = is_some_and scheduled (λ t. leb_ℤ t (after_days now days))

-- The clauses of `list_videos_pending_deletion`; a video without a source has no group.
unfoldable pub is_pending_deletion :
    World → (global : Option ℤ) (profile : Option ℕ) (within_days : Option ℤ) → ℕ → Video → Bool
unfolding scheduled_deletion_at
is_pending_deletion w global profile within_days now v =
    is_completed v.status
    && is_some_and v.downloaded_at λ at.
      any_if (λ (s : Source). true) (sources_of w v.id)
      && (elim profile [
        | none ↦ true
        | some p ↦ any_if (λ (s : Source). s.profile_id == p) (sources_of w v.id)
      ]
          && (all_if (λ r. is_some r) (map (effective_retention w global) (sources_of w v.id))
              && is_within within_days now (scheduled_deletion_at w global at v.id)))

abbrev pub scheduled_before : World → Option ℤ → Video → Video → Bool
scheduled_before w global a b =
    elim (scheduled_deletion_at w global (get_or a.downloaded_at 0) a.id) [
      | none ↦ true
      | some s ↦
          is_some_and (scheduled_deletion_at w global (get_or b.downloaded_at 0) b.id) (leb_ℤ s)
    ]

unfoldable pub list_videos_pending_deletion :
    (global : Option ℤ) (profile : Option ℕ) (within_days : Option ℤ) (limit now : ℕ)
    → Db (List Video)
unfolding is_pending_deletion scheduled_deletion_at
list_videos_pending_deletion global profile within_days limit now = query λ w. (
  ok (
      take limit (
        sort_by (scheduled_before w global)
          (filter_if (is_pending_deletion w global profile within_days now) w.videos))),
  w,
)

-- `ORDER BY created_at DESC`.
unfoldable pub list_profiles : Db (List Profile)
list_profiles =
    query (λ w. (ok (sort_by (λ (a b : Profile). leb b.created_at a.created_at) w.profiles), w))

unfoldable pub sources_for_profile : ℕ → List Source → List Source
sources_for_profile profile sources =
    sort_by (λ (a b : Source). leb b.created_at a.created_at)
      (filter_if (λ (s : Source). s.profile_id == profile) sources)

unfoldable pub list_sources_for_profile : ℕ → Db (List Source)
unfolding sources_for_profile
list_sources_for_profile profile = query (λ w. (ok (sources_for_profile profile w.sources), w))

-- `published_at DESC NULLS LAST, created_at DESC, id DESC`.
abbrev pub newest_first : Video → Video → Bool
newest_first a b = elim a.published_at [
  | none ↦ elim b.published_at [
    | none ↦ ltb b.created_at a.created_at || a.created_at == b.created_at && leb b.id a.id
    | some q ↦ false
  ]
  | some p ↦ elim b.published_at [
    | none ↦ true
    | some q ↦
        ltb q p
        || p == q
          && (ltb b.created_at a.created_at || a.created_at == b.created_at && leb b.id a.id)
  ]
]

unfoldable pub videos_for_source : ℕ → World → List Video
videos_for_source source w =
    sort_by newest_first (filter_if (λ (v : Video). is_linked source v.id w.source_videos) w.videos)

unfoldable pub list_videos_for_source : ℕ → Db (List Video)
unfolding videos_for_source
list_videos_for_source source = query (λ w. (ok (videos_for_source source w), w))
