-- ===== src/Cleanup/Linked.antt =====
-- The links of a protected video through the cleanup's queries (actors/cleanup.rs, db/video.rs).
use hofvarpnir.Base.{
  ℕ, ◌≡◌, refl, ap, sym, subst, ◌∙◌, Bool, true, false, not, ◌&&◌, some, List, [], ◌∷◌, ◌==◌,
  ==_iff, All, any_if, filter_if, filter_if-All, filter_if-All_of, any_if-filter_if, sort_by-All,
  sort_by-any_if, Bool-cases, inl, inr, contains, leb, arith,
}
use hofvarpnir.Videos.{Video, find_by_id}
use hofvarpnir.Database.{World, Source}
use hofvarpnir.Cleanup.{is_linked, sources_of, newest_first, sources_for_profile, videos_for_source}
use hofvarpnir.Cleanup.Kept.{View, view, Others}

pub true≢false : true ≡ false → ⊥
true≢false h = cc

pub and-left : (a b : Bool) → (a && b) ≡ true → a ≡ true
and-left true b h = refl
and-left false b h = h

pub and-right : (a b : Bool) → (a && b) ≡ true → b ≡ true
and-right true b h = h
and-right false b h = absurd (cc)

pub not-true : (b : Bool) → not b ≡ true → b ≡ false
not-true false h = refl
not-true true h = absurd (cc)

abbrev pub linked_to : ℕ → List (ℕ × ℕ) → Source → Bool
linked_to id links s = is_linked s.id id links

-- The sources of the video belong to one profile, and one of them is excluded.
abbrev pub IsProtected : ℕ → ℕ → View → Type 0
IsProtected id profile (links, sources, row) =
    All (λ (s : Source). is_linked s.id id links ≡ true → s.profile_id ≡ profile) sources
    × (any_if (λ (s : Source). linked_to id links s && s.exclude_from_cleanup) sources ≡ true)
    × ((v : Video) × (row ≡ some v))

pub excluded_here :
    (id profile : ℕ) (w : World)
    → IsProtected id profile (view id w)
    → any_if (λ (s : Source). s.exclude_from_cleanup) (sources_of w id) ≡ true
unfolding sources_of
excluded_here id profile w protected =
    any_if-filter_if (λ (s : Source). s.exclude_from_cleanup) (linked_to id w.source_videos)
      w.sources
    ∙ protected.1

-- What the sources of a profile have to do with the video.
abbrev pub Related : (id profile : ℕ) → View → ℕ → List Source → Type 0
Related id profile V p ss =
    ((p == profile) ≡ true
      → any_if (λ (s : Source). s.exclude_from_cleanup && linked_to id V.0 s) ss ≡ true)
    × ((p == profile) ≡ false → All (λ (s : Source). linked_to id V.0 s ≡ false) ss)

-- The videos of a source.
abbrev pub Linked : ℕ → View → Source → List Video → Type 0
Linked id V source vs =
    (linked_to id V.0 source ≡ true → any_if (λ (v : Video). v.id == id) vs ≡ true)
    × (linked_to id V.0 source ≡ false → Others id V vs)

-- A video that the source has is not one that it has not.
differs :
    (source id other : ℕ) (links : List (ℕ × ℕ))
    → is_linked source id links ≡ false
    → is_linked source other links ≡ true
    → (other == id) ≡ false
differs source id other links unlinked is = elim (Bool-cases (other == id)) [
  | inr no_ ↦ no_
  | inl same ↦ absurd (
      true≢false
        (sym is ∙ ap (λ n. is_linked source n links) ((==_iff other id).0 same) ∙ unlinked))
]

pub apart :
    (ids : List ℕ) (id other : ℕ)
    → contains ids id ≡ true
    → contains ids other ≡ false
    → (other == id) ≡ false
apart ids id other has free = elim (Bool-cases (other == id)) [
  | inr no_ ↦ no_
  | inl same ↦
      absurd (true≢false (sym has ∙ sym (ap (contains ids) ((==_iff other id).0 same)) ∙ free))
]

foreign :
    (id profile p : ℕ) (links : List (ℕ × ℕ)) (s : Source)
    → (p == profile) ≡ false
    → (is_linked s.id id links ≡ true → s.profile_id ≡ profile)
    → (s.profile_id == p) ≡ true
    → linked_to id links s ≡ false
foreign id profile p links s differ mine of_p = elim (Bool-cases (is_linked s.id id links)) [
  | inr no_ ↦ no_
  | inl is ↦ absurd (ground (arith, differ, of_p, mine is))
]

in_profile :
    (id profile p : ℕ) (links : List (ℕ × ℕ)) (ss : List Source)
    → (p == profile) ≡ true
    → All (λ (s : Source). is_linked s.id id links ≡ true → s.profile_id ≡ profile) ss
    → any_if (λ (s : Source). linked_to id links s && s.exclude_from_cleanup) ss ≡ true
    → any_if
        (λ (s : Source). s.profile_id == p && (s.exclude_from_cleanup && linked_to id links s))
        ss
      ≡ true
in_profile id profile p links [] same all some_one = some_one
in_profile id profile p links (s ∷ ss) same (mine, all) some_one =
    elim (Bool-cases (linked_to id links s && s.exclude_from_cleanup)) [
      | inl this ↦
          ground
            (arith, this, same, mine (and-left (linked_to id links s) s.exclude_from_cleanup this))
      | inr other ↦ ground (
        arith,
        other,
        in_profile id profile p links ss same all (ground (arith, other, some_one)),
      )
    ]

pub related :
    (id profile p : ℕ) (w : World)
    → IsProtected id profile (view id w)
    → Related id profile (view id w) p (sources_for_profile p w.sources)
unfolding sources_for_profile
related id profile p w (all, some_one, row) = (
  (λ same.
      sort_by-any_if (λ (a b : Source). leb b.created_at a.created_at)
        (λ s. s.exclude_from_cleanup && linked_to id w.source_videos s)
        (filter_if (λ s. s.profile_id == p) w.sources)
      ∙ any_if-filter_if (λ s. s.exclude_from_cleanup && linked_to id w.source_videos s)
          (λ s. s.profile_id == p) w.sources
      ∙ in_profile id profile p w.source_videos w.sources same all some_one),
  (λ differ. sort_by-All _ _ _ (
      filter_if-All_of
        (λ (s : Source). is_linked s.id id w.source_videos ≡ true → s.profile_id ≡ profile) _ _
        w.sources all (λ s mine of_p. foreign id profile p w.source_videos s differ mine of_p))),
)

found_row :
    (id : ℕ) (v : Video) (vs : List Video)
    → find_by_id id vs ≡ some v
    → any_if (λ (v : Video). v.id == id) vs ≡ true
unfolding find_by_id
found_row id v [] found = absurd (cc)
found_row id v (u ∷ us) found = ground (arith, found, found_row id v us)

linked_row :
    (source id : ℕ) (links : List (ℕ × ℕ)) (vs : List Video)
    → is_linked source id links ≡ true
    → any_if (λ (v : Video). v.id == id) vs ≡ true
    → any_if (λ (v : Video). is_linked source v.id links && v.id == id) vs ≡ true
linked_row source id links [] is here = here
linked_row source id links (v ∷ vs) is here = elim (Bool-cases (v.id == id)) [
  | inl same ↦
      let at_row : is_linked source v.id links ≡ true =
        subst (λ n. is_linked source n links ≡ true) (sym ((==_iff v.id id).0 same)) is in
      ground (arith, same, at_row)
  | inr other ↦
      ground (arith, other, linked_row source id links vs is (ground (arith, other, here)))
]

pub videos_for_source-Linked :
    (id profile : ℕ) (source : Source) (w : World)
    → IsProtected id profile (view id w)
    → Linked id (view id w) source (videos_for_source source.id w)
unfolding videos_for_source
videos_for_source-Linked id profile source w (all, some_one, (v, row)) = (
  (λ is.
      sort_by-any_if newest_first (λ (v : Video). v.id == id)
        (filter_if (λ (v : Video). is_linked source.id v.id w.source_videos) w.videos)
      ∙ any_if-filter_if (λ (v : Video). v.id == id)
          (λ (v : Video). is_linked source.id v.id w.source_videos) w.videos
      ∙ linked_row source.id id w.source_videos w.videos is (found_row id v w.videos row)),
  (λ unlinked.
      sort_by-All _ _ _ (
        filter_if-All _ _ w.videos
          (λ v is. differs source.id id v.id w.source_videos unlinked is))),
)
