-- ===== src/Cleanup/Protected.antt =====
-- A video of a source that is excluded from the cleanup (actors/cleanup.rs).
use hofvarpnir.Base.{
  ℕ, ◌≡◌, sym, subst, ◌∙◌, Bool, true, false, not, ◌&&◌, ◌||◌, Option, none, some, List, [], ◌∷◌,
  ◌==◌, ==_iff, ◌⊎◌, All, any_if, filter_if-All, sort_by-All, Bool-cases, inl, inr, contains,
  insert, contains-insert, ℤ, is_some_and, arith,
}
use hofvarpnir.Videos.{Video}
use hofvarpnir.Database.{World, Source, Profile}
use hofvarpnir.Cleanup.{
  is_completed, sources_of, keeps, is_past_retention, past_retention, list_videos_past_retention,
  list_profiles, sources_for_profile, list_sources_for_profile, videos_for_source,
  list_videos_for_source,
}
use hofvarpnir.Cleanup.Run.{
  run_query, Usage, count_videos, usage_of, insert_ids, protected_ids, Candidates, add_candidate,
  add_candidates, candidates_of,
}
use hofvarpnir.Cleanup.Kept.{
  View, view, Keeps, KeepsDb, query-Keeps, run_query-Keeps, >>=-Keeps, pure-Keeps, Others,
}
use hofvarpnir.Cleanup.Linked.{
  true≢false, and-right, not-true, excluded_here, apart, related, videos_for_source-Linked,
  linked_to, IsProtected, Related, Linked,
}

-- A video that is past its retention has no source that is excluded.
past-not_excluded :
    (w : World) (global : Option ℤ) (now : ℕ) (v : Video)
    → is_past_retention w global now v ≡ true
    → any_if (λ (s : Source). s.exclude_from_cleanup) (sources_of w v.id) ≡ false
unfolding is_past_retention
past-not_excluded w global now v past = go v.downloaded_at past
  where
    excluded : Bool
    excluded = any_if (λ (s : Source). s.exclude_from_cleanup) (sources_of w v.id)

    go :
        (downloaded : Option ℕ)
        → (is_completed v.status
            && is_some_and downloaded
                λ at. not (any_if (keeps w global now at) (sources_of w v.id)) && not excluded)
          ≡ true
        → excluded ≡ false
    go none h = absurd (ground (arith, h))
    go (some at) h = not-true excluded (
        and-right (not (any_if (keeps w global now at) (sources_of w v.id))) _
          (and-right (is_completed v.status) _ h))

module _ (id profile : ℕ) (V : View) (protected : IsProtected id profile V) where
  -- A row of the id is not among those that are past their retention.
  past-other :
      (w : World) (global : Option ℤ) (now : ℕ) (v : Video)
      → view id w ≡ V
      → is_past_retention w global now v ≡ true
      → (v.id == id) ≡ false
  past-other w global now v at past = elim (Bool-cases (v.id == id)) [
    | inr other ↦ other
    | inl same ↦ absurd (
        true≢false (
          sym (excluded_here id profile w (subst (IsProtected id profile) (sym at) protected))
          ∙ subst (λ n. any_if (λ (s : Source). s.exclude_from_cleanup) (sources_of w n) ≡ false)
              ((==_iff v.id id).0 same) (past-not_excluded w global now v past)))
  ]

  pub list_videos_past_retention-Others :
      (global : Option ℤ) (now : ℕ)
      → KeepsDb id V (Others id V) (list_videos_past_retention global now)
  unfolding list_videos_past_retention past_retention
  list_videos_past_retention-Others global now = query-Keeps id V (Others id V) _ λ w at. (
    at,
    sort_by-All _ _ _ (
        filter_if-All _ (is_past_retention w global now) w.videos
          (λ v. past-other w global now v at)),
  )

  -- Queries that say nothing about the row.
  pub list_profiles-Keeps : KeepsDb id V (λ (ps : List Profile). Unit {0}) list_profiles
  unfolding list_profiles
  list_profiles-Keeps = query-Keeps id V (λ (ps : List Profile). Unit {0}) _ (λ w at. (at, tt))

  pub list_sources_for_profile-Related :
      (p : ℕ) → KeepsDb id V (Related id profile V p) (list_sources_for_profile p)
  unfolding list_sources_for_profile sources_for_profile
  list_sources_for_profile-Related p = query-Keeps id V (Related id profile V p) _ λ w at. (
    at,
    subst (λ U. Related id profile U p (sources_for_profile p w.sources)) at
        (related id profile p w (subst (IsProtected id profile) (sym at) protected)),
  )

  list_videos_for_source-Linked :
      (source : Source) → KeepsDb id V (Linked id V source) (list_videos_for_source source.id)
  unfolding list_videos_for_source videos_for_source
  list_videos_for_source-Linked source = query-Keeps id V (Linked id V source) _ λ w at. (
    at,
    subst (λ U. Linked id U source (videos_for_source source.id w)) at
        (videos_for_source-Linked id profile source w
          (subst (IsProtected id profile) (sym at) protected)),
  )

  pub usage_of-Keeps :
      (ss : List Source) (u : Usage) → Keeps id V (λ (u : Usage). Unit {0}) (usage_of ss u)
  unfolding usage_of
  usage_of-Keeps [] u = pure-Keeps id V (λ (u : Usage). Unit {0}) u tt
  usage_of-Keeps (source ∷ ss) u =
      >>=-Keeps id V (Linked id V source) (λ (u : Usage). Unit {0})
        (run_query (list_videos_for_source source.id)) _
        (run_query-Keeps id V (Linked id V source) (list_videos_for_source source.id)
          (list_videos_for_source-Linked source))
        λ vs _. usage_of-Keeps ss (count_videos vs u)

  insert_ids-contains :
      (vs : List Video) (ids : List ℕ)
      → contains (insert_ids vs ids) id ≡ contains ids id || any_if (λ (v : Video). v.id == id) vs
  unfolding insert_ids
  insert_ids-contains [] ids = ground arith
  insert_ids-contains (v ∷ vs) ids =
      ground (arith, insert_ids-contains vs (insert v.id ids), contains-insert v.id id ids)

  pub protected_ids-contains :
      (ss : List Source) (ids : List ℕ)
      → contains ids id || any_if (linked_to id V.0) ss ≡ true
      → Keeps id V (λ ids'. contains ids' id ≡ true) (protected_ids ss ids)
  unfolding protected_ids
  protected_ids-contains [] ids h =
      pure-Keeps id V (λ ids'. contains ids' id ≡ true) ids (ground (arith, h))
  protected_ids-contains (source ∷ ss) ids h =
      >>=-Keeps id V (Linked id V source) (λ ids'. contains ids' id ≡ true)
        (run_query (list_videos_for_source source.id)) _
        (run_query-Keeps id V (Linked id V source) (list_videos_for_source source.id)
          (list_videos_for_source-Linked source))
        λ vs linked.
          protected_ids-contains ss (insert_ids vs ids)
            (ground (arith, h, linked.0, insert_ids-contains vs ids))

  pub protected_ids-Keeps :
      (ss : List Source) (ids : List ℕ)
      → Keeps id V (λ (ids' : List ℕ). Unit {0}) (protected_ids ss ids)
  unfolding protected_ids
  protected_ids-Keeps [] ids = pure-Keeps id V (λ (ids' : List ℕ). Unit {0}) ids tt
  protected_ids-Keeps (source ∷ ss) ids =
      >>=-Keeps id V (Linked id V source) (λ (ids' : List ℕ). Unit {0})
        (run_query (list_videos_for_source source.id)) _
        (run_query-Keeps id V (Linked id V source) (list_videos_for_source source.id)
          (list_videos_for_source-Linked source))
        λ vs _. protected_ids-Keeps ss (insert_ids vs ids)

  candidate-Others :
      (ids : List ℕ) (v : Video) (c : Candidates)
      → Others id V c.videos
      → (contains ids v.id ≡ false → (v.id == id) ≡ false)
      → Others id V (add_candidate ids v c).videos
  candidate-Others ids v c others other = elim (Bool-cases (contains c.seen v.id)) [
    | inl seen ↦ rw (seen) others
    | inr new ↦ elim (Bool-cases (contains ids v.id)) [
      | inl protected ↦ rw (new, protected) others
      | inr free ↦ elim (Bool-cases (is_completed v.status)) [
        | inl done ↦ rw (new, free, done) (other free, others)
        | inr not_done ↦ rw (new, free, not_done) others
      ]
    ]
  ]

  -- The candidates have no row of the id, if the id is protected or no source has the video.
  add_candidates-Others :
      (ids : List ℕ) (vs : List Video) (c : Candidates)
      → Others id V c.videos
      → (contains ids id ≡ true) ⊎ Others id V vs
      → Others id V (add_candidates ids vs c).videos
  unfolding add_candidates
  add_candidates-Others ids [] c others why = others
  add_candidates-Others ids (v ∷ vs) c others why =
      add_candidates-Others ids vs (add_candidate ids v c)
        (candidate-Others ids v c others
          elim why [ inl has ↦ (λ free. apart ids id v.id has free) | inr (o, os) ↦ (λ free. o) ])
        (elim why [ inl h ↦ inl h | inr (o, os) ↦ inr os ])

  pub candidates_of-Others :
      (ids : List ℕ) (ss : List Source) (c : Candidates)
      → Others id V c.videos
      → (contains ids id ≡ true) ⊎ All (λ (s : Source). linked_to id V.0 s ≡ false) ss
      → Keeps id V (λ (c : Candidates). Others id V c.videos) (candidates_of ids ss c)
  unfolding candidates_of
  candidates_of-Others ids [] c others why =
      pure-Keeps id V (λ (c : Candidates). Others id V c.videos) c others
  candidates_of-Others ids (source ∷ ss) c others why =
      >>=-Keeps id V (Linked id V source) (λ (c : Candidates). Others id V c.videos)
        (run_query (list_videos_for_source source.id)) _
        (run_query-Keeps id V (Linked id V source) (list_videos_for_source source.id)
          (list_videos_for_source-Linked source))
        λ vs linked.
          candidates_of-Others ids ss (add_candidates ids vs c)
            (add_candidates-Others ids vs c others
              (elim why [ inl h ↦ inl h | inr (un, uns) ↦ inr (linked.1 un) ]))
            (elim why [ inl h ↦ inl h | inr (un, uns) ↦ inr uns ])
