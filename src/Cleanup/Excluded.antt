-- ===== src/Cleanup/Excluded.antt =====
-- A run of the cleanup on a video of a source that is excluded from it (actors/cleanup.rs).
use Prim.Native.String.{String}
use hofvarpnir.Base.{
  ℕ, ◌≡◌, refl, ap, ◌∙◌, Bool, true, false, Option, List, [], ◌∷◌, ◌==◌, ◌⊎◌, All, filter_if,
  any_if-filter_if, sort_by, sort_by-All, Bool-cases, inl, inr, contains, leb_ℤ, ℤ, pos, ◌-ℤ◌,
}
use hofvarpnir.Videos.{Video, find_by_id}
use hofvarpnir.Database.{Source, Profile}
use hofvarpnir.Cleanup.{list_videos_past_retention, list_profiles, list_sources_for_profile}
use hofvarpnir.Cleanup.Run.{
  Cleaner, pure, run_query, Usage, usage_of, calculate_profile_usage, protected_ids, Candidates,
  candidates_of, older, reverse_onto, get_profile_videos_by_age, enforce_quota, enforce_each,
  enforce_quotas, Cleaned, nothing, add_cleaned, cleanup_retention, run_cleanup, ◌>>=◌,
}
use hofvarpnir.Cleanup.Kept.{
  View, view, Keeps, run_query-Keeps, >>=-Keeps, pure-Keeps, Others, clean_each-Keeps, evict-Keeps,
}
use hofvarpnir.Cleanup.Linked.{IsProtected, linked_to, Related}
use hofvarpnir.Cleanup.Protected.{
  list_videos_past_retention-Others, list_profiles-Keeps, list_sources_for_profile-Related,
  usage_of-Keeps, protected_ids-contains, protected_ids-Keeps, candidates_of-Others,
}

Others-reverse_onto :
    (id : ℕ) (V : View) (xs ys : List Video)
    → Others id V xs
    → Others id V ys
    → Others id V (reverse_onto xs ys)
Others-reverse_onto id V [] ys all also = also
Others-reverse_onto id V (x ∷ xs) ys (other, all) also =
    Others-reverse_onto id V xs (x ∷ ys) all (other, also)

module _ (id profile : ℕ) (V : View) (protected : IsProtected id profile V) where
  by_age :
      (ids : List ℕ) (ss : List Source)
      → (contains ids id ≡ true) ⊎ All (λ (s : Source). linked_to id V.0 s ≡ false) ss
      → Keeps id V (Others id V) (
          candidates_of ids ss (record { videos = []; seen = [] }) >>= λ c.
          pure (sort_by older (reverse_onto c.videos [])))
  by_age ids ss why =
      >>=-Keeps id V (λ (c : Candidates). Others id V c.videos) (Others id V)
        (candidates_of ids ss (record { videos = []; seen = [] })) _
        (candidates_of-Others id profile V protected ids ss (record { videos = []; seen = [] }) tt
          why)
        λ c others. pure-Keeps id V (Others id V) _ (
          sort_by-All older (λ (v : Video). (v.id == id) ≡ false) (reverse_onto c.videos [])
            (Others-reverse_onto id V c.videos [] others tt))

  candidates-Others :
      (p : ℕ) (ss : List Source)
      → Related id profile V p ss
      → Keeps id V (Others id V) (
          protected_ids (filter_if (λ (s : Source). s.exclude_from_cleanup) ss) [] >>= λ ids.
          candidates_of ids ss (record { videos = []; seen = [] }) >>= λ c.
          pure (sort_by older (reverse_onto c.videos [])))
  candidates-Others p ss (of_profile, of_other) = elim (Bool-cases (p == profile)) [
    | inl same ↦
        >>=-Keeps id V (λ ids. contains ids id ≡ true) (Others id V)
          (protected_ids (filter_if (λ (s : Source). s.exclude_from_cleanup) ss) []) _
          (protected_ids-contains id profile V protected
            (filter_if (λ (s : Source). s.exclude_from_cleanup) ss) []
            (any_if-filter_if (linked_to id V.0) (λ (s : Source). s.exclude_from_cleanup) ss
              ∙ of_profile same))
          λ ids has. by_age ids ss (inl has)
    | inr other ↦
        >>=-Keeps id V (λ (ids : List ℕ). Unit {0}) (Others id V)
          (protected_ids (filter_if (λ (s : Source). s.exclude_from_cleanup) ss) []) _
          (protected_ids-Keeps id profile V protected
            (filter_if (λ (s : Source). s.exclude_from_cleanup) ss) [])
          λ ids _. by_age ids ss (inr (of_other other))
  ]

  get_profile_videos_by_age-Others :
      (p : ℕ) → Keeps id V (Others id V) (get_profile_videos_by_age p)
  unfolding get_profile_videos_by_age
  get_profile_videos_by_age-Others p =
      >>=-Keeps id V (Related id profile V p) (Others id V) (run_query (list_sources_for_profile p))
        _
        (run_query-Keeps id V (Related id profile V p) (list_sources_for_profile p)
          (list_sources_for_profile-Related id profile V protected p))
        λ ss is. candidates-Others p ss is

  calculate_profile_usage-Keeps :
      (p : ℕ) → Keeps id V (λ (n : ℤ). Unit {0}) (calculate_profile_usage p)
  unfolding calculate_profile_usage
  calculate_profile_usage-Keeps p =
      >>=-Keeps id V (Related id profile V p) (λ (n : ℤ). Unit {0})
        (run_query (list_sources_for_profile p)) _
        (run_query-Keeps id V (Related id profile V p) (list_sources_for_profile p)
          (list_sources_for_profile-Related id profile V protected p))
        λ ss _.
          >>=-Keeps id V (λ (u : Usage). Unit {0}) (λ (n : ℤ). Unit {0})
            (usage_of ss (record { counted = []; total_bytes = pos 0 }))
            (λ (u : Usage). pure u.total_bytes)
            (usage_of-Keeps id profile V protected ss
              (record { counted = []; total_bytes = pos 0 }))
            λ u _. pure-Keeps id V (λ (n : ℤ). Unit {0}) u.total_bytes tt

  enforce_quota-Keeps :
      (stuck : String → Bool) (now : ℕ) (p : Profile)
      → Keeps id V (λ (c : Cleaned). Unit {0}) (enforce_quota stuck now p)
  unfolding enforce_quota
  enforce_quota-Keeps stuck now p =
      >>=-Keeps id V (λ (n : ℤ). Unit {0}) (λ (c : Cleaned). Unit {0})
        (calculate_profile_usage p.id) _ (calculate_profile_usage-Keeps p.id)
        λ usage _. elim (Bool-cases (leb_ℤ usage p.storage_quota_bytes)) [
          | inl within ↦ rw (within) (pure-Keeps id V (λ (c : Cleaned). Unit {0}) nothing tt)
          | inr over ↦ rw (over) (
              >>=-Keeps id V (Others id V) (λ (c : Cleaned). Unit {0})
                (get_profile_videos_by_age p.id) _ (get_profile_videos_by_age-Others p.id)
                λ videos others.
                  evict-Keeps id V stuck now (usage -ℤ p.storage_quota_bytes) videos nothing others)
        ]

  enforce_each-Keeps :
      (stuck : String → Bool) (now : ℕ) (ps : List Profile) (total : Cleaned)
      → Keeps id V (λ (c : Cleaned). Unit {0}) (enforce_each stuck now ps total)
  unfolding enforce_each
  enforce_each-Keeps stuck now [] total = pure-Keeps id V (λ (c : Cleaned). Unit {0}) total tt
  enforce_each-Keeps stuck now (p ∷ ps) total =
      >>=-Keeps id V (λ (c : Cleaned). Unit {0}) (λ (c : Cleaned). Unit {0})
        (enforce_quota stuck now p) _ (enforce_quota-Keeps stuck now p)
        λ freed _. enforce_each-Keeps stuck now ps (add_cleaned total freed)

  enforce_quotas-Keeps :
      (stuck : String → Bool) (now : ℕ)
      → Keeps id V (λ (c : Cleaned). Unit {0}) (enforce_quotas stuck now)
  unfolding enforce_quotas
  enforce_quotas-Keeps stuck now =
      >>=-Keeps id V (λ (ps : List Profile). Unit {0}) (λ (c : Cleaned). Unit {0})
        (run_query list_profiles) _
        (run_query-Keeps id V (λ (ps : List Profile). Unit {0}) list_profiles
          (list_profiles-Keeps id profile V protected))
        λ ps _. enforce_each-Keeps stuck now ps nothing

  cleanup_retention-Keeps :
      (stuck : String → Bool) (global : Option ℤ) (now : ℕ)
      → Keeps id V (λ (c : Cleaned). Unit {0}) (cleanup_retention stuck global now)
  unfolding cleanup_retention
  cleanup_retention-Keeps stuck global now =
      >>=-Keeps id V (Others id V) (λ (c : Cleaned). Unit {0})
        (run_query (list_videos_past_retention global now)) _
        (run_query-Keeps id V (Others id V) (list_videos_past_retention global now)
          (list_videos_past_retention-Others id profile V protected global now))
        λ videos others. clean_each-Keeps id V stuck now videos nothing others

-- Whatever queries and deletions of files fail, a run of the cleanup leaves the row of a video as it
-- is, if the video's sources belong to one profile and one of them is excluded from the cleanup.
pub run_cleanup-excluded :
    (stuck : String → Bool) (global : Option ℤ) (now id profile : ℕ) (s : Cleaner)
    → IsProtected id profile (view id s.world)
    → find_by_id id (run_cleanup stuck global now s).1.world.videos ≡ find_by_id id s.world.videos
unfolding run_cleanup
run_cleanup-excluded stuck global now id profile s protected =
    let V : View = view id s.world in
    let first = cleanup_retention-Keeps id profile V protected stuck global now s refl in
    let second =
      enforce_quotas-Keeps id profile V protected stuck now (cleanup_retention stuck global now s).1
        first.0 in
    ap (λ (u : View). u.2) second.0
