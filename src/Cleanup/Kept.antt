-- ===== src/Cleanup/Kept.antt =====
-- What a computation of the cleanup leaves of one video and its sources, whatever queries fail.
use Prim.Native.String.{String}
use hofvarpnir.Base.{
  ℕ, ◌≡◌, refl, ap, ◌∙◌, Bool, false, Option, none, some, List, [], ◌∷◌, ◌==◌, if◌then◌else◌,
  Result, ok, err, arith, All, Bool-cases, inl, inr, leb_ℤ, ℤ, pos, get_or,
}
use hofvarpnir.Videos.{Video, VideoStatus, cleaned, set_status, update_by_id, find_by_id, has_id}
use hofvarpnir.Videos.Rows.{find_by_id-update_by_id}
use hofvarpnir.Database.{
  World, Db, DbError, Source, Fault, served, refused, unacknowledged, query, under_faults,
  update_video_status, log_and_broadcast,
}
use hofvarpnir.Cleanup.Run.{
  Cleaner, CleanupError, Cleaning, pure, go_on, ◌>>=◌, answer, run_query, remove_video_file,
  log_cleaned, clean_video, Cleaned, tally, clean_each, evict,
}

-- The links, the sources, and the row of the video.
abbrev pub View : Type 0
View = List (ℕ × ℕ) × List Source × Option Video

abbrev pub view : ℕ → World → View
view id w = (w.source_videos, w.sources, find_by_id id w.videos)

abbrev pub OkPost {ℓ} : {E A : Type 0} → (A → Type ℓ) → Result E A → Type ℓ
OkPost Q (err e) = Unit
OkPost Q (ok a) = Q a

module _ (id : ℕ) (V : View) where
  -- The view is kept, and a value that is returned has the property.
  abbrev pub Keeps {ℓ} : {A : Type 0} → (A → Type ℓ) → Cleaning A → Type ℓ
  Keeps Q m = (s : Cleaner) → view id s.world ≡ V → (view id (m s).1.world ≡ V) × OkPost Q (m s).0

  abbrev pub KeepsDb {ℓ} : {A : Type 0} → (A → Type ℓ) → Db A → Type ℓ
  KeepsDb Q q = (w : World) → view id w ≡ V → (view id (q w).1 ≡ V) × OkPost Q (q w).0

  under_faults-Keeps {ℓ} :
      {A : Type 0} (Q : A → Type ℓ) (q : Db A)
      → KeepsDb Q q
      → (faults : List Fault) → KeepsDb Q (under_faults q faults)
  under_faults-Keeps Q q keeps [] w at = keeps w at
  under_faults-Keeps Q q keeps (served ∷ rest) w at = keeps (record w { faults = rest }) at
  under_faults-Keeps Q q keeps (refused e ∷ rest) w at = (at, tt)
  under_faults-Keeps Q q keeps (unacknowledged e ∷ rest) w at =
      ((keeps (record w { faults = rest }) at).0, tt)

  pub query-Keeps {ℓ} : {A : Type 0} (Q : A → Type ℓ) (q : Db A) → KeepsDb Q q → KeepsDb Q (query q)
  query-Keeps Q q keeps w at = under_faults-Keeps Q q keeps w.faults w at

  answer-Keeps {ℓ} :
      {A : Type 0} (Q : A → Type ℓ) (s : Cleaner) (r : Result DbError A × World)
      → (view id r.1 ≡ V) × OkPost Q r.0
      → (view id (answer s r).1.world ≡ V) × OkPost Q (answer s r).0
  answer-Keeps Q s (err e, w) h = h
  answer-Keeps Q s (ok a, w) h = h

  pub run_query-Keeps {ℓ} :
      {A : Type 0} (Q : A → Type ℓ) (q : Db A) → KeepsDb Q q → Keeps Q (run_query q)
  run_query-Keeps Q q keeps s at = answer-Keeps Q s (q s.world) (keeps s.world at)

  go_on-Keeps {ℓ κ} :
      {A B : Type 0} (Q : A → Type ℓ) (R : B → Type κ) (f : A → Cleaning B)
      → ((a : A) → Q a → Keeps R (f a))
      → (r : Result CleanupError A × Cleaner) → (view id r.1.world ≡ V) × OkPost Q r.0
      → (view id (go_on r f).1.world ≡ V) × OkPost R (go_on r f).0
  go_on-Keeps Q R f keeps (err e, s) h = (h.0, tt)
  go_on-Keeps Q R f keeps (ok a, s) h = keeps a h.1 s h.0

  pub >>=-Keeps {ℓ κ} :
      {A B : Type 0} (Q : A → Type ℓ) (R : B → Type κ) (m : Cleaning A) (f : A → Cleaning B)
      → Keeps Q m
      → ((a : A) → Q a → Keeps R (f a))
      → Keeps R (m >>= f)
  >>=-Keeps Q R m f first then_ s at = go_on-Keeps Q R f then_ (m s) (first s at)

  pub pure-Keeps {ℓ} : {A : Type 0} (Q : A → Type ℓ) (a : A) → Q a → Keeps Q (pure a)
  pure-Keeps Q a holds s at = (at, holds)

  remove_video_file-Keeps :
      (stuck : String → Bool) (path : Option String)
      → Keeps (λ _. Unit {0}) (remove_video_file stuck path)
  unfolding remove_video_file
  remove_video_file-Keeps stuck none s at = (at, tt)
  remove_video_file-Keeps stuck (some path) s at = elim (Bool-cases (s.exists path)) [
    | inr gone ↦ rw (gone, remove_video_file) (at, tt)
    | inl present ↦ elim (Bool-cases (stuck path)) [
      | inl fails ↦ rw (present, fails, remove_video_file) (at, tt)
      | inr works ↦ rw (present, works, remove_video_file) (at, tt)
    ]
  ]

  log_cleaned-Keeps : (other : ℕ) → Keeps (λ _. Unit {0}) (log_cleaned other)
  unfolding log_and_broadcast
  log_cleaned-Keeps other s at =
      ((query-Keeps (λ (u : Unit {0}). Unit {0}) _ (λ w at. (at, tt)) s.world at).0, tt)

  other_row :
      (now other : ℕ) (status : VideoStatus) (vs : List Video)
      → (other == id) ≡ false
      → find_by_id id (update_by_id now other (set_status status) vs) ≡ find_by_id id vs
  unfolding set_status
  other_row now other status vs differ =
      find_by_id-update_by_id now other id (set_status status) vs (λ v. refl)
      ∙ go (find_by_id id vs)
    where
      go :
          (o : Option Video)
          → (elim o [
            | none ↦ none
            | some v ↦
                some (if id == other then record (set_status status v) { updated_at = now } else v)
          ])
            ≡ o
      go none = refl
      go (some v) = ground (arith, differ)

  update_video_status-Keeps :
      (now other : ℕ) (status : VideoStatus)
      → (other == id) ≡ false
      → KeepsDb (λ _. Unit {0}) (update_video_status now other status)
  unfolding update_video_status
  update_video_status-Keeps now other status differ =
      query-Keeps (λ _. Unit {0}) _
        λ w at. elim (Bool-cases (has_id other w.videos)) [
          | inl here ↦ rw (here) (
            ap (λ (o : Option Video). (w.source_videos, w.sources, o))
                  (other_row now other status w.videos differ)
                ∙ at,
            tt,
          )
          | inr absent ↦ rw (absent) (at, tt)
        ]

  pub clean_video-Keeps :
      (stuck : String → Bool) (now : ℕ) (v : Video)
      → (v.id == id) ≡ false
      → Keeps (λ _. Unit {0}) (clean_video stuck now v)
  unfolding clean_video
  clean_video-Keeps stuck now v differ =
      >>=-Keeps (λ (u : Unit {0}). Unit {0}) Bytes (remove_video_file stuck v.file_path) _
        (remove_video_file-Keeps stuck v.file_path)
        λ _ _.
          >>=-Keeps (λ (u : Unit {0}). Unit {0}) Bytes
            (run_query (update_video_status now v.id cleaned)) _
            (run_query-Keeps (λ (u : Unit {0}). Unit {0}) (update_video_status now v.id cleaned)
              (update_video_status-Keeps now v.id cleaned differ))
            λ _ _.
              >>=-Keeps (λ (u : Unit {0}). Unit {0}) Bytes (log_cleaned v.id) (λ _. pure freed)
                (log_cleaned-Keeps v.id) λ _ _. pure-Keeps Bytes freed tt
    where
      freed : ℤ
      freed = get_or v.file_size_bytes (pos 0)

      Bytes : ℤ → Type 0
      Bytes b = Unit

  -- The loops over videos that are all others.
  abbrev pub Others : List Video → Type 0
  Others = All (λ (v : Video). (v.id == id) ≡ false)

  pub clean_each-Keeps :
      (stuck : String → Bool) (now : ℕ) (vs : List Video) (c : Cleaned)
      → Others vs
      → Keeps (λ _. Unit {0}) (clean_each stuck now vs c)
  unfolding clean_each
  clean_each-Keeps stuck now [] c others s at = (at, tt)
  clean_each-Keeps stuck now (v ∷ vs) c (other, others) s at =
      clean_each-Keeps stuck now vs (tally c (clean_video stuck now v s).0) others
        (clean_video stuck now v s).1 (clean_video-Keeps stuck now v other s at).0

  pub evict-Keeps :
      (stuck : String → Bool) (now : ℕ) (over_quota : ℤ) (vs : List Video) (c : Cleaned)
      → Others vs
      → Keeps (λ _. Unit {0}) (evict stuck now over_quota vs c)
  unfolding evict
  evict-Keeps stuck now over_quota [] c others s at = (at, tt)
  evict-Keeps stuck now over_quota (v ∷ vs) c (other, others) s at =
      elim (Bool-cases (leb_ℤ over_quota c.bytes)) [
        | inl enough ↦ rw (enough, evict) (at, tt)
        | inr short ↦
            rw (short, evict)
              (evict-Keeps stuck now over_quota vs (tally c (clean_video stuck now v s).0) others
                (clean_video stuck now v s).1 (clean_video-Keeps stuck now v other s at).0)
      ]
