-- ===== src/Videos/Rows.antt =====
-- Statements on the table of videos, row by row (db/video.rs).
use hofvarpnir.Base.{ℕ, ◌≡◌, refl, none, some, List, [], ◌∷◌, ◌==◌, if◌then◌else◌, arith}
use hofvarpnir.Videos.{Video, update_by_id, find_by_id}

-- An UPDATE by id that keeps the rows' ids changes what is found under the id, and stamps it with
-- the time; it changes what is found under no other id.
pub find_by_id-update_by_id :
    (now id j : ℕ) (set : Video → Video) (vs : List Video)
    → ((v : Video) → (set v).id ≡ v.id)
    → find_by_id j (update_by_id now id set vs) ≡ elim (find_by_id j vs) [
      | none ↦ none
      | some v ↦ some (if j == id then record (set v) { updated_at = now } else v)
    ]
unfolding find_by_id update_by_id
find_by_id-update_by_id now id j set [] keeps = refl
find_by_id-update_by_id now id j set (v ∷ vs) keeps =
    ground (arith, keeps v, find_by_id-update_by_id now id j set vs keeps)
