-- ===== src/Videos/Sweep.antt =====
-- What the sweep's query returns (db/video.rs).
use mathlib.Core.List.Perm
use hofvarpnir.Base.{
  ℕ, ◌≤◌, ◌≡◌, true, List, [], ◌∷◌, All, filter_if, leb, Bool-cases, inl, inr, arith, Perm,
}
use hofvarpnir.Videos.{
  Video, is_ready, insert_by_created_at, order_by_created_at, list_videos_ready_for_download,
}

-- Oldest first.
abbrev pub IsOldestFirst : List Video → Type 0
IsOldestFirst [] = Unit
IsOldestFirst (v ∷ vs) = All (λ u. v.created_at ≤ u.created_at) vs × IsOldestFirst vs

insert-All :
    (P : Video → Type 0) (v : Video) (vs : List Video)
    → P v
    → All P vs
    → All P (insert_by_created_at v vs)
unfolding insert_by_created_at
insert-All P v [] h a = (h, tt)
insert-All P v (u ∷ us) h a = elim (Bool-cases (leb v.created_at u.created_at)) [
  | inl le ↦ rw le (h, a)
  | inr gt ↦ rw gt (a.0, insert-All P v us h a.1)
]

All-mono :
    (s t : ℕ) (vs : List Video)
    → s ≤ t
    → All (λ u. t ≤ u.created_at) vs
    → All (λ u. s ≤ u.created_at) vs
All-mono s t [] h a = tt
All-mono s t (v ∷ vs) h a = (omega arith, All-mono s t vs h a.1)

insert-IsOldestFirst :
    (v : Video) (vs : List Video) → IsOldestFirst vs → IsOldestFirst (insert_by_created_at v vs)
unfolding insert_by_created_at
insert-IsOldestFirst v [] s = (tt, tt)
insert-IsOldestFirst v (u ∷ us) s = elim (Bool-cases (leb v.created_at u.created_at)) [
  | inl le ↦ rw le ((ground arith, All-mono v.created_at u.created_at us (ground arith) s.0), s)
  | inr gt ↦ rw gt (
    insert-All (λ w. u.created_at ≤ w.created_at) v us (ground arith) s.0,
    insert-IsOldestFirst v us s.1,
  )
]

order-IsOldestFirst : (vs : List Video) → IsOldestFirst (order_by_created_at vs)
unfolding order_by_created_at
order-IsOldestFirst [] = tt
order-IsOldestFirst (v ∷ vs) =
    insert-IsOldestFirst v (order_by_created_at vs) (order-IsOldestFirst vs)

insert-perm : (v : Video) (vs : List Video) → Perm (insert_by_created_at v vs) (v ∷ vs)
unfolding insert_by_created_at
insert-perm v [] = Perm.refl (v ∷ [])
insert-perm v (u ∷ us) = elim (Bool-cases (leb v.created_at u.created_at)) [
  | inl le ↦ rw le (Perm.refl (v ∷ u ∷ us))
  | inr gt ↦ rw gt (Perm.trans (Perm.cons u (insert-perm v us)) (Perm.swap v u us))
]

order-perm : (vs : List Video) → Perm (order_by_created_at vs) vs
unfolding order_by_created_at
order-perm [] = Perm.refl []
order-perm (v ∷ vs) =
    Perm.trans (insert-perm v (order_by_created_at vs)) (Perm.cons v (order-perm vs))

-- The query returns the ready rows, each as often as it is in the table, oldest first.
pub list_videos_ready_for_download-perm :
    (now : ℕ) (vs : List Video)
    → Perm (list_videos_ready_for_download now vs) (filter_if (is_ready now) vs)
      × IsOldestFirst (list_videos_ready_for_download now vs)
unfolding list_videos_ready_for_download
list_videos_ready_for_download-perm now vs =
    (order-perm (filter_if (is_ready now) vs), order-IsOldestFirst (filter_if (is_ready now) vs))

filter-All :
    (now : ℕ) (vs : List Video) → All (λ v. is_ready now v ≡ true) (filter_if (is_ready now) vs)
filter-All now [] = tt
filter-All now (v ∷ vs) = elim (Bool-cases (is_ready now v)) [
  | inl fits ↦ rw fits (fits, filter-All now vs)
  | inr late ↦ rw late (filter-All now vs)
]

order-All : (P : Video → Type 0) (vs : List Video) → All P vs → All P (order_by_created_at vs)
unfolding order_by_created_at
order-All P [] a = tt
order-All P (v ∷ vs) a = insert-All P v (order_by_created_at vs) a.0 (order-All P vs a.1)

-- Only ready rows.
pub list_videos_ready_for_download-All :
    (now : ℕ) (vs : List Video)
    → All (λ v. is_ready now v ≡ true) (list_videos_ready_for_download now vs)
unfolding list_videos_ready_for_download
list_videos_ready_for_download-All now vs =
    order-All (λ v. is_ready now v ≡ true) (filter_if (is_ready now) vs) (filter-All now vs)
