-- ===== src/Cleanup/Quota.antt =====
-- How many videos the quota of a profile evicts (actors/cleanup.rs).
use Prim.Native.String.{String}
use hofvarpnir.Base.{
  ℕ, zero, suc, ◌≤◌, ◌<◌, ◌≡◌, refl, Bool, true, false, List, [], ◌∷◌, ◌⊎◌, inl, inr, Bool-cases, ℤ,
  pos, leb_ℤ, take, length, Result, ok, err, arith,
}
use hofvarpnir.Videos.{Video}
use hofvarpnir.Cleanup.Run.{Cleaner, CleanupError, Cleaned, tally, clean_video, clean_each, evict}

abbrev pub bytes_of : Result CleanupError Cleaned × Cleaner → ℤ
bytes_of (ok c, s) = c.bytes
bytes_of (err e, s) = pos 0

module _ (stuck : String → Bool) (now : ℕ) (over_quota : ℤ) where
  -- The first n videos are cleaned, which is enough, or all there are; fewer are not enough.
  abbrev pub IsShortest : List Video → Cleaned → Cleaner → ℕ → Type 0
  IsShortest vs c s n =
      (evict stuck now over_quota vs c s ≡ clean_each stuck now (take n vs) c s)
      × (n ≤ length vs)
      × ((k : ℕ)
          → k < n
          → leb_ℤ over_quota (bytes_of (clean_each stuck now (take k vs) c s)) ≡ false)
      × ((n ≡ length vs)
          ⊎ (leb_ℤ over_quota (bytes_of (clean_each stuck now (take n vs) c s)) ≡ true))

  one_more :
      (v : Video) (vs : List Video) (c : Cleaned) (s : Cleaner) (n : ℕ)
      → leb_ℤ over_quota c.bytes ≡ false
      → ((k : ℕ)
          → k < n
          → leb_ℤ over_quota (
              bytes_of (
                clean_each stuck now
                  (take k vs)
                  (tally c (clean_video stuck now v s).0)
                  (clean_video stuck now v s).1))
            ≡ false)
      → (k : ℕ) → k < suc n
      → leb_ℤ over_quota (bytes_of (clean_each stuck now (take k (v ∷ vs)) c s)) ≡ false
  unfolding clean_each
  one_more v vs c s n short fewer zero h = short
  one_more v vs c s n short fewer (suc k) h = fewer k (omega (arith, h))

  -- The eviction of a profile's videos, oldest first, is the cleaning of the shortest prefix that
  -- frees enough, or of all of them if none does, whatever queries and deletions of files fail.
  pub evict-IsShortest :
      (vs : List Video) (c : Cleaned) (s : Cleaner) → (n : ℕ) × IsShortest vs c s n
  unfolding evict clean_each
  evict-IsShortest [] c s = (0, (refl, omega arith, (λ k h. absurd (omega (arith, h))), inl refl))
  evict-IsShortest (v ∷ vs) c s = elim (Bool-cases (leb_ℤ over_quota c.bytes)) [
    | inl enough ↦
        (0, (rw (enough, evict) refl, omega arith, (λ k h. absurd (omega (arith, h))), inr enough))
    | inr short ↦
        let (n, (same, le, fewer, end_)) =
          evict-IsShortest vs (tally c (clean_video stuck now v s).0)
            (clean_video stuck now v s).1 in
        (
          suc n,
          (
            rw (short, evict) same,
            omega (arith, le),
            one_more v vs c s n short fewer,
            elim end_ [ inl all ↦ inl (omega (arith, all)) | inr enough ↦ inr enough ],
          ),
        )
  ]
