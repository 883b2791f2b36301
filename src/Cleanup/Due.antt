-- ===== src/Cleanup/Due.antt =====
-- What is deleted for its age, and what is announced as due for deletion (db/video.rs).
use hofvarpnir.Base.{
  ℕ, ◌≡◌, refl, ap, sym, ◌∙◌, Bool, true, false, not, ◌&&◌, ◌||◌, Option, none, some, List, [], ◌∷◌,
  map, ℤ, pos, leb_ℤ, any_if, all_if, is_some, is_some_and, arith,
}
use hofvarpnir.Videos.{Video, completed}
use hofvarpnir.Database.{World, Source}
use hofvarpnir.Cleanup.{
  sources_of, effective_retention, after_days, keeps, is_past_retention, max_ℤ, maximum, expiries,
  is_pending_deletion,
}

and_true : (b : Bool) → b ≡ (b && true)
and_true true = refl
and_true false = refl

and_comm : (a b : Bool) → (a && b) ≡ (b && a)
and_comm true true = refl
and_comm true false = refl
and_comm false true = refl
and_comm false false = refl

leb-max : (a b n : ℤ) → leb_ℤ (max_ℤ a b) n ≡ leb_ℤ a n && leb_ℤ b n
leb-max a b n = ground arith

after_no_days : (now : ℕ) → after_days now (pos 0) ≡ pos now
after_no_days now = ground arith

-- One source's retention keeps the video.
abbrev kept : (now at : ℕ) → Option ℤ → Bool
kept now at none = true
kept now at (some days) = not (leb_ℤ (after_days at days) (pos now))

abbrev over_by : ℕ → Option ℤ → Bool
over_by now none = true
over_by now (some t) = leb_ℤ t (pos now)

over_by-cons :
    (now : ℕ) (x : ℤ) (xs : List ℤ)
    → over_by now (maximum (x ∷ xs)) ≡ leb_ℤ x (pos now) && over_by now (maximum xs)
over_by-cons now x xs = go (maximum xs) refl
  where
    go :
        (o : Option ℤ)
        → maximum xs ≡ o
        → over_by now (maximum (x ∷ xs)) ≡ leb_ℤ x (pos now) && over_by now (maximum xs)
    go none is = rw (is, maximum) (and_true (leb_ℤ x (pos now)))
    go (some y) is = rw (is, maximum) (leb-max x y (pos now))

latest_step : (t a m k : Bool) → (t && m) ≡ not k → (t && (a && m)) ≡ not (not a || k)
latest_step t true m k h = h
latest_step true false m k h = refl
latest_step false false m k h = refl

-- The latest expiry has passed exactly when no source keeps the video.
latest-kept :
    (now at : ℕ) (rs : List (Option ℤ))
    → (all_if (λ r. is_some r) rs && over_by now (maximum (expiries at rs)))
      ≡ not (any_if (kept now at) rs)
latest-kept now at [] = refl
latest-kept now at (none ∷ rs) = refl
latest-kept now at (some d ∷ rs) =
    ap (λ b. all_if (λ r. is_some r) rs && b) (over_by-cons now (after_days at d) (expiries at rs))
    ∙ latest_step _ (leb_ℤ (after_days at d) (pos now)) _ _ (latest-kept now at rs)

-- A group that is not empty and has only values has a maximum.
within-over_by :
    (now at : ℕ) (rs : List (Option ℤ))
    → any_if (λ r. true) rs ≡ true
    → (all_if (λ r. is_some r) rs
        && is_some_and (maximum (expiries at rs)) (λ t. leb_ℤ t (pos now)))
      ≡ (all_if (λ r. is_some r) rs && over_by now (maximum (expiries at rs)))
within-over_by now at [] some_one = absurd (cc)
within-over_by now at (none ∷ rs) some_one = refl
within-over_by now at (some d ∷ rs) some_one = go (maximum (expiries at rs)) refl
  where
    go :
        (o : Option ℤ)
        → maximum (expiries at rs) ≡ o
        → (all_if (λ r. is_some r) rs
            && is_some_and (maximum (expiries at (some d ∷ rs))) (λ t. leb_ℤ t (pos now)))
          ≡ (all_if (λ r. is_some r) rs && over_by now (maximum (expiries at (some d ∷ rs))))
    go none is = rw (is, maximum) refl
    go (some y) is = rw (is, maximum) refl

module _ (w : World) (global : Option ℤ) (now at : ℕ) where
  keeps_kept : (s : Source) → keeps w global now at s ≡ kept now at (effective_retention w global s)
  unfolding keeps
  keeps_kept s = go (effective_retention w global s) refl
    where
      go :
          (o : Option ℤ)
          → effective_retention w global s ≡ o
          → keeps w global now at s ≡ kept now at (effective_retention w global s)
      go none is = rw (is, keeps) refl
      go (some d) is = rw (is, keeps) refl

  any-keeps :
      (ss : List Source)
      → any_if (keeps w global now at) ss
        ≡ any_if (kept now at) (map (effective_retention w global) ss)
  any-keeps [] = refl
  any-keeps (s ∷ ss) = simp (keeps_kept s, any-keeps ss)

  -- The latest expiry over the sources, and whether it has passed.
  abbrev passed : List Source → Bool
  passed ss =
      let rs = map (effective_retention w global) ss in
      all_if (λ r. is_some r) rs
      && is_some_and (maximum (expiries at rs)) (λ t. leb_ℤ t (after_days now (pos 0)))

  unkept :
      (s : Source) (ss : List Source)
      → not (any_if (keeps w global now at) (s ∷ ss)) ≡ passed (s ∷ ss)
  unkept s ss =
      ap not (any-keeps (s ∷ ss))
      ∙ sym (latest-kept now at (map (effective_retention w global) (s ∷ ss)))
      ∙ sym (within-over_by now at (map (effective_retention w global) (s ∷ ss)) refl)
      ∙ ap
          (λ n.
            all_if (λ r. is_some r) (map (effective_retention w global) (s ∷ ss))
            && is_some_and (maximum (expiries at (map (effective_retention w global) (s ∷ ss))))
                (λ t. leb_ℤ t n))
          (sym (after_no_days now))

  rule :
      (ss : List Source)
      → (not (any_if (keeps w global now at) ss)
          && not (any_if (λ (s : Source). s.exclude_from_cleanup) ss))
        ≡ (not (any_if (λ (s : Source). s.exclude_from_cleanup) ss)
            && (not (any_if (λ (s : Source). true) ss)
                || any_if (λ (s : Source). true) ss && passed ss))
  rule [] = refl
  rule (s ∷ ss) =
      ap (λ b. b && not (any_if (λ (s : Source). s.exclude_from_cleanup) (s ∷ ss))) (unkept s ss)
      ∙ and_comm (passed (s ∷ ss))
          (not (any_if (λ (s' : Source). s'.exclude_from_cleanup) (s ∷ ss)))

-- A completed video is deleted for its age exactly when none of its sources is excluded from the
-- cleanup, and it is announced as due today or has no source at all.
pub past_retention-pending :
    (w : World) (global : Option ℤ) (now at : ℕ) (v : Video)
    → v.status ≡ completed
    → v.downloaded_at ≡ some at
    → is_past_retention w global now v ≡ (
        not (any_if (λ (s : Source). s.exclude_from_cleanup) (sources_of w v.id))
        && (not (any_if (λ (s : Source). true) (sources_of w v.id))
            || is_pending_deletion w global none (some (pos 0)) now v))
unfolding is_past_retention is_pending_deletion
past_retention-pending w global now at v done downloaded =
    rw (done, downloaded, is_past_retention, is_pending_deletion)
      (rule w global now at (sources_of w v.id))
