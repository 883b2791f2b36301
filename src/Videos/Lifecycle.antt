-- ===== src/Videos/Lifecycle.antt =====
-- When the sweep picks a video up again, after each statement on it (db/video.rs).
use hofvarpnir.Base.{ℕ, ◌≤◌, ◌≡◌, ◌↔◌, true, some, arith}
use hofvarpnir.Videos.{Video, pending, failed, is_ready, set_status}

-- A failed video with a retry time t that is set to pending by a manual retry, and then cancelled
-- before a worker claims it, is not cancelled for good: the sweep finds it from t on.
pub retried_cancelled-ready :
    (v : Video) (t now : ℕ)
    → v.status ≡ failed
    → v.next_retry ≡ some t
    → (is_ready now (set_status failed (set_status pending v)) ≡ true) ↔ (t ≤ now)
unfolding set_status is_ready
retried_cancelled-ready v t now f r = ((λ h. ground arith), (λ h. ground arith))
