-- ===== src/Videos/Examples.antt =====
-- Examples of the table of videos.
use hofvarpnir.Base.{◌≡◌, ◌≤◌, ◌↔◌, true, refl, some, List, [], ◌∷◌}
use hofvarpnir.Samples.{video}
use hofvarpnir.Videos.{Video, pending, failed, is_ready, set_status}
use hofvarpnir.Videos.Lifecycle.{retried_cancelled-ready}

abbrev older : Video
older = record video { id = 8; created_at = 1000 }

abbrev table : List Video
table = video ∷ older ∷ []

abbrev failed_video : Video
failed_video = record video { status = failed; next_retry = some 600 }

retried_cancelled-ready_example :
    (is_ready 700 (set_status failed (set_status pending failed_video)) ≡ true) ↔ (600 ≤ 700)
retried_cancelled-ready_example = retried_cancelled-ready failed_video 600 700 refl refl
