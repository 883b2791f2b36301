-- ===== src/Indexing/Counts.antt =====
-- The reasons that are counted while a source is indexed (actors/source_indexer.rs).
use hofvarpnir.Base.{ℕ, ◌+◌, ◌≤◌, ◌≡◌, refl, some, List, [], ◌∷◌, length, arith}
use hofvarpnir.Text.{Text, usize_max}
use hofvarpnir.Indexing.{
  IndexingResult, record_filtered, SourceIndexingSummary, indexed_message,
  parse_source_indexing_summary,
}
use hofvarpnir.Indexing.RoundTrip.{summary, parse_source_indexing_summary-indexed_message}

abbrev parts_total : IndexingResult → ℕ
parts_total result =
    result.filtered_before_cutoff + result.filtered_shorts + result.filtered_livestreams
    + result.filtered_unavailable + result.filtered_private + result.filtered_other

-- A run that has found so many new and existing videos, and filtered none.
abbrev pub unfiltered : (new_videos existing_videos : ℕ) → IndexingResult
unfiltered new_videos existing_videos = record {
  new_videos = new_videos;
  existing_videos = existing_videos;
  filtered_out = 0;
  filtered_before_cutoff = 0;
  filtered_shorts = 0;
  filtered_livestreams = 0;
  filtered_unavailable = 0;
  filtered_private = 0;
  filtered_other = 0;
  errors = [];
}

module _ (to_lowercase : Text → Text) where
  abbrev pub record_all : List Text → IndexingResult → IndexingResult
  record_all [] result = result
  record_all (reason ∷ reasons) result =
      record_all reasons (record_filtered to_lowercase reason result)

  -- The reasons are counted so far, next to the videos.
  abbrev Counts : (new_videos existing_videos n : ℕ) → IndexingResult → Type 0
  Counts new_videos existing_videos n result =
      (result.new_videos ≡ new_videos)
      × (result.existing_videos ≡ existing_videos)
      × (result.filtered_out ≡ n)
      × (parts_total result ≡ n)

  record_filtered-Counts :
      (new existing n : ℕ) (reason : Text) (result : IndexingResult)
      → n + 1 ≤ usize_max
      → Counts new existing n result
      → Counts new existing (n + 1) (record_filtered to_lowercase reason result)
  unfolding record_filtered
  record_filtered-Counts new existing n reason result fits (is_new, is_existing, out, total) =
      ground (arith, fits, is_new, is_existing, out, total)

  record_all-Counts :
      (new existing n : ℕ) (reasons : List Text) (result : IndexingResult)
      → n + length reasons ≤ usize_max
      → Counts new existing n result
      → Counts new existing (n + length reasons) (record_all reasons result)
  record_all-Counts new existing n [] result fits (is_new, is_existing, out, total) =
      (is_new, is_existing, omega (arith, out), omega (arith, total))
  record_all-Counts new existing n (reason ∷ reasons) result fits counts =
      let (is_new, is_existing, out, total) =
        record_all-Counts new existing (n + 1) reasons (record_filtered to_lowercase reason result)
          (omega (arith, fits))
          (record_filtered-Counts new existing n reason result (omega (arith, fits)) counts) in
      (is_new, is_existing, omega (arith, out), omega (arith, total))

  -- The summary that is read back from the message of a run says how many videos were new and how
  -- many existed, and its total and the sum of its parts are both the number of the entries that
  -- were filtered, whatever the reasons were, if the numbers fit in a `usize`.
  pub parse_source_indexing_summary-record_all :
      (new existing : ℕ) (reasons : List Text)
      → new ≤ usize_max
      → existing ≤ usize_max
      → length reasons ≤ usize_max
      → (found : SourceIndexingSummary) × (parse_source_indexing_summary
            (indexed_message (record_all reasons (unfiltered new existing)))
          ≡ some found)
        × (found.new_videos ≡ new)
        × (found.existing_videos ≡ existing)
        × (found.filtered_total ≡ length reasons)
        × (found.filtered_before_cutoff + found.filtered_shorts + found.filtered_livestreams
              + found.filtered_unavailable + found.filtered_private + found.filtered_other
            ≡ length reasons)
  parse_source_indexing_summary-record_all new existing reasons fits_new fits_existing fits =
      let result = record_all reasons (unfiltered new existing) in
      let (is_new, is_existing, out, total) =
        record_all-Counts new existing 0 reasons (unfiltered new existing) (omega (arith, fits))
          (refl, refl, refl, refl) in
      (
        summary result,
        parse_source_indexing_summary-indexed_message result (
          omega (arith, fits_new, is_new),
          omega (arith, fits_existing, is_existing),
          omega (arith, fits, out),
          omega (arith, fits, total),
          omega (arith, fits, total),
          omega (arith, fits, total),
          omega (arith, fits, total),
          omega (arith, fits, total),
          omega (arith, fits, total),
        ),
        is_new,
        is_existing,
        omega (arith, out),
        omega (arith, total),
      )
