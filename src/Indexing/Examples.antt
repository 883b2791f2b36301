-- ===== src/Indexing/Examples.antt =====
-- Examples of the counts of an indexing run and of their message.
use hofvarpnir.Base.{◌+◌, ◌≡◌, refl, some, none, List, [], ◌∷◌, arith}
use hofvarpnir.Text.{
  Text, codes, equal_text, strip_prefix, strip_suffix, split_once, split_after, split, digits,
  format, scan, parse,
}
use hofvarpnir.Indexing.{
  IndexingResult, filtered_summary, indexed_message, SourceIndexingSummary, set_part, read_part,
  read_parts, read_count, parse_primary_counts, summary_of, parse_breakdown, parse_rest,
  parse_source_indexing_summary,
}
use hofvarpnir.Indexing.RoundTrip.{summary, parse_source_indexing_summary-indexed_message}
use hofvarpnir.Indexing.Counts.{unfiltered, record_all, parse_source_indexing_summary-record_all}

abbrev result : IndexingResult
result = record {
  new_videos = 3;
  existing_videos = 120;
  filtered_out = 7;
  filtered_before_cutoff = 4;
  filtered_shorts = 2;
  filtered_livestreams = 0;
  filtered_unavailable = 0;
  filtered_private = 1;
  filtered_other = 0;
  errors = [];
}

message :
    indexed_message result
    ≡ codes
        "Indexed successfully — 3 new, 120 existing, 7 filtered (cutoff=4, shorts=2, livestreams=0, unavailable=0, private=1, other=0)"
unfolding indexed_message filtered_summary format digits
message = refl

parse_source_indexing_summary-indexed_message_example :
    parse_source_indexing_summary (indexed_message result) ≡ some (summary result)
parse_source_indexing_summary-indexed_message_example =
    parse_source_indexing_summary-indexed_message result (
      omega arith,
      omega arith,
      omega arith,
      omega arith,
      omega arith,
      omega arith,
      omega arith,
      omega arith,
      omega arith,
    )

-- A message with an unknown part is not read.
unknown_part :
    parse_source_indexing_summary
      (codes "Indexed successfully — 3 new, 1 existing, 0 filtered (cutoff=0, size=2)")
    ≡ none
unfolding parse_source_indexing_summary parse_rest parse_breakdown parse_primary_counts read_count
    read_parts read_part set_part summary_of strip_prefix strip_suffix split_once split_after split
    equal_text parse scan
unknown_part = refl

abbrev keep_case : Text → Text
keep_case reason = reason

abbrev reasons : List Text
reasons = codes "short" ∷ codes "private" ∷ []

parse_source_indexing_summary-record_all_example :
    (found : SourceIndexingSummary) × (parse_source_indexing_summary
        (indexed_message (record_all keep_case reasons (unfiltered 1 5)))
      ≡ some found)
    × (found.new_videos ≡ 1)
    × (found.existing_videos ≡ 5)
    × (found.filtered_total ≡ 2)
    × (found.filtered_before_cutoff + found.filtered_shorts + found.filtered_livestreams
          + found.filtered_unavailable + found.filtered_private + found.filtered_other
        ≡ 2)
parse_source_indexing_summary-record_all_example =
    parse_source_indexing_summary-record_all keep_case 1 5 reasons (omega arith) (omega arith)
      (omega arith)
