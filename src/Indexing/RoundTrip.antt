-- ===== src/Indexing/RoundTrip.antt =====
-- The report of an indexing run is read back from its message (domain/activity.rs).
use mathlib.Core.List.{append_assoc}
use hofvarpnir.Base.{ℕ, ◌≤◌, ◌≡◌, ◌≢◌, refl, ap, ◌∙◌, Option, some, List, [], ◌∷◌, ◌++◌, arith}
use hofvarpnir.Text.{Text, Lacks, codes, ◌>>=◌, split, format, usize_max, equal_text}
use hofvarpnir.Text.Affix.{All-append, strip_prefix-append, strip_suffix-append}
use hofvarpnir.Text.Split.{split_once-char, split_once-pair, split-last, split-cons}
use hofvarpnir.Text.Decimal.{IsDigit, parse-format, Lacks-format}
use hofvarpnir.Indexing.{
  IndexingResult, filtered_summary, source_indexed_prefix, indexed_message, SourceIndexingSummary,
  Breakdown, no_breakdown, summary_of, parse_breakdown, parse_rest, set_part, read_part, read_parts,
  read_count, parse_primary_counts, parse_source_indexing_summary,
}

-- The counts before the breakdown.
primary : (new existing filtered : ℕ) → Text
primary new existing filtered =
    (format new ++ codes " new")
    ++ (b','
        ∷ b' '
        ∷ ((format existing ++ codes " existing")
            ++ (b',' ∷ b' ' ∷ (format filtered ++ codes " filtered"))))

message-primary :
    (result : IndexingResult)
    → indexed_message result
      ≡ source_indexed_prefix
        ++ (primary result.new_videos result.existing_videos result.filtered_out
            ++ (b' ' ∷ b'(' ∷ (filtered_summary result ++ codes ")")))
unfolding indexed_message primary
message-primary result = simp (append_assoc)

Lacks-count :
    (b n : ℕ) (suffix : Text) → (IsDigit b → ⊥) → Lacks b suffix → Lacks b (format n ++ suffix)
Lacks-count b n suffix other lacks =
    All-append (λ c. c ≢ b) (format n) suffix (Lacks-format b n other) lacks

Lacks-primary : (new existing filtered : ℕ) → Lacks b'(' (primary new existing filtered)
unfolding primary
Lacks-primary new existing filtered =
    All-append (λ c. c ≢ b'(') (format new ++ codes " new") _
      (Lacks-count b'(' new (codes " new") (λ d. absurd (omega arith)) (omega arith))
      (
        omega arith,
        (
          omega arith,
          All-append (λ c. c ≢ b'(') (format existing ++ codes " existing") _
              (Lacks-count b'(' existing (codes " existing") (λ d. absurd (omega arith))
                (omega arith))
              (
                omega arith,
                (
                  omega arith,
                  Lacks-count b'(' filtered (codes " filtered") (λ d. absurd (omega arith))
                      (omega arith),
                ),
              ),
        ),
      )

read_count-format :
    (n : ℕ) (suffix : Text) → n ≤ usize_max → read_count suffix (format n ++ suffix) ≡ some n
unfolding read_count
read_count-format n suffix fits =
    rw (strip_suffix-append (format n) suffix, read_count) (parse-format n fits)

split-primary :
    (new existing filtered : ℕ)
    → split (codes ", ") (primary new existing filtered)
      ≡ (format new ++ codes " new")
        ∷ (format existing ++ codes " existing")
        ∷ (format filtered ++ codes " filtered")
        ∷ []
unfolding primary
split-primary new existing filtered =
    split-cons b',' b' ' _ _
      (Lacks-count b',' new (codes " new") (λ d. absurd (omega arith)) (omega arith))
      (split-cons b',' b' ' _ _
        (Lacks-count b',' existing (codes " existing") (λ d. absurd (omega arith)) (omega arith))
        (split-last b',' b' ' _ (
          Lacks-count b',' filtered (codes " filtered") (λ d. absurd (omega arith)) (omega arith))))

parse_primary_counts-primary :
    (new existing filtered : ℕ)
    → new ≤ usize_max
    → existing ≤ usize_max
    → filtered ≤ usize_max
    → parse_primary_counts (primary new existing filtered) ≡ some (new, existing, filtered)
unfolding parse_primary_counts
parse_primary_counts-primary new existing filtered fits_new fits_existing fits_filtered =
    rw
      (
        split-primary new existing filtered,
        read_count-format new (codes " new") fits_new,
        read_count-format existing (codes " existing") fits_existing,
        read_count-format filtered (codes " filtered") fits_filtered,
        parse_primary_counts,
      )
      refl

part : (key : Text) (n : ℕ) → Text
part key n = key ++ (b'=' ∷ format n)

Lacks-part : (key : Text) (n : ℕ) → Lacks b',' key → Lacks b',' (part key n)
unfolding part
Lacks-part key n lacks =
    All-append (λ c. c ≢ b',') key (b'=' ∷ format n) lacks
      (omega arith, Lacks-format b',' n (λ d. absurd (omega arith)))

read_part-part :
    (key : Text) (n : ℕ) (found : Breakdown)
    → Lacks b'=' key
    → n ≤ usize_max
    → read_part (part key n) found ≡ set_part key n found
unfolding read_part part
read_part-part key n found lacks fits =
    rw (split_once-char b'=' key (format n) lacks, parse-format n fits, read_part) refl

read_parts-cons :
    (key : Text) {n : ℕ} (parts : List Text) (found : Breakdown) {found' : Breakdown}
    {answer : Option Breakdown}
    → Lacks b'=' key
    → n ≤ usize_max
    → set_part key n found ≡ some found'
    → read_parts parts found' ≡ answer
    → read_parts (part key n ∷ parts) found ≡ answer
unfolding read_parts
read_parts-cons key {n} parts found lacks fits set later =
    rw (read_part-part key n found lacks fits, set, read_parts) later

read_parts-nil : (found : Breakdown) → read_parts [] found ≡ some found
unfolding read_parts
read_parts-nil found = refl

abbrev summary_parts : IndexingResult → List Text
summary_parts result =
    part (codes "cutoff") result.filtered_before_cutoff
    ∷ part (codes "shorts") result.filtered_shorts
    ∷ part (codes "livestreams") result.filtered_livestreams
    ∷ part (codes "unavailable") result.filtered_unavailable
    ∷ part (codes "private") result.filtered_private
    ∷ part (codes "other") result.filtered_other
    ∷ []

split-summary :
    (result : IndexingResult) → split (codes ", ") (filtered_summary result) ≡ summary_parts result
unfolding filtered_summary part
split-summary result =
    split-cons b',' b' ' (part (codes "cutoff") result.filtered_before_cutoff) _
      (Lacks-part (codes "cutoff") _ (omega arith))
      (split-cons b',' b' ' (part (codes "shorts") result.filtered_shorts) _
        (Lacks-part (codes "shorts") _ (omega arith))
        (split-cons b',' b' ' (part (codes "livestreams") result.filtered_livestreams) _
          (Lacks-part (codes "livestreams") _ (omega arith))
          (split-cons b',' b' ' (part (codes "unavailable") result.filtered_unavailable) _
            (Lacks-part (codes "unavailable") _ (omega arith))
            (split-cons b',' b' ' (part (codes "private") result.filtered_private) _
              (Lacks-part (codes "private") _ (omega arith))
              (split-last b',' b' ' (part (codes "other") result.filtered_other)
                (Lacks-part (codes "other") _ (omega arith)))))))

-- The counts fit in a `usize`.
abbrev Fits : IndexingResult → Type 0
Fits result =
    (result.new_videos ≤ usize_max)
    × (result.existing_videos ≤ usize_max)
    × (result.filtered_out ≤ usize_max)
    × (result.filtered_before_cutoff ≤ usize_max)
    × (result.filtered_shorts ≤ usize_max)
    × (result.filtered_livestreams ≤ usize_max)
    × (result.filtered_unavailable ≤ usize_max)
    × (result.filtered_private ≤ usize_max)
    × (result.filtered_other ≤ usize_max)

read_parts-summary :
    (result : IndexingResult)
    → Fits result
    → read_parts (summary_parts result) no_breakdown
      ≡ some (record {
        filtered_before_cutoff = some result.filtered_before_cutoff;
        filtered_shorts = some result.filtered_shorts;
        filtered_livestreams = some result.filtered_livestreams;
        filtered_unavailable = some result.filtered_unavailable;
        filtered_private = some result.filtered_private;
        filtered_other = some result.filtered_other;
      })
unfolding set_part equal_text
read_parts-summary result (n, e, f, cutoff, shorts, livestreams, unavailable, private, other) =
    read_parts-cons (codes "cutoff") _ _ (omega arith) cutoff refl (
      read_parts-cons (codes "shorts") _ _ (omega arith) shorts refl (
        read_parts-cons (codes "livestreams") _ _ (omega arith) livestreams refl (
          read_parts-cons (codes "unavailable") _ _ (omega arith) unavailable refl (
            read_parts-cons (codes "private") _ _ (omega arith) private refl
              (read_parts-cons (codes "other") _ _ (omega arith) other refl (read_parts-nil _))))))

-- What the summary of a run is to say.
abbrev pub summary : IndexingResult → SourceIndexingSummary
summary result = record {
  new_videos = result.new_videos;
  existing_videos = result.existing_videos;
  filtered_total = result.filtered_out;
  filtered_before_cutoff = result.filtered_before_cutoff;
  filtered_shorts = result.filtered_shorts;
  filtered_livestreams = result.filtered_livestreams;
  filtered_unavailable = result.filtered_unavailable;
  filtered_private = result.filtered_private;
  filtered_other = result.filtered_other;
}

parse_breakdown-summary :
    (result : IndexingResult)
    → Fits result
    → parse_breakdown
        (primary result.new_videos result.existing_videos result.filtered_out)
        (filtered_summary result)
      ≡ some (summary result)
unfolding parse_breakdown summary_of
parse_breakdown-summary result fits =
    rw
      (
        parse_primary_counts-primary result.new_videos result.existing_videos result.filtered_out
            fits.0 fits.1 fits.2,
        split-summary result,
        read_parts-summary result fits,
        parse_breakdown,
      )
      refl

parse_rest-primary :
    (result : IndexingResult)
    → Fits result
    → parse_rest (
        primary result.new_videos result.existing_videos result.filtered_out
        ++ (b' ' ∷ b'(' ∷ (filtered_summary result ++ codes ")")))
      ≡ some (summary result)
unfolding parse_rest
parse_rest-primary result fits =
    let counts = primary result.new_videos result.existing_videos result.filtered_out in
    rw
      (
        split_once-pair b' ' b'(' counts (filtered_summary result ++ codes ")") (omega arith)
            (Lacks-primary result.new_videos result.existing_videos result.filtered_out),
        strip_suffix-append (filtered_summary result) (codes ")"),
        parse_rest,
      )
      (parse_breakdown-summary result fits)

-- The message of a run whose counts fit in a `usize` is read back: the summary has its counts.
pub parse_source_indexing_summary-indexed_message :
    (result : IndexingResult)
    → Fits result
    → parse_source_indexing_summary (indexed_message result) ≡ some (summary result)
unfolding parse_source_indexing_summary
parse_source_indexing_summary-indexed_message result fits =
    let rest =
      primary result.new_videos result.existing_videos result.filtered_out
      ++ (b' ' ∷ b'(' ∷ (filtered_summary result ++ codes ")")) in
    ap parse_source_indexing_summary (message-primary result)
    ∙ ap (λ o. o >>= parse_rest) (strip_prefix-append source_indexed_prefix rest)
    ∙ parse_rest-primary result fits
