-- ===== src/Indexing.antt =====
-- crates/hof-core/src/actors/source_indexer.rs and crates/hof-core/src/domain/activity.rs: the
-- counts of an indexing run, the message that reports them, and how it is read back.
pub mod Walk
pub mod Execute
pub mod Verdicts
pub mod Early
pub mod Enqueued
pub mod Cleared
pub mod Counts
pub mod RoundTrip
mod Examples
mod Runs
use hofvarpnir.Base.{
  ℕ, ◌+◌, ◌%◌, ◌^◌, Bool, true, false, ◌||◌, Option, none, some, List, [], ◌∷◌, ◌++◌, if◌then◌else◌,
}
use hofvarpnir.Text.{
  Text, codes, ◌>>=◌, equal_text, strip_prefix, strip_suffix, split_once, split, format, parse,
  is_some,
}

pub record IndexingResult : Type 0 where
  pub new_videos : ℕ
  pub existing_videos : ℕ
  pub filtered_out : ℕ
  pub filtered_before_cutoff : ℕ
  pub filtered_shorts : ℕ
  pub filtered_livestreams : ℕ
  pub filtered_unavailable : ℕ
  pub filtered_private : ℕ
  pub filtered_other : ℕ
  pub errors : List Text

-- `+= 1` on a `usize`.
abbrev pub add_one : ℕ → ℕ
add_one n = (n + 1) % 2 ^ 64

-- `str::contains`.
unfoldable pub contains_text : Text → Text → Bool
unfolding strip_prefix
contains_text pattern [] = is_some (strip_prefix pattern [])
contains_text pattern (c ∷ s) =
    let later = contains_text pattern s in is_some (strip_prefix pattern (c ∷ s)) || later

-- `to_lowercase` is a parameter: it is the standard library's table of the letters.
unfoldable pub record_filtered :
    (to_lowercase : Text → Text) → Text → IndexingResult → IndexingResult
unfolding contains_text
record_filtered to_lowercase reason result =
    let result = record result { filtered_out = add_one result.filtered_out } in
    let reason_lower = to_lowercase reason in
    if contains_text (codes "cutoff") reason_lower
    then record result { filtered_before_cutoff = add_one result.filtered_before_cutoff }
    else if contains_text (codes "short") reason_lower
    then record result { filtered_shorts = add_one result.filtered_shorts }
    else if contains_text (codes "livestream") reason_lower
        || contains_text (codes "live stream") reason_lower
    then record result { filtered_livestreams = add_one result.filtered_livestreams }
    else if contains_text (codes "private") reason_lower
    then record result { filtered_private = add_one result.filtered_private }
    else if contains_text (codes "unavailable") reason_lower
        || contains_text (codes "removed") reason_lower
    then record result { filtered_unavailable = add_one result.filtered_unavailable }
    else record result { filtered_other = add_one result.filtered_other }

unfoldable pub filtered_summary : IndexingResult → Text
filtered_summary result =
    codes "cutoff="
    ++ (format result.filtered_before_cutoff
        ++ (codes ", shorts="
            ++ (format result.filtered_shorts
                ++ (codes ", livestreams="
                    ++ (format result.filtered_livestreams
                        ++ (codes ", unavailable="
                            ++ (format result.filtered_unavailable
                                ++ (codes ", private="
                                    ++ (format result.filtered_private
                                        ++ (codes ", other="
                                            ++ format result.filtered_other))))))))))

abbrev pub source_indexed_prefix : Text
source_indexed_prefix = codes "Indexed successfully — "

-- The message of `IndexingCompleted`, when there are no errors.
unfoldable pub indexed_message : IndexingResult → Text
unfolding filtered_summary
indexed_message result =
    codes "Indexed successfully — "
    ++ (format result.new_videos
        ++ (codes " new, "
            ++ (format result.existing_videos
                ++ (codes " existing, "
                    ++ (format result.filtered_out
                        ++ (codes " filtered (" ++ (filtered_summary result ++ codes ")")))))))

pub record SourceIndexingSummary : Type 0 where
  pub new_videos : ℕ
  pub existing_videos : ℕ
  pub filtered_total : ℕ
  pub filtered_before_cutoff : ℕ
  pub filtered_shorts : ℕ
  pub filtered_livestreams : ℕ
  pub filtered_unavailable : ℕ
  pub filtered_private : ℕ
  pub filtered_other : ℕ

-- The variables of the loop over the parts.
pub record Breakdown : Type 0 where
  pub filtered_before_cutoff : Option ℕ
  pub filtered_shorts : Option ℕ
  pub filtered_livestreams : Option ℕ
  pub filtered_unavailable : Option ℕ
  pub filtered_private : Option ℕ
  pub filtered_other : Option ℕ

abbrev pub no_breakdown : Breakdown
no_breakdown = record {
  filtered_before_cutoff = none;
  filtered_shorts = none;
  filtered_livestreams = none;
  filtered_unavailable = none;
  filtered_private = none;
  filtered_other = none;
}

unfoldable pub set_part : Text → ℕ → Breakdown → Option Breakdown
unfolding equal_text
set_part key parsed found =
    if equal_text key (codes "cutoff")
    then some (record found { filtered_before_cutoff = some parsed })
    else if equal_text key (codes "shorts")
    then some (record found { filtered_shorts = some parsed })
    else if equal_text key (codes "livestreams")
    then some (record found { filtered_livestreams = some parsed })
    else if equal_text key (codes "unavailable")
    then some (record found { filtered_unavailable = some parsed })
    else if equal_text key (codes "private")
    then some (record found { filtered_private = some parsed })
    else if equal_text key (codes "other")
    then some (record found { filtered_other = some parsed })
    else none

unfoldable pub read_part : Text → Breakdown → Option Breakdown
unfolding set_part split_once parse
read_part part found =
    split_once (codes "=") part >>= λ pair. parse pair.1 >>= λ parsed. set_part pair.0 parsed found

unfoldable pub read_parts : List Text → Breakdown → Option Breakdown
unfolding read_part
read_parts [] found = some found
read_parts (part ∷ parts) found = read_part part found >>= read_parts parts

unfoldable pub read_count : (suffix part : Text) → Option ℕ
unfolding strip_suffix parse
read_count suffix part = strip_suffix suffix part >>= parse

unfoldable pub parse_primary_counts : Text → Option (ℕ × ℕ × ℕ)
unfolding read_count split
parse_primary_counts counts = elim (split (codes ", ") counts) [
  | (new_part ∷ existing_part ∷ filtered_part ∷ []) ↦
      read_count (codes " new") new_part >>= λ new_videos.
      read_count (codes " existing") existing_part >>= λ existing_videos.
      read_count (codes " filtered") filtered_part >>= λ filtered_total.
      some (new_videos, existing_videos, filtered_total)
  | _ ↦ none
]

-- The summary, if every part of the breakdown was there.
unfoldable pub summary_of : ℕ × ℕ × ℕ → Breakdown → Option SourceIndexingSummary
summary_of (new_videos, existing_videos, filtered_total) found =
    found.filtered_before_cutoff >>= λ before_cutoff. found.filtered_shorts >>= λ shorts.
    found.filtered_livestreams >>= λ livestreams. found.filtered_unavailable >>= λ unavailable.
    found.filtered_private >>= λ private. found.filtered_other >>= λ other. some (record {
      new_videos = new_videos;
      existing_videos = existing_videos;
      filtered_total = filtered_total;
      filtered_before_cutoff = before_cutoff;
      filtered_shorts = shorts;
      filtered_livestreams = livestreams;
      filtered_unavailable = unavailable;
      filtered_private = private;
      filtered_other = other;
    })

unfoldable pub parse_breakdown : (counts breakdown : Text) → Option SourceIndexingSummary
unfolding parse_primary_counts split read_parts summary_of
parse_breakdown counts breakdown = parse_primary_counts counts >>= λ primary.
    read_parts (split (codes ", ") breakdown) no_breakdown >>= summary_of primary

unfoldable pub parse_rest : Text → Option SourceIndexingSummary
unfolding split_once strip_suffix parse_breakdown
parse_rest rest = split_once (codes " (") rest >>= λ pair.
    strip_suffix (codes ")") pair.1 >>= parse_breakdown pair.0

unfoldable pub parse_source_indexing_summary : Text → Option SourceIndexingSummary
unfolding strip_prefix parse_rest
parse_source_indexing_summary message = strip_prefix source_indexed_prefix message >>= parse_rest
