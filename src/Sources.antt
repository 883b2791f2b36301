-- ===== src/Sources.antt =====
-- crates/hof-core/src/db/source.rs: the statements that decide when a source is indexed.
pub mod Due
pub mod Listed
mod Examples
use Prim.Native.String.{String}
use hofvarpnir.Base.{
  ℕ, ◌+◌, Bool, true, false, ◌&&◌, Option, none, some, ℤ, pos, pos_part, neg_part, leb_ℤ, add_one_ℤ,
  not, List, [], ◌∷◌, ltb, leb, ◌==◌, if◌then◌else◌, filter_if, sort_by, Result, ok, err,
}
use hofvarpnir.Clock.{from_secs}
use hofvarpnir.Database.{DbError, not_found}

-- The columns that the statements here read or write.
pub record SourceRow : Type 0 where
  pub id : ℕ
  pub profile_id : ℕ
  pub enabled : Bool
  pub index_frequency_secs : ℤ
  pub last_indexed_at : Option ℕ
  pub last_error : Option String
  pub index_error_count : ℤ

abbrev max_index_retries : ℤ
max_index_retries = pos 3

-- `last_indexed_at + make_interval(secs => index_frequency_secs) < NOW()`.
abbrev interval_passed : ℕ → ℤ → ℕ → Bool
interval_passed last secs now =
    ltb (last + from_secs (pos_part secs)) (now + from_secs (neg_part secs))

unfoldable pub is_due : ℕ → SourceRow → Bool
is_due now source =
    source.enabled
    && not (leb_ℤ max_index_retries source.index_error_count)
    && elim source.last_indexed_at [
      | none ↦ true
      | some last ↦ interval_passed last source.index_frequency_secs now
    ]

-- `ORDER BY last_indexed_at NULLS FIRST`.
abbrev pub nulls_first : Option ℕ → Option ℕ → Bool
nulls_first none b = true
nulls_first (some a) none = false
nulls_first (some a) (some b) = leb a b

abbrev pub indexed_before : SourceRow → SourceRow → Bool
indexed_before a b = nulls_first a.last_indexed_at b.last_indexed_at

unfoldable pub list_sources_due_for_indexing : ℕ → List SourceRow → List SourceRow
unfolding is_due
list_sources_due_for_indexing now sources = sort_by indexed_before (filter_if (is_due now) sources)

abbrev pub has_source : ℕ → List SourceRow → Bool
has_source id [] = false
has_source id (s ∷ ss) = if s.id == id then true else has_source id ss

abbrev pub update_source_where : ℕ → (SourceRow → SourceRow) → List SourceRow → List SourceRow
update_source_where id set [] = []
update_source_where id set (s ∷ ss) =
    let rest = update_source_where id set ss in if s.id == id then set s ∷ rest else s ∷ rest

-- An UPDATE by id, and `NotFound` if it changes no row.
abbrev execute_on_source :
    ℕ → (SourceRow → SourceRow) → List SourceRow → Result DbError (Unit {0}) × List SourceRow
execute_on_source id set sources =
    if has_source id sources
    then (ok tt, update_source_where id set sources)
    else (err not_found, sources)

abbrev pub set_last_indexed : ℕ → SourceRow → SourceRow
set_last_indexed at source = record source {
  last_indexed_at = some at;
  last_error = none;
  index_error_count = pos 0;
}

abbrev pub set_indexing_error : String → SourceRow → SourceRow
set_indexing_error error source = record source {
  last_error = some error;
  index_error_count = add_one_ℤ source.index_error_count;
}

abbrev pub clear_indexing_errors : SourceRow → SourceRow
clear_indexing_errors source = record source { last_error = none; index_error_count = pos 0 }

unfoldable pub update_source_last_indexed :
    ℕ → ℕ → List SourceRow → Result DbError (Unit {0}) × List SourceRow
update_source_last_indexed id at = execute_on_source id (set_last_indexed at)

unfoldable pub record_source_indexing_error :
    ℕ → String → List SourceRow → Result DbError (Unit {0}) × List SourceRow
record_source_indexing_error id error = execute_on_source id (set_indexing_error error)

unfoldable pub reset_source_indexing_errors :
    ℕ → List SourceRow → Result DbError (Unit {0}) × List SourceRow
reset_source_indexing_errors id = execute_on_source id clear_indexing_errors

unfoldable pub find_source_row : ℕ → List SourceRow → Option SourceRow
find_source_row id [] = none
find_source_row id (s ∷ ss) = if s.id == id then some s else find_source_row id ss
