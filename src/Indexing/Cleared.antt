-- ===== src/Indexing/Cleared.antt =====
-- What a run leaves of the errors that are counted for its source.
use Prim.Native.String.{String}
use hofvarpnir.Base.{
  ℕ, ◌≡◌, refl, ap, sym, subst, true, Bool-cases, inl, inr, none, some, Option-cases, List, [], ◌∷◌,
  ◌==◌, Result, ok, pos, arith,
}
use hofvarpnir.Database.{DbError}
use hofvarpnir.Sources.{
  SourceRow, find_source_row, has_source, update_source_where, set_last_indexed, set_indexing_error,
  update_source_last_indexed, record_source_indexing_error,
}
use hofvarpnir.Indexing.{IndexingResult}
use hofvarpnir.Indexing.Walk.{PlaylistEntry, Filters, Walk, walk_entries, arrange}
use hofvarpnir.Indexing.Execute.{
  order_plan, first_walk, Replies, Indexer, recorded, stamp_last_indexed, after_limit,
  index_entries, execute_indexing,
}

has_source-update_source_where :
    (id : ℕ) (set : SourceRow → SourceRow) (sources : List SourceRow)
    → ((row : SourceRow) → (set row).id ≡ row.id)
    → has_source id (update_source_where id set sources) ≡ has_source id sources
has_source-update_source_where id set [] keeps = refl
has_source-update_source_where id set (row ∷ rows) keeps =
    ground (arith, keeps row, has_source-update_source_where id set rows keeps)

-- The first row of the id is changed.
find_source_row-update_source_where :
    (id : ℕ) (set : SourceRow → SourceRow) (sources : List SourceRow)
    → ((row : SourceRow) → (set row).id ≡ row.id)
    → has_source id sources ≡ true
    → (row : SourceRow) × (find_source_row id (update_source_where id set sources) ≡ some (set row))
unfolding find_source_row
find_source_row-update_source_where id set [] keeps here = absurd cc
find_source_row-update_source_where id set (row ∷ rows) keeps here =
    elim (Bool-cases (row.id == id)) [
      | inl same ↦ (row, ground (arith, same, keeps row))
      | inr other ↦
          let (found, at) =
            find_source_row-update_source_where id set rows keeps (ground (arith, here, other)) in
          (found, ground (arith, other, at))
    ]

recorded-has_source :
    (replies : Replies) (id : ℕ) (error : String) (sources : List SourceRow)
    → has_source id sources ≡ true
    → has_source id (recorded replies id error sources) ≡ true
unfolding record_source_indexing_error
recorded-has_source replies id error sources here = ground (
  arith,
  here,
  has_source-update_source_where id (set_indexing_error error) sources (λ row. refl),
)

after_limit-has_source :
    (replies : Replies) (id : ℕ) (w : Walk) (sources : List SourceRow)
    → has_source id sources ≡ true
    → has_source id (after_limit replies id w sources) ≡ true
after_limit-has_source replies id w sources here = elim (Option-cases w.limited) [
  | inl free ↦ rw (free) here
  | inr (reason, limited) ↦
      rw (limited) (recorded-has_source replies id "rate limited" sources here)
]

-- Nothing is counted any more.
abbrev pub IsCleared : ℕ → ℕ → List SourceRow → Type 0
IsCleared id now sources =
    (row : SourceRow) × (find_source_row id sources ≡ some row)
    × (row.index_error_count ≡ pos 0)
    × (row.last_error ≡ none)
    × (row.last_indexed_at ≡ some now)

updated :
    (id now : ℕ) (sources : List SourceRow)
    → has_source id sources ≡ true
    → update_source_last_indexed id now sources
      ≡ (ok tt, update_source_where id (set_last_indexed now) sources)
unfolding update_source_last_indexed
updated id now sources here = rw (here, update_source_last_indexed) refl

stamped :
    (replies : Replies) (id : ℕ) (result : IndexingResult) (sources : List SourceRow)
    → replies.last_indexed_fault ≡ none
    → has_source id sources ≡ true
    → (stamp_last_indexed replies id (result, sources)).1
      ≡ update_source_where id (set_last_indexed replies.now) sources
unfolding stamp_last_indexed
stamped replies id result sources served here =
    rw (served, updated id replies.now sources here, stamp_last_indexed)
      (ap (λ (answer : Result DbError (Unit {0}) × List SourceRow). answer.1)
        (updated id replies.now sources here))

stamp-IsCleared :
    (replies : Replies) (id : ℕ) (result : IndexingResult) (sources : List SourceRow)
    → replies.last_indexed_fault ≡ none
    → has_source id sources ≡ true
    → IsCleared id replies.now ((stamp_last_indexed replies id (result, sources)).1)
stamp-IsCleared replies id result sources served here =
    let (row, found) =
      find_source_row-update_source_where id (set_last_indexed replies.now) sources (λ row. refl)
        here in
    subst (IsCleared id replies.now) (sym (stamped replies id result sources served here))
      (set_last_indexed replies.now row, found, refl, refl, refl)

-- A run that lists the playlist and whose last write is served leaves the source's row with no
-- error, none counted, and indexed now, whatever became of the entries: the error of a rate limit
-- is counted and cleared in the same run.
pub execute_indexing-IsCleared :
    (filters : Filters) (id : ℕ) (replies : Replies) (entries : List PlaylistEntry) (s : Indexer)
    → replies.listing ≡ ok entries
    → replies.last_indexed_fault ≡ none
    → has_source id s.sources ≡ true
    → IsCleared id replies.now ((execute_indexing filters id replies s).0.sources)
unfolding execute_indexing index_entries
execute_indexing-IsCleared filters id replies entries s listed served here =
    let plan = order_plan replies s.stored_order entries in
    let w =
      walk_entries filters plan.early_termination (arrange plan.order entries)
        (first_walk replies s) in
    let run : execute_indexing filters id replies s ≡ index_entries filters id replies entries s =
      rw (listed, execute_indexing) refl in
    subst (λ (answer : Indexer × IndexingResult). IsCleared id replies.now answer.0.sources)
      (sym run)
      (stamp-IsCleared replies id w.result (after_limit replies id w s.sources) served
        (after_limit-has_source replies id w s.sources here))
