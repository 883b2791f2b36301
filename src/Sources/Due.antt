-- ===== src/Sources/Due.antt =====
-- What a failed run does to when a source is indexed.
use Prim.Native.String.{String}
use hofvarpnir.Base.{
  ℕ, zero, suc, ◌+◌, ◌<◌, ◌≡◌, refl, sym, ap, add_one_ℤ, ◌∙◌, ◌↔◌, true, some, pos, arith,
}
use hofvarpnir.Clock.{from_secs}
use hofvarpnir.Sources.{SourceRow, is_due, set_indexing_error, clear_indexing_errors}

-- A row after so many failed runs.
abbrev pub failed_runs : String → ℕ → SourceRow → SourceRow
failed_runs error zero source = source
failed_runs error (suc n) source = failed_runs error n (set_indexing_error error source)

failed_runs-fields :
    (error : String) (n k : ℕ) (source : SourceRow)
    → source.index_error_count ≡ pos k
    → ((failed_runs error n source).index_error_count ≡ pos (k + n))
      × ((failed_runs error n source).enabled ≡ source.enabled)
      × ((failed_runs error n source).last_indexed_at ≡ source.last_indexed_at)
      × ((failed_runs error n source).index_frequency_secs ≡ source.index_frequency_secs)
failed_runs-fields error zero k source count = (count ∙ ap pos (omega arith), refl, refl, refl)
failed_runs-fields error (suc n) k source count =
    let (counted, enabled, at, every) =
      failed_runs-fields error n (suc k) (set_indexing_error error source) (ap add_one_ℤ count) in
    (counted ∙ ap pos (omega arith), enabled, at, every)

-- What `is_due` reads.
is_due_iff :
    (n now last secs : ℕ) (source : SourceRow)
    → source.index_error_count ≡ pos n
    → source.last_indexed_at ≡ some last
    → source.index_frequency_secs ≡ pos secs
    → (is_due now source ≡ true)
      ↔ ((source.enabled ≡ true) × (n < 3) × (last + from_secs secs < now))
unfolding is_due
is_due_iff n now last secs source count at every = rw (count, at, every, is_due) (ground arith)

-- A source without errors that was last indexed at `last` is due after n failed runs in a row
-- exactly when it is enabled, n is less than three and its interval has passed; after a manual
-- reset it is due exactly when it is enabled and its interval has passed.
pub failed_runs-is_due :
    (error : String) (n now last secs : ℕ) (source : SourceRow)
    → source.index_error_count ≡ pos 0
    → source.last_indexed_at ≡ some last
    → source.index_frequency_secs ≡ pos secs
    → ((is_due now (failed_runs error n source) ≡ true)
        ↔ ((source.enabled ≡ true) × (n < 3) × (last + from_secs secs < now)))
      × ((is_due now (clear_indexing_errors (failed_runs error n source)) ≡ true)
          ↔ ((source.enabled ≡ true) × (last + from_secs secs < now)))
unfolding is_due
failed_runs-is_due error n now last secs source clean at every =
    let after = failed_runs error n source in
    let (count, enabled, same_at, same_every) = failed_runs-fields error n 0 source clean in
    let failed =
      is_due_iff n now last secs after (count ∙ ap pos (omega arith)) (same_at ∙ at)
        (same_every ∙ every) in
    let reset =
      is_due_iff 0 now last secs (clear_indexing_errors after) refl (same_at ∙ at)
        (same_every ∙ every) in
    (
      (
        λ due. let (on, few, late) = failed.0 due in (sym enabled ∙ on, few, late),
        λ known. failed.1 (enabled ∙ known.0, known.1, known.2),
      ),
      (
        λ due. let (on, few, late) = reset.0 due in (sym enabled ∙ on, late),
        λ known. reset.1 (enabled ∙ known.0, omega arith, known.1),
      ),
    )
