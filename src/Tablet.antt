-- ===== src/Tablet.antt =====
-- What a tablet lets its clients read: the scans of src/cc/kdi/tablet/Tablet.cc. The fragments are
-- numbers, and what they hold is a parameter. A scan reads the cells of one moment.
pub mod Scan
pub mod Scanner
pub mod Logs
pub mod Split
mod Examples
use mathlib.Core.Option
use kdi.Common.{
  ℕ, zero, Bool, true, false, Option, none, some, ◌>>=◌, List, [], ◌∷◌, not, if◌then◌else◌,
}
use kdi.Interval.Range.{Interval, is_infinite_interval, contains_value, contains_interval}
use kdi.Interval.Set.{get_hull}
use kdi.CellFilter.{ℤ, pos, Cell, string_lt, erasure_filter, ScanPredicate, filter_history}
use kdi.Merge.Cells.{cell_merge}

-- What a tablet asks of its fragments: `isImmutable`, and `scan` as the list of its cells.
pub record Fragments : Type 0 where
  pub is_immutable : ℕ → Bool
  pub scan : ℕ → ScanPredicate → List Cell

unfoldable pub validate_row : Interval (List ℕ) → List ℕ → Bool
validate_row rows row = contains_value string_lt rows row

-- Whether no error is raised.
unfoldable pub validate_rows : Interval (List ℕ) → ScanPredicate → Bool
validate_rows rows pred = elim pred.row_predicate [
  | none ↦ is_infinite_interval rows
  | some set ↦ elim (get_hull [] set) [
    | none ↦ false
    | some hull ↦ contains_interval string_lt rows hull
  ]
]

-- The test `if(history)`.
abbrev pub is_zero : ℤ → Bool
is_zero (pos zero) = true
is_zero k = false

abbrev pub newest_first : Fragments → ScanPredicate → List ℕ → List (List Cell) → List (List Cell)
newest_first fs pred [] inputs = inputs
newest_first fs pred (f ∷ fragments) inputs =
    newest_first fs pred fragments (fs.scan f pred ∷ inputs)

-- The stream that `getMergedScan` returns. The fragments are piped in reverse order.
unfoldable pub merged_cells : Fragments → List ℕ → ScanPredicate → List Cell
merged_cells fs (f ∷ []) pred =
    if fs.is_immutable f then fs.scan f pred else erasure_filter (fs.scan f pred)
merged_cells fs fragments pred = cell_merge true (newest_first fs pred fragments [])

-- `getMergedScan`; `none` is a raised error.
unfoldable pub get_merged_scan :
    Fragments → Interval (List ℕ) → List ℕ → ScanPredicate → Option (List Cell)
get_merged_scan fs rows fragments pred =
    if not (validate_rows rows pred)
    then none
    else if is_zero pred.max_history
    then some (merged_cells fs fragments pred)
    else none

abbrev pub strip_history : ScanPredicate → ScanPredicate
strip_history pred = record {
  row_predicate = pred.row_predicate;
  column_predicate = pred.column_predicate;
  time_predicate = pred.time_predicate;
  max_history = pos 0;
}

-- `scan`, read to its end.
unfoldable pub scan : Fragments → Interval (List ℕ) → List ℕ → ScanPredicate → Option (List Cell)
scan fs rows fragments pred = if not (validate_rows rows pred) then none else do
  cells ← get_merged_scan fs rows fragments (strip_history pred)
  some (if is_zero pred.max_history then cells else filter_history pred.max_history cells)
