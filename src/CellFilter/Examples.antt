-- ===== src/CellFilter/Examples.antt =====
-- Streams of five cells: tests, and the theorems at concrete inputs.
use kdi.Common.{ℕ, ◌≡◌, refl, some, none, List, [], ◌∷◌, arith}
use kdi.Interval.Point.{
  exclusive_upper_bound, inclusive_lower_bound, IntervalPoint, point_lt, is_lower_bound,
  is_upper_bound,
}
use kdi.Interval.Range.{bound_point}
use kdi.Interval.Set.Inv.{IsValid}
use kdi.CellFilter.{
  pos, negsuc, Cell, string_lt, string_eq, filter_history, history_filter, history_get, count_cell,
  is_in_window, keep, ScanPredicate, make_history_filter, apply_predicate_filter,
}
use kdi.CellFilter.History.{kept_from, filter_history-kept_from}
use kdi.CellFilter.Predicate.{admits, apply_predicate_filter-keep}

abbrev cell : ℕ → ℕ → Cell
cell r t = record { row = r ∷ []; column = 99 ∷ []; timestamp = pos t; value = some [] }

abbrev cells : List Cell
cells = cell 1 9 ∷ cell 1 8 ∷ cell 1 7 ∷ cell 2 6 ∷ cell 2 5 ∷ []

keeps_two_of_each : filter_history (pos 2) cells ≡ cell 1 9 ∷ cell 1 8 ∷ cell 2 6 ∷ cell 2 5 ∷ []
unfolding filter_history history_filter history_get count_cell is_in_window string_eq
keeps_two_of_each = refl

-- A limit of -2 skips two cells of each history.
skips_two_of_each : filter_history (negsuc 1) cells ≡ cell 1 7 ∷ []
unfolding filter_history history_filter history_get count_cell is_in_window string_eq
skips_two_of_each = refl

filter_history-kept_from_example :
    filter_history (negsuc 1) cells ≡ kept_from (negsuc 1) none 0 cells
filter_history-kept_from_example =
    filter_history-kept_from (negsuc 1) cells (omega arith) (omega arith)

abbrev first_row : List (IntervalPoint (List ℕ))
first_row =
    bound_point (1 ∷ []) inclusive_lower_bound ∷ bound_point (2 ∷ []) exclusive_upper_bound ∷ []

first_row-IsValid : IsValid string_lt first_row
unfolding point_lt is_lower_bound is_upper_bound string_lt
first_row-IsValid = (refl, refl, (refl, tt, refl))

abbrev predicate : ScanPredicate
predicate = record {
  row_predicate = some first_row;
  column_predicate = none;
  time_predicate = none;
  max_history = pos 2;
}

apply_predicate_filter-keep_example :
    apply_predicate_filter predicate cells
    ≡ make_history_filter (pos 2) (keep (admits predicate) cells)
apply_predicate_filter-keep_example =
    apply_predicate_filter-keep predicate cells first_row-IsValid tt tt
