-- ===== src/Tablet/Examples.antt =====
-- A tablet of two fragments: tests, and the theorems at concrete inputs.
use kdi.Common.{
  ℕ, ◌≡◌, refl, Bool, true, false, Option, some, none, List, [], ◌∷◌, if◌then◌else◌, ◌==◌,
}
use kdi.Interval.Point.{
  infinite_lower_bound, infinite_upper_bound, exclusive_upper_bound, inclusive_lower_bound,
  point_lt,
}
use kdi.Interval.Range.{
  Interval, bound_point, is_infinite_interval, contains_value, contains_interval, make_lower_bound,
}
use kdi.Interval.Set.{get_hull}
use kdi.Interval.Set.Add.{add}
use kdi.CellFilter.{ℤ, pos, Cell, ScanPredicate, string_lt, int_lt, string_eq, erasure_filter}
use kdi.MemoryTable.{cell_lt}
use kdi.Merge.{top, advance, skip_duplicates}
use kdi.Merge.Top.{IsSorted, find}
use kdi.Merge.Cells.{next_live, get_cell, read_cells, cell_merge}
use kdi.Tablet.{Fragments, validate_rows, merged_cells, get_merged_scan, scan}
use kdi.Tablet.Scan.{AreSound, newest, get_merged_scan_lem}
use kdi.Tablet.Scanner.{
  Snapshot, Call, get_at, reopened, read, get, reopen, next, open_cells, clip_rows, fast_forward,
}
use kdi.Tablet.Scanner.Order.{new_scanner, read-IsSorted}

abbrev cell : ℕ → ℕ → Option (List ℕ) → Cell
cell r t v = record { row = r ∷ []; column = 99 ∷ []; timestamp = pos t; value = v }

-- The older fragment 1 is on disk, the newer fragment 2 is a log.
abbrev old_cells : List Cell
old_cells = cell 1 5 (some (4 ∷ [])) ∷ cell 2 5 (some (4 ∷ [])) ∷ []

abbrev new_cells : List Cell
new_cells = cell 1 5 none ∷ cell 3 5 (some (7 ∷ [])) ∷ []

abbrev fragments : Fragments
fragments = record {
  is_immutable = λ f. f == 1;
  scan = λ f pred. if f == 1 then old_cells else new_cells;
}

abbrev all_rows : Interval (List ℕ)
all_rows = record {
  lower_bound = bound_point [] infinite_lower_bound;
  upper_bound = bound_point [] infinite_upper_bound;
}

abbrev all_cells : ℤ → ScanPredicate
all_cells k = record {
  row_predicate = none;
  column_predicate = none;
  time_predicate = none;
  max_history = k;
}

abbrev low_rows : Interval (List ℕ)
low_rows = record {
  lower_bound = bound_point [] infinite_lower_bound;
  upper_bound = bound_point (2 ∷ []) exclusive_upper_bound;
}

scans_the_newest_cells :
    scan fragments all_rows (1 ∷ 2 ∷ []) (all_cells (pos 0))
    ≡ some (cell 2 5 (some (4 ∷ [])) ∷ cell 3 5 (some (7 ∷ [])) ∷ [])
unfolding scan get_merged_scan merged_cells validate_rows is_infinite_interval cell_merge read_cells
    get_cell next_live kdi.Merge.get skip_duplicates top advance cell_lt string_lt int_lt
scans_the_newest_cells = refl

-- A predicate of all rows is refused by a tablet of some rows.
refuses_other_rows : scan fragments low_rows (1 ∷ []) (all_cells (pos 0)) ≡ none
unfolding scan validate_rows is_infinite_interval
refuses_other_rows = refl

-- A log that holds an erasure and is the only fragment gives none of its erasures; on disk it does.
gives_erasures_of_one_disk_table :
    (get_merged_scan fragments all_rows (2 ∷ []) (all_cells (pos 0))
      ≡ some (cell 3 5 (some (7 ∷ [])) ∷ []))
    × (get_merged_scan
          (record { is_immutable = λ f. true; scan = fragments.scan })
          all_rows
          (2 ∷ [])
          (all_cells (pos 0))
        ≡ some new_cells)
unfolding get_merged_scan merged_cells validate_rows is_infinite_interval erasure_filter
gives_erasures_of_one_disk_table = (refl, refl)

cells-IsSorted : (f : ℕ) → IsSorted cell_lt (if f == 1 then old_cells else new_cells)
unfolding cell_lt string_lt int_lt
cells-IsSorted f = sorted (f == 1)
  where
    sorted : (b : Bool) → IsSorted cell_lt (if b then old_cells else new_cells)
    sorted true = ((refl, tt), (tt, tt))
    sorted false = ((refl, tt), (tt, tt))

fragments-AreSound : (pred : ScanPredicate) → AreSound fragments (1 ∷ 2 ∷ []) pred
fragments-AreSound pred = record { sorted = cells-IsSorted; compacted = λ f e. absurd cc }

get_merged_scan_lem_example :
    (cells : List Cell) × (get_merged_scan fragments all_rows (1 ∷ 2 ∷ []) (all_cells (pos 0))
      ≡ some cells)
    × IsSorted cell_lt cells
    × ((k : Cell) → find cell_lt k cells ≡ newest fragments (all_cells (pos 0)) (1 ∷ 2 ∷ []) k)
get_merged_scan_lem_example =
    get_merged_scan_lem fragments all_rows (1 ∷ 2 ∷ []) (all_cells (pos 0))
      (unfold validate_rows is_infinite_interval in refl) refl
      (fragments-AreSound (all_cells (pos 0)))

abbrev moment : Snapshot
moment = record { contents = fragments; rows = all_rows; fragments = 1 ∷ 2 ∷ [] }

abbrev calls : List Call
calls = get_at moment ∷ reopened ∷ get_at moment ∷ get_at moment ∷ []

reads_on_after_a_reopening :
    read calls (new_scanner (all_cells (pos 0)))
    ≡ cell 2 5 (some (4 ∷ [])) ∷ cell 3 5 (some (7 ∷ [])) ∷ []
unfolding read get reopen next open_cells clip_rows fast_forward make_lower_bound add
    get_merged_scan merged_cells validate_rows get_hull is_infinite_interval contains_value
    contains_interval point_lt cell_merge read_cells get_cell next_live kdi.Merge.get
    skip_duplicates top advance cell_lt string_lt int_lt string_eq kdi.Interval.Point.point_lt_value
    kdi.Interval.Point.value_lt_point kdi.Interval.Set.insert
reads_on_after_a_reopening = refl

read-IsSorted_example : IsSorted cell_lt (read calls (new_scanner (all_cells (pos 0))))
read-IsSorted_example =
    read-IsSorted calls (all_cells (pos 0))
      (fragments-AreSound, (fragments-AreSound, (fragments-AreSound, tt)))
