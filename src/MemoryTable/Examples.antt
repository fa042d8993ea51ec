-- ===== src/MemoryTable/Examples.antt =====
-- A table of cells: tests, and the theorem at a concrete input.
use kdi.Common.{ℕ, ◌≡◌, refl, true, some, none, [], ◌∷◌, if◌then◌else◌}
use kdi.CellFilter.{
  pos, Cell, int_lt, string_lt, erasure_filter, ScanPredicate, apply_predicate_filter,
}
use kdi.MemoryTable.{cell_lt, MemoryTable, find_cell, insert, set, erase, create, scan}
use kdi.MemoryTable.Insert.{IsValid, same_key, insert_lem}

abbrev cell : ℕ → ℕ → Cell
cell r t = record { row = r ∷ []; column = 99 ∷ []; timestamp = pos t; value = some (r ∷ t ∷ []) }

abbrev erasure : Cell
erasure = record { row = 2 ∷ []; column = 99 ∷ []; timestamp = pos 5; value = none }

abbrev all_cells : ScanPredicate
all_cells = record {
  row_predicate = none;
  column_predicate = none;
  time_predicate = none;
  max_history = pos 0;
}

abbrev empty_table : MemoryTable
empty_table = record { cells = []; mem_usage = 0; filter_erasures = true }

abbrev table : MemoryTable
table = insert 100 (cell 1 6) (insert 100 (cell 2 5) empty_table)

creates_an_empty_table : create true ≡ empty_table
unfolding create
creates_an_empty_table = refl

-- The later timestamp of a row and column comes first, an erasure replaces the cell of its key.
scans_in_order :
    scan all_cells (set 100 (1 ∷ []) (99 ∷ []) (pos 7) [] table)
    ≡ some (
        record { row = 1 ∷ []; column = 99 ∷ []; timestamp = pos 7; value = some [] }
        ∷ cell 1 6
        ∷ cell 2 5
        ∷ [])
unfolding scan set insert cell_lt string_lt int_lt erasure_filter apply_predicate_filter
scans_in_order = refl

scans_no_erasures :
    (scan all_cells (erase 100 (2 ∷ []) (99 ∷ []) (pos 5) table) ≡ some (cell 1 6 ∷ []))
    × ((erase 100 (2 ∷ []) (99 ∷ []) (pos 5) table).mem_usage ≡ 206)
unfolding scan erase insert cell_lt string_lt int_lt erasure_filter apply_predicate_filter
scans_no_erasures = (refl, refl)

empty_table-IsValid : IsValid 100 empty_table
empty_table-IsValid = (tt, refl)

table-IsValid : IsValid 100 table
table-IsValid =
    (insert_lem 100 (cell 1 6) (insert 100 (cell 2 5) empty_table)
      (insert_lem 100 (cell 2 5) empty_table empty_table-IsValid).0).0

insert_lem_example :
    IsValid 100 (insert 100 erasure table)
    × ((k : Cell)
        → find_cell cell_lt k (insert 100 erasure table).cells
          ≡ (if same_key cell_lt k erasure then some erasure else find_cell cell_lt k table.cells))
insert_lem_example = insert_lem 100 erasure table table-IsValid
