-- ===== src/Merge/Examples.antt =====
-- Merges of small streams of numbers and of cells: tests, and the theorems at a concrete input.
use kdi.Common.{ℕ, ◌≡◌, refl, true, false, Option, some, none, List, [], ◌∷◌, All, ltb, arith}
use kdi.Interval.Order.{IsStrictWeak}
use kdi.CellFilter.{pos, Cell, int_lt, string_lt, erasure_filter}
use kdi.MemoryTable.{cell_lt}
use kdi.MemoryTable.Order.{cell_lt-IsStrictWeak}
use kdi.Merge.{top, advance, skip_duplicates, get, read_all, merge}
use kdi.Merge.Top.{IsSorted, find}
use kdi.Merge.Result.{find_first, merge_lem}
use kdi.Merge.Cells.{next_live, get_cell, read_cells, cell_merge, live, cell_merge_lem}

abbrev numbers : List (List ℕ)
numbers = (2 ∷ 5 ∷ []) ∷ [] ∷ (1 ∷ 2 ∷ 7 ∷ []) ∷ (5 ∷ []) ∷ []

merges_all_values : merge ltb false numbers ≡ 1 ∷ 2 ∷ 2 ∷ 5 ∷ 5 ∷ 7 ∷ []
unfolding merge read_all get top advance
merges_all_values = refl

merges_unique_values : merge ltb true numbers ≡ 1 ∷ 2 ∷ 5 ∷ 7 ∷ []
unfolding merge read_all get skip_duplicates top advance
merges_unique_values = refl

ltb-IsStrictWeak : IsStrictWeak ltb
ltb-IsStrictWeak = record { asym = λ a b e. ground arith; cotrans = λ a b c e. ground arith }

merge_lem_example :
    IsSorted ltb (merge ltb true numbers)
    × ((k : ℕ) → find ltb k (merge ltb true numbers) ≡ find_first ltb-IsStrictWeak k numbers)
merge_lem_example =
    merge_lem ltb-IsStrictWeak numbers
      (((refl, tt), (tt, tt)), (tt, (((refl, (refl, tt)), ((refl, tt), (tt, tt))), ((tt, tt), tt))))

abbrev cell : ℕ → Option (List ℕ) → Cell
cell r v = record { row = r ∷ []; column = 99 ∷ []; timestamp = pos 5; value = v }

-- The newest stream first: it erases the second row's cell and replaces the third's.
abbrev streams : List (List Cell)
streams =
    (cell 2 none ∷ cell 3 (some (8 ∷ [])) ∷ [])
    ∷ (cell 1 (some (4 ∷ [])) ∷ cell 2 (some (4 ∷ [])) ∷ cell 3 (some (4 ∷ [])) ∷ [])
    ∷ []

merges_live_cells : cell_merge true streams ≡ cell 1 (some (4 ∷ [])) ∷ cell 3 (some (8 ∷ [])) ∷ []
unfolding cell_merge read_cells get_cell next_live get skip_duplicates top advance cell_lt string_lt
    int_lt
merges_live_cells = refl

merges_erasures :
    cell_merge false streams ≡ cell 1 (some (4 ∷ [])) ∷ cell 2 none ∷ cell 3 (some (8 ∷ [])) ∷ []
unfolding cell_merge read_cells get_cell get skip_duplicates top advance cell_lt string_lt int_lt
merges_erasures = refl

streams-IsSorted : All (IsSorted cell_lt) streams
unfolding cell_lt string_lt int_lt
streams-IsSorted = (((refl, tt), (tt, tt)), (((refl, (refl, tt)), ((refl, tt), (tt, tt))), tt))

cell_merge_lem_example :
    (cell_merge true streams ≡ erasure_filter (cell_merge false streams))
    × IsSorted cell_lt (cell_merge true streams)
    × ((k : Cell)
        → find cell_lt k (cell_merge true streams)
          ≡ live (find_first cell_lt-IsStrictWeak k streams))
cell_merge_lem_example = cell_merge_lem streams streams-IsSorted
