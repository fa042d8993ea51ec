-- ===== src/MemoryTable.antt =====
-- The table of src/cc/kdi/memory_table.cc: a set of cells in the order of `Cell::operator<` of
-- src/cc/kdi/sdstore_cell.h, as a sorted list, and the memory that they are taken to use.
pub mod Order
pub mod Insert
mod Examples
use kdi.Common.{
  ℕ, zero, ◌+◌, ◌-◌, ◌^◌, ◌%◌, Bool, true, false, not, ◌&&◌, ◌||◌, Option, none, some, List, [],
  ◌∷◌, if◌then◌else◌, length,
}
use kdi.CellFilter.{
  ℤ, Cell, int_lt, string_lt, erasure_filter, ScanPredicate, apply_predicate_filter, pos,
}

-- By row, then by column, then the later timestamp first.
unfoldable pub cell_lt : Cell → Cell → Bool
cell_lt a b =
    string_lt a.row b.row
    || (not (string_lt b.row a.row)
        && (string_lt a.column b.column
            || (not (string_lt b.column a.column) && int_lt b.timestamp a.timestamp)))

pub record MemoryTable : Type 0 where
  pub cells : List Cell
  pub mem_usage : ℕ
  pub filter_erasures : Bool

abbrev pub value_size : Option (List ℕ) → ℕ
value_size none = 0
value_size (some v) = length v

-- `std::set::insert` with the replacement after it: the list with the cell at the place of its key.
abbrev pub put : (Cell → Cell → Bool) → Cell → List Cell → List Cell
put lt x [] = x ∷ []
put lt x (y ∷ s) =
    let rest = put lt x s in if lt x y then x ∷ y ∷ s else if lt y x then y ∷ rest else x ∷ s

-- The cell that has the same key, as the set finds it.
abbrev pub find_cell : (Cell → Cell → Bool) → Cell → List Cell → Option Cell
find_cell lt x [] = none
find_cell lt x (y ∷ s) =
    let rest = find_cell lt x s in if lt x y then none else if lt y x then rest else some y

module _ (overhead : ℕ) where
  abbrev pub cell_size : Cell → ℕ
  cell_size x = overhead + length x.row + length x.column + value_size x.value

  unfoldable pub insert : Cell → MemoryTable → MemoryTable
  insert x t = record {
    cells = put cell_lt x t.cells;
    mem_usage = elim (find_cell cell_lt x t.cells) [
      | none ↦ (t.mem_usage + cell_size x) % 2 ^ 64
      | some old ↦
          (t.mem_usage + (2 ^ 64 - value_size old.value % 2 ^ 64) + value_size x.value) % 2 ^ 64
    ];
    filter_erasures = t.filter_erasures;
  }

  unfoldable pub set : List ℕ → List ℕ → ℤ → List ℕ → MemoryTable → MemoryTable
  set row column timestamp value t =
      insert (record { row = row; column = column; timestamp = timestamp; value = some value }) t

  unfoldable pub erase : List ℕ → List ℕ → ℤ → MemoryTable → MemoryTable
  erase row column timestamp t =
      insert (record { row = row; column = column; timestamp = timestamp; value = none }) t

unfoldable pub create : Bool → MemoryTable
create filter = record { cells = []; mem_usage = 0; filter_erasures = filter }

unfoldable pub get_memory_usage : MemoryTable → ℕ
get_memory_usage t = t.mem_usage

unfoldable pub get_cell_count : MemoryTable → ℕ
get_cell_count t = length t.cells

has_history : ℤ → Bool
has_history (pos zero) = false
has_history k = true

-- `none` is the raised `ValueError`.
unfoldable pub scan : ScanPredicate → MemoryTable → Option (List Cell)
unfolding has_history
scan pred t =
    if t.filter_erasures
    then some (apply_predicate_filter pred (erasure_filter t.cells))
    else if has_history pred.max_history
    then none
    else some (apply_predicate_filter pred t.cells)
