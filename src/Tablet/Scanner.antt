-- ===== src/Tablet/Scanner.antt =====
-- A scan that is reopened when its tablet changes: src/cc/kdi/tablet/Scanner.cc, with the clipping
-- of predicates of src/cc/kdi/scan_predicate.cc.
pub mod Order
use mathlib.Core.Option
use kdi.Common.{ℕ, Bool, true, false, not, Option, none, some, ◌>>=◌, List, [], ◌∷◌, if◌then◌else◌}
use kdi.Interval.Range.{Interval, contains_value, is_infinite_interval, make_lower_bound}
use kdi.Interval.Set.{clip}
use kdi.Interval.Set.Add.{add}
use kdi.CellFilter.{Cell, string_lt, ScanPredicate}
use kdi.MemoryTable.{cell_lt}
use kdi.Tablet.{Fragments, get_merged_scan}

-- `clipRows`; `none` where `IntervalSet` raises an error.
unfoldable pub clip_rows : Interval (List ℕ) → ScanPredicate → Option ScanPredicate
clip_rows span pred = if is_infinite_interval span then some pred else do
  rows ← elim pred.row_predicate [
    | none ↦ add string_lt [] span
    | some set ↦ some (clip string_lt set span)
  ]
  some record {
    row_predicate = some rows;
    column_predicate = pred.column_predicate;
    time_predicate = pred.time_predicate;
    max_history = pred.max_history;
  }

-- A tablet at one moment.
pub record Snapshot : Type 0 where
  pub contents : Fragments
  pub rows : Interval (List ℕ)
  pub fragments : List ℕ

-- The scanner, with the cells that its open stream has still to give.
pub record Scanner : Type 0 where
  pub pred : ScanPredicate
  pub cells : Option (List Cell)
  pub last_cell : Option Cell

-- What a call of `get` comes to.
pub data Got : Type 0 where
  cell : Cell → Got
  ended : Got
  raised : Got

unfoldable pub fast_forward : Cell → List Cell → List Cell
fast_forward last [] = []
fast_forward last (x ∷ cells) = if cell_lt last x then x ∷ cells else fast_forward last cells

-- Reading the next cell of the stream, which is remembered.
unfoldable pub next : Scanner → List Cell → Got × Scanner
next s [] = (ended, record { pred = s.pred; cells = some []; last_cell = s.last_cell })
next s (x ∷ cells) = (cell x, record { pred = s.pred; cells = some cells; last_cell = some x })

-- The stream that `get` opens: none, or the cells that are to be read; or an error is raised.
unfoldable pub open_cells : Snapshot → ScanPredicate → Option Cell → Option (Option (List Cell))
open_cells t pred none = do
  cells ← get_merged_scan t.contents t.rows t.fragments pred
  some (some cells)
open_cells t pred (some last) =
    if not (contains_value string_lt t.rows last.row) then some none else do
      span ← make_lower_bound [] last.row true
      clipped ← clip_rows span pred
      cells ← get_merged_scan t.contents t.rows t.fragments clipped
      some (some (fast_forward last cells))

-- `get`, on the tablet as it is at that moment.
unfoldable pub get : Snapshot → Scanner → Got × Scanner
get t s = elim s.cells [
  | some cells ↦ next s cells
  | none ↦ elim (open_cells t s.pred s.last_cell) [
    | none ↦ (raised, s)
    | some opened ↦ elim opened [ none ↦ (ended, s) | some cells ↦ next s cells ]
  ]
]

unfoldable pub reopen : Scanner → Scanner
reopen s = record { pred = s.pred; cells = none; last_cell = s.last_cell }

-- A reader's calls and the tablet's: `get` at a moment, and `reopen`.
pub data Call : Type 0 where
  get_at : Snapshot → Call
  reopened : Call

abbrev pub add_got : Got → List Cell → List Cell
add_got (cell x) cells = x ∷ cells
add_got g cells = cells

-- The cells that the reader gets.
unfoldable pub read : List Call → Scanner → List Cell
read [] s = []
read (get_at t ∷ calls) s = let r = get t s in add_got r.0 (read calls r.1)
read (reopened ∷ calls) s = read calls (reopen s)
