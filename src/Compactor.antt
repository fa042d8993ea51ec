-- ===== src/Compactor.antt =====
-- The output of a compaction, `CompactionOutput` of src/cc/kdi/tablet/SharedCompactor.cc: the cells
-- of the merge go to files, which are split at the ends of mapped ranges.
pub mod Half
pub mod Invariant
pub mod Outputs
pub mod Bounds
pub mod Merged
pub mod Ranges
mod Examples
use mathlib.Core.Option
use kdi.Common.{
  ℕ, ◌+◌, ◌^◌, ◌%◌, Bool, true, false, ◌&&◌, not, Option, none, some, ◌>>=◌, List, [], ◌∷◌, ◌++◌,
  ltb, if◌then◌else◌,
}
use kdi.Interval.Point.{
  IntervalPoint, point, infinite_lower_bound, infinite_upper_bound, is_finite, point_lt,
  point_lt_value, get_adjacent_complement,
}
use kdi.Interval.Range.{Interval, bound_point, set_lower_point, set_upper_point, overlaps, clip}
use kdi.CellFilter.{string_lt}

-- A mapped range with the fragments that it is compacted from.
pub record CompactRange : Type 0 where
  pub range : Interval (List ℕ)
  pub fragments : List ℕ

abbrev pub endless : IntervalPoint (List ℕ)
endless = bound_point [] infinite_upper_bound

-- A file that has been finished: its range, its cells, and the ranges whose fragments it replaces.
pub record Finished (Cell : Type 0) : Type 0 where
  pub output_range : Interval (List ℕ)
  pub cells : List Cell
  pub replaces : List CompactRange

-- The object, with the cells that the writer has been given for the open file. The files that have
-- been finished stand with the newest first.
pub record CompactionOutput (Cell : Type 0) : Type 0 where
  pub output_range : Interval (List ℕ)
  pub output_open : Bool
  pub ready_to_split : Bool
  pub n_fragments : ℕ
  pub output_size : ℕ
  pub written : List Cell
  pub finished : List (Finished Cell)

-- The loop over the mapped ranges when a file is finished.
unfoldable pub replace_ranges : List CompactRange → Interval (List ℕ) → List CompactRange
replace_ranges [] out = []
replace_ranges (r ∷ range_map) out =
    let rest = replace_ranges range_map out in
    if overlaps string_lt r.range out
    then record { range = clip string_lt r.range out; fragments = r.fragments } ∷ rest
    else rest

-- The upper bound of the first range that contains a row, or none (`unsetUpperBound`).
unfoldable pub find_upper : IntervalPoint (List ℕ) → List CompactRange → IntervalPoint (List ℕ)
find_upper row [] = endless
find_upper row (r ∷ range_map) =
    let later = find_upper row range_map in
    if point_lt string_lt r.range.upper_bound row then later else r.range.upper_bound

-- The half interval above a range; `none` is a raised error.
unfoldable pub above : Interval (List ℕ) → Option (Interval (List ℕ))
above range = elim (is_finite range.upper_bound.type) [
  | false ↦ some range
  | true ↦ do
    lower ← get_adjacent_complement range.upper_bound
    half ← set_lower_point range lower
    set_upper_point half endless
]

module _ {Cell : Type 0} where
  abbrev pub with_range : Interval (List ℕ) → Bool → CompactionOutput Cell → CompactionOutput Cell
  with_range range ready o = record {
    output_range = range;
    output_open = o.output_open;
    ready_to_split = ready;
    n_fragments = o.n_fragments;
    output_size = o.output_size;
    written = o.written;
    finished = o.finished;
  }

  -- `writer->start` if no file is open, and `writer->put`.
  unfoldable pub write : Cell → CompactionOutput Cell → CompactionOutput Cell
  write x o = record {
    output_range = o.output_range;
    output_open = true;
    ready_to_split = o.ready_to_split;
    n_fragments = o.n_fragments;
    output_size = o.output_size;
    written = o.written ++ (x ∷ []);
    finished = o.finished;
  }

  abbrev pub new_output : CompactionOutput Cell
  new_output = record {
    output_range = record {
      lower_bound = bound_point [] infinite_lower_bound;
      upper_bound = endless;
    };
    output_open = false;
    ready_to_split = false;
    n_fragments = 0;
    output_size = 0;
    written = [];
    finished = [];
  }

-- The rows of cells, `writer->size()` for the cells written, the map of ranges and the size from
-- which files are split.
module _ {Cell : Type 0} (row : Cell → List ℕ) (size : List Cell → ℕ)
    (range_map : List CompactRange) (split_size : ℕ) where
  abbrev pub finalize : Interval (List ℕ) → CompactionOutput Cell → CompactionOutput Cell
  finalize rest o = record {
    output_range = rest;
    output_open = false;
    ready_to_split = false;
    n_fragments = (o.n_fragments + 1) % 2 ^ 64;
    output_size = (o.output_size + size o.written) % 2 ^ 64;
    written = [];
    finished =
        record {
          output_range = o.output_range;
          cells = o.written;
          replaces = replace_ranges range_map o.output_range;
        }
        ∷ o.finished;
  }

  unfoldable pub finalize_output : CompactionOutput Cell → Option (CompactionOutput Cell)
  finalize_output o = Option.map (λ rest. finalize rest o) (above o.output_range)

  -- The choice of a row to split after, once a file is large enough.
  unfoldable pub choose : Cell → CompactionOutput Cell → Option (CompactionOutput Cell)
  choose x o = elim (not o.ready_to_split && ltb split_size (size o.written)) [
    | false ↦ some o
    | true ↦
        Option.map (λ range. with_range range true o)
          (set_upper_point o.output_range (find_upper (bound_point (row x) point) range_map))
  ]

  unfoldable pub put : Cell → CompactionOutput Cell → Option (CompactionOutput Cell)
  put x o = elim (o.ready_to_split && point_lt_value string_lt o.output_range.upper_bound (row x)) [
    | false ↦ choose x (write x o)
    | true ↦ do split ← finalize_output o; choose x (write x split)
  ]

  unfoldable pub flush :
      IntervalPoint (List ℕ) → CompactionOutput Cell → Option (CompactionOutput Cell)
  flush upper o = elim o.output_open [
    | false ↦ some o
    | true ↦ do
      range ← set_upper_point o.output_range upper
      finalize_output (with_range range o.ready_to_split o)
  ]

  -- The loop that puts the cells of a merge.
  unfoldable pub put_all : List Cell → CompactionOutput Cell → Option (CompactionOutput Cell)
  put_all [] o = some o
  put_all (x ∷ cells) o = do next ← put x o; put_all cells next

  -- The loop over the mapped ranges, with the cells of each range's merge: the output, the ranges
  -- whose fragments are removed, and those that it has not come to. It is not cancelled.
  unfoldable pub merge_ranges :
      (CompactRange → List Cell)
      → ℕ
      → List CompactRange
      → CompactionOutput Cell
      → Option (CompactionOutput Cell × List CompactRange × List CompactRange)
  merge_ranges cells_of max_size [] o = some (o, [], [])
  merge_ranges cells_of max_size (r ∷ ranges) o = elim (ltb o.output_size max_size) [
    | false ↦ some (o, [], r ∷ ranges)
    | true ↦ do
      next ← put_all (cells_of r) o
      (last, removed, left) ← merge_ranges cells_of max_size ranges next
      some (last, elim (cells_of r) [ [] ↦ r ∷ removed | x ∷ cells ↦ removed ], left)
  ]

  abbrev pub end_bound : List CompactRange → Option (IntervalPoint (List ℕ))
  end_bound [] = some endless
  end_bound (r ∷ left) = get_adjacent_complement r.range.lower_bound

  unfoldable pub compact :
      (CompactRange → List Cell)
      → ℕ
      → Option (CompactionOutput Cell × List CompactRange × List CompactRange)
  compact cells_of max_size = do
    (last, removed, left) ← merge_ranges cells_of max_size range_map new_output
    upper ← end_bound left
    output ← flush upper last
    some (output, removed, left)
