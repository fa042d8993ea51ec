-- ===== src/Compactor/Examples.antt =====
-- A compaction of two ranges: tests, and the theorem at a concrete input. A cell is a row.
use mathlib.Core.Option
use kdi.Common.{ℕ, ◌≡◌, ◌⊎◌, refl, false, some, List, [], ◌∷◌, ◌++◌, length, All, arith}
use kdi.Interval.Point.{
  infinite_lower_bound, inclusive_upper_bound, exclusive_lower_bound, is_finite, is_lower_bound,
  is_upper_bound, point_lt, point_lt_value, value_lt_point, get_adjacent_complement,
}
use kdi.Interval.Range.{
  bound_point, set_lower_point, set_upper_point, overlaps, clip, contains_value,
}
use kdi.CellFilter.{string_lt}
use kdi.Compactor.{
  CompactRange, CompactionOutput, endless, replace_ranges, find_upper, above, finalize_output,
  write, choose, put, put_all, merge_ranges, flush, compact,
}
use kdi.Compactor.Bounds.{AreMapped}
use kdi.Compactor.Merged.{AreMerged, all_cells, without_cells}
use kdi.Compactor.Outputs.{AreOutputs}
use kdi.Compactor.Ranges.{compact_lem}

abbrev row_of : List ℕ → List ℕ
row_of x = x

abbrev ranges : List CompactRange
ranges =
    record {
      range = record {
        lower_bound = bound_point [] infinite_lower_bound;
        upper_bound = bound_point (5 ∷ []) inclusive_upper_bound;
      };
      fragments = 1 ∷ 2 ∷ [];
    }
    ∷ record {
      range = record {
        lower_bound = bound_point (5 ∷ []) exclusive_lower_bound;
        upper_bound = endless;
      };
      fragments = 2 ∷ 3 ∷ [];
    }
    ∷ []

abbrev cells_of : CompactRange → List (List ℕ)
cells_of r = elim r.range.lower_bound.value [
  | [] ↦ (1 ∷ []) ∷ (2 ∷ []) ∷ (5 ∷ []) ∷ []
  | x ∷ row ↦ (7 ∷ []) ∷ []
]

-- The first file is large enough after two cells, and is split after the range of the second.
splits_at_the_range :
    Option.map (λ r. r.0.finished) (compact row_of length ranges 1 cells_of 4)
    ≡ some (
        record {
          output_range = record {
            lower_bound = bound_point (5 ∷ []) exclusive_lower_bound;
            upper_bound = endless;
          };
          cells = (7 ∷ []) ∷ [];
          replaces =
              record {
                range = record {
                  lower_bound = bound_point (5 ∷ []) exclusive_lower_bound;
                  upper_bound = endless;
                };
                fragments = 2 ∷ 3 ∷ [];
              }
              ∷ [];
        }
        ∷ record {
          output_range = record {
            lower_bound = bound_point [] infinite_lower_bound;
            upper_bound = bound_point (5 ∷ []) inclusive_upper_bound;
          };
          cells = (1 ∷ []) ∷ (2 ∷ []) ∷ (5 ∷ []) ∷ [];
          replaces =
              record {
                range = record {
                  lower_bound = bound_point [] infinite_lower_bound;
                  upper_bound = bound_point (5 ∷ []) inclusive_upper_bound;
                };
                fragments = 1 ∷ 2 ∷ [];
              }
              ∷ [];
        }
        ∷ [])
unfolding replace_ranges find_upper above finalize_output write choose put put_all merge_ranges
    flush compact set_lower_point set_upper_point overlaps clip is_finite is_lower_bound
    is_upper_bound point_lt point_lt_value get_adjacent_complement string_lt
splits_at_the_range = refl

ranges-AreMapped : AreMapped ranges
unfolding is_lower_bound is_upper_bound point_lt string_lt
ranges-AreMapped = ((refl, refl, refl), (refl, tt), ((refl, refl, refl), tt, tt))

ranges-AreMerged : AreMerged row_of cells_of ranges
unfolding contains_value point_lt point_lt_value value_lt_point string_lt
ranges-AreMerged = (
  (((refl, (refl, tt)), ((refl, tt), (tt, tt))), (refl, (refl, (refl, tt)))),
  (((tt, tt), (refl, tt)), tt),
)

compact_lem_example :
    (done : List CompactRange) × (left : List CompactRange) × (output : CompactionOutput (List ℕ))
    × (compact row_of length ranges 1 cells_of 4
        ≡ some (output, without_cells row_of cells_of done, left))
    × (done ++ left ≡ ranges)
    × ((left ≡ []) ⊎ ((r : CompactRange) × (ds : List CompactRange) × (done ≡ r ∷ ds)))
    × AreOutputs row_of (all_cells row_of cells_of done) output.finished
    × All (λ q. All (λ f. overlaps string_lt q.range f.output_range ≡ false) output.finished) left
compact_lem_example =
    compact_lem row_of cells_of length ranges 1 4 (omega arith) ranges-AreMapped ranges-AreMerged
