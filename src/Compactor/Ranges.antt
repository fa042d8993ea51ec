-- ===== src/Compactor/Ranges.antt =====
-- What a compaction leaves of its mapped ranges: src/cc/kdi/tablet/SharedCompactor.cc.

use kdi.Common.{
  ℕ, ◌<◌, ◌≡◌, ◌⊎◌, refl, true, false, some, List, [], ◌∷◌, ◌++◌, All, All-append, All-zip,
  All-always, inl, inr, arith,
}
use kdi.Interval.Point.{IntervalPoint, is_upper_bound, point_lt}
use kdi.Interval.Order.{lt_trans}
use kdi.Interval.Range.{contains_value, overlaps}
use kdi.CellFilter.{string_lt}
use kdi.SuperTablet.Routing.{o, at_row}
use kdi.Compactor.{
  CompactRange, endless, Finished, CompactionOutput, end_bound, compact, new_output,
}
use kdi.Compactor.Half.{row_endless}
use kdi.Compactor.Outputs.{AreOutputs, flush-AreOutputs, new_output-Holds}
use kdi.Compactor.Bounds.{AreMapped, AreMapped-IsRangeMap, ends_below}
use kdi.Compactor.Merged.{
  all_cells, AreMerged, without_cells, contained, all_cells-AreSorted, merge_ranges-Merged,
}

module _ {Cell : Type 0} (row : Cell → List ℕ) (cells_of : CompactRange → List Cell)
    (size : List Cell → ℕ) (range_map : List CompactRange) (split_size max_size : ℕ) where
  split_mapped :
      (done left : List CompactRange) (q : CompactRange)
      → AreMapped (done ++ (q ∷ left))
      → All
          (λ r.
            (is_upper_bound r.range.upper_bound.type ≡ true)
            × (point_lt string_lt r.range.upper_bound q.range.lower_bound ≡ true))
          done
        × AreMapped (q ∷ left)
  split_mapped [] left q h = (tt, h)
  split_mapped (r ∷ done) left q h =
      let (before, after) = split_mapped done left q h.2 in
      (((h.0.1, next done h.1), before), after)
    where
      next :
          (ds : List CompactRange)
          → All
              (λ p. point_lt string_lt r.range.upper_bound p.range.lower_bound ≡ true)
              (ds ++ (q ∷ left))
          → point_lt string_lt r.range.upper_bound q.range.lower_bound ≡ true
      next [] a = a.0
      next (d ∷ ds) a = next ds a.1

  -- What the output is flushed with: it ends after the cells and before the ranges that are left.
  Ends : List CompactRange → List CompactRange → IntervalPoint (List ℕ) → Type 0
  Ends done left u =
      (is_upper_bound u.type ≡ true)
      × All (λ c. point_lt string_lt (at_row (row c)) u ≡ true) (all_cells row cells_of done)
      × All (λ q. point_lt string_lt u q.range.lower_bound ≡ true) left

  all_cells-below :
      (l u : IntervalPoint (List ℕ)) (done : List CompactRange)
      → ((y : List ℕ)
          → point_lt string_lt (at_row y) l ≡ true
          → point_lt string_lt (at_row y) u ≡ true)
      → All
          (λ r.
            (is_upper_bound r.range.upper_bound.type ≡ true)
            × (point_lt string_lt r.range.upper_bound l ≡ true))
          done
      → AreMerged row cells_of done
      → All (λ c. point_lt string_lt (at_row (row c)) u ≡ true) (all_cells row cells_of done)
  all_cells-below l u [] k a f = tt
  all_cells-below l u (r ∷ done) k a f =
      All-append (λ c. point_lt string_lt (at_row (row c)) u ≡ true) (cells_of r)
        (all_cells row cells_of done)
        (All-zip (λ c. contains_value string_lt r.range (row c) ≡ true)
          (λ c. contains_value string_lt r.range (row c) ≡ true)
          (λ c. point_lt string_lt (at_row (row c)) u ≡ true)
          (λ c p q. k (row c) (
            lt_trans o (at_row (row c)) r.range.upper_bound l (contained row cells_of r.range c p).1
              a.0.1))
          (cells_of r) f.0.1 f.0.1)
        (all_cells-below l u done k a.1 f.1)

  under-All :
      (u : IntervalPoint (List ℕ)) (q : CompactRange) (left : List CompactRange)
      → point_lt string_lt u q.range.lower_bound ≡ true
      → point_lt string_lt q.range.upper_bound q.range.lower_bound ≡ false
      → All (λ p. point_lt string_lt q.range.upper_bound p.range.lower_bound ≡ true) left
      → All (λ p. point_lt string_lt u p.range.lower_bound ≡ true) left
  under-All u q [] b n a = tt
  under-All u q (p ∷ left) b n a = (
    lt_trans o u q.range.upper_bound p.range.lower_bound
        (ground (arith, o.cotrans u q.range.upper_bound q.range.lower_bound)) a.0,
    under-All u q left b n a.1,
  )

  end_bound-Ends :
      (done left : List CompactRange)
      → AreMapped (done ++ left)
      → AreMerged row cells_of (done ++ left)
      → (left ≡ []) ⊎ ((r : CompactRange) × (ds : List CompactRange) × (done ≡ r ∷ ds))
      → (u : IntervalPoint (List ℕ)) × (end_bound row size range_map split_size left ≡ some u)
        × Ends done left u
  unfolding Ends is_upper_bound
  end_bound-Ends done [] m f s = (
    endless,
    refl,
    (
      refl,
      All-always (λ c. point_lt string_lt (at_row (row c)) endless ≡ true)
          (λ c. row_endless (row c)) (all_cells row cells_of done),
      tt,
    ),
  )
  end_bound-Ends [] (q ∷ left) m f s = elim s [
    | inl e ↦ absurd (ground arith)
    | inr (r, ds, e) ↦ absurd (ground arith)
  ]
  end_bound-Ends (r ∷ done) (q ∷ left) m f s =
      let (before, after) = split_mapped (r ∷ done) left q m in
      let (u, found, (up, under, below)) =
        ends_below r.range.upper_bound q.range.lower_bound.value q.range.lower_bound.type before.0.0
          after.0.0 before.0.1 in
      (
        u,
        found,
        (
          up,
          all_cells-below q.range.lower_bound u (r ∷ done) below before (front (r ∷ done) f),
          (under, under-All u q left under after.0.2 after.1),
        ),
      )
    where
      front :
          (ds : List CompactRange)
          → AreMerged row cells_of (ds ++ (q ∷ left))
          → AreMerged row cells_of ds
      front [] g = tt
      front (d ∷ ds) g = (g.0, front ds g.1)

  untouched_by :
      (u : IntervalPoint (List ℕ)) (q : CompactRange) (finished : List (Finished Cell))
      → point_lt string_lt u q.range.lower_bound ≡ true
      → All (λ f. point_lt string_lt u f.output_range.upper_bound ≡ false) finished
      → All (λ f. overlaps string_lt q.range f.output_range ≡ false) finished
  unfolding overlaps
  untouched_by u q [] b a = tt
  untouched_by u q (f ∷ finished) b a =
      let head = a.0 in
      (
        ground (arith, o.cotrans u f.output_range.upper_bound q.range.lower_bound),
        untouched_by u q finished b a.1,
      )

  untouched :
      (u : IntervalPoint (List ℕ)) (left : List CompactRange) (finished : List (Finished Cell))
      → All (λ q. point_lt string_lt u q.range.lower_bound ≡ true) left
      → All (λ f. point_lt string_lt u f.output_range.upper_bound ≡ false) finished
      → All (λ q. All (λ f. overlaps string_lt q.range f.output_range ≡ false) finished) left
  untouched u [] finished b a = tt
  untouched u (q ∷ left) finished b a =
      (untouched_by u q finished b.0 a, untouched u left finished b.1 a)

  -- If the mapped ranges are not empty and stand apart in order, and each range's merge gives cells
  -- of the range whose rows do not descend, then a compaction with a maximum size that is not zero
  -- raises no error. It compacts the first of the ranges, up to some range: all of them, or at least
  -- one. Its files together have exactly the cells of those ranges, in order, each file the cells of
  -- its own range, and the files' ranges lie apart; the fragments of those of the ranges that have no
  -- cells are removed; and no file replaces fragments in a range that was left.
  pub compact_lem :
      0 < max_size
      → AreMapped range_map
      → AreMerged row cells_of range_map
      → (done : List CompactRange) × (left : List CompactRange) × (output : CompactionOutput Cell)
        × (compact row size range_map split_size cells_of max_size
            ≡ some (output, without_cells row cells_of done, left))
        × (done ++ left ≡ range_map)
        × ((left ≡ []) ⊎ ((r : CompactRange) × (ds : List CompactRange) × (done ≡ r ∷ ds)))
        × AreOutputs row (all_cells row cells_of done) output.finished
        × All
            (λ q. All (λ f. overlaps string_lt q.range f.output_range ≡ false) output.finished)
            left
  unfolding compact Ends
  compact_lem b m f =
      let begin = new_output-Holds row (all_cells row cells_of range_map) in
      let result =
        merge_ranges-Merged row cells_of size range_map split_size max_size [] range_map new_output
          (AreMapped-IsRangeMap range_map m) begin.0
          (all_cells-AreSorted row cells_of range_map m f) begin.1 m f in
      let runs = result.runs in
      let starts = result.starts (ground arith) in
      let (u, found, (up, below, over)) =
        end_bound-Ends result.done result.left (rw (result.parts) m) (rw (result.parts) f) starts in
      let (output, flushed, outputs, ends) =
        flush-AreOutputs row size range_map split_size u (all_cells row cells_of result.done)
          (all_cells row cells_of result.left) result.output up result.holds result.ready below in
      (
        result.done,
        result.left,
        output,
        rw (compact, runs, found, flushed) refl,
        result.parts,
        starts,
        outputs,
        untouched u result.left output.finished over ends,
      )
