-- ===== src/Compactor/Merged.antt =====
-- The loop over the mapped ranges of a compaction: src/cc/kdi/tablet/SharedCompactor.cc.

use kdi.Common.{
  ℕ, ◌≡◌, ◌⊎◌, refl, sym, ap, subst, true, false, some, List, [], ◌∷◌, ◌++◌, append-nil,
  append_assoc, ltb, All, All-append, All-zip, Bool-cases, inl, inr, arith,
}
use kdi.Interval.Point.{IntervalPoint, point_lt}
use kdi.Interval.Order.{lt_trans}
use kdi.Interval.Range.{Interval, contains_value}
use kdi.CellFilter.{string_lt}
use kdi.SuperTablet.Routing.{o, at_row, contains_lem}
use kdi.Compactor.{CompactRange, CompactionOutput, merge_ranges}
use kdi.Compactor.Half.{IsRangeMap}
use kdi.Compactor.Invariant.{AreSorted, Holds}
use kdi.Compactor.Outputs.{Ready, put_all-Holds}
use kdi.Compactor.Bounds.{AreMapped}

module _ {Cell : Type 0} (row : Cell → List ℕ) (cells_of : CompactRange → List Cell) where
  -- The cells of the merges of ranges.
  abbrev pub all_cells : List CompactRange → List Cell
  all_cells [] = []
  all_cells (r ∷ ranges) = cells_of r ++ all_cells ranges

  -- A range's merge gives cells of the range, their rows not descending.
  abbrev pub AreMerged : List CompactRange → Type 0
  AreMerged ranges =
      All
        (λ r.
          AreSorted row (cells_of r)
          × All (λ c. contains_value string_lt r.range (row c) ≡ true) (cells_of r))
        ranges

  -- The ranges whose merges give nothing.
  abbrev pub without_cells : List CompactRange → List CompactRange
  without_cells [] = []
  without_cells (r ∷ ranges) =
      let rest = without_cells ranges in elim (cells_of r) [ [] ↦ r ∷ rest | x ∷ cells ↦ rest ]

  AreSorted-append :
      (xs ys : List Cell)
      → AreSorted row xs
      → AreSorted row ys
      → All (λ x. All (λ y. point_lt string_lt (at_row (row y)) (at_row (row x)) ≡ false) ys) xs
      → AreSorted row (xs ++ ys)
  AreSorted-append [] ys a b h = b
  AreSorted-append (x ∷ xs) ys a b h = (
    All-append (λ y. point_lt string_lt (at_row (row y)) (at_row (row x)) ≡ false) xs ys a.0 h.0,
    AreSorted-append xs ys a.1 b h.1,
  )

  pub contained :
      (i : Interval (List ℕ)) (c : Cell)
      → contains_value string_lt i (row c) ≡ true
      → (point_lt string_lt i.lower_bound (at_row (row c)) ≡ true)
        × (point_lt string_lt (at_row (row c)) i.upper_bound ≡ true)
  contained i c h = let e = contains_lem i (row c) in (ground arith, ground arith)

  all_cells-above :
      (p : IntervalPoint (List ℕ)) (ranges : List CompactRange)
      → All (λ q. point_lt string_lt p q.range.lower_bound ≡ true) ranges
      → AreMerged ranges
      → All (λ c. point_lt string_lt p (at_row (row c)) ≡ true) (all_cells ranges)
  all_cells-above p [] a f = tt
  all_cells-above p (q ∷ ranges) a f =
      All-append (λ c. point_lt string_lt p (at_row (row c)) ≡ true) (cells_of q) (all_cells ranges)
        (here (cells_of q) f.0.1) (all_cells-above p ranges a.1 f.1)
    where
      here :
          (cells : List Cell)
          → All (λ c. contains_value string_lt q.range (row c) ≡ true) cells
          → All (λ c. point_lt string_lt p (at_row (row c)) ≡ true) cells
      here [] h = tt
      here (c ∷ cells) h = (
        lt_trans o p q.range.lower_bound (at_row (row c)) a.0 (contained q.range c h.0).0,
        here cells h.1,
      )

  not_before :
      (u : IntervalPoint (List ℕ)) (x : Cell) (ys : List Cell)
      → point_lt string_lt (at_row (row x)) u ≡ true
      → All (λ c. point_lt string_lt u (at_row (row c)) ≡ true) ys
      → All (λ y. point_lt string_lt (at_row (row y)) (at_row (row x)) ≡ false) ys
  not_before u x [] h a = tt
  not_before u x (y ∷ ys) h a = (
    o.asym (at_row (row x)) (at_row (row y)) (lt_trans o (at_row (row x)) u (at_row (row y)) h a.0),
    not_before u x ys h a.1,
  )

  pub all_cells-AreSorted :
      (ranges : List CompactRange)
      → AreMapped ranges
      → AreMerged ranges
      → AreSorted row (all_cells ranges)
  all_cells-AreSorted [] m f = tt
  all_cells-AreSorted (r ∷ ranges) m f =
      let above = all_cells-above r.range.upper_bound ranges m.1 f.1 in
      AreSorted-append (cells_of r) (all_cells ranges) f.0.0 (all_cells-AreSorted ranges m.2 f.1) (
        All-zip (λ c. contains_value string_lt r.range (row c) ≡ true)
          (λ c. contains_value string_lt r.range (row c) ≡ true)
          (λ x.
            All (λ y. point_lt string_lt (at_row (row y)) (at_row (row x)) ≡ false)
              (all_cells ranges))
          (λ c p q.
            not_before r.range.upper_bound c (all_cells ranges) (contained r.range c p).1 above)
          (cells_of r) f.0.1 f.0.1)

  module _ (size : List Cell → ℕ) (range_map : List CompactRange) (split_size max_size : ℕ) where
    -- What the loop over ranges comes to.
    pub record Merged (seen : List Cell) (ranges : List CompactRange) (s : CompactionOutput Cell)
        : Type 0 where
      pub output : CompactionOutput Cell
      pub done : List CompactRange
      pub left : List CompactRange
      pub runs :
          merge_ranges row size range_map split_size cells_of max_size ranges s
          ≡ some (output, without_cells done, left)
      pub parts : done ++ left ≡ ranges
      pub holds : Holds row (seen ++ all_cells done) (all_cells left) output
      pub ready : Ready row output (seen ++ all_cells done)
      pub starts :
          ltb s.output_size max_size ≡ true
          → (left ≡ []) ⊎ ((r : CompactRange) × (ds : List CompactRange) × (done ≡ r ∷ ds))

    pub merge_ranges-Merged :
        (seen : List Cell) (ranges : List CompactRange) (s : CompactionOutput Cell)
        → IsRangeMap range_map
        → Holds row seen (all_cells ranges) s
        → AreSorted row (all_cells ranges)
        → Ready row s seen
        → AreMapped ranges
        → AreMerged ranges
        → Merged seen ranges s
    unfolding merge_ranges
    merge_ranges-Merged seen [] s m h sorted ready a f =
        let same = sym (append-nil seen) in
        record {
          output = s;
          done = [];
          left = [];
          runs = refl;
          parts = refl;
          holds = subst (λ l. Holds row l [] s) same h;
          ready = subst (λ l. Ready row s l) same ready;
          starts = λ e. inl refl;
        }
    merge_ranges-Merged seen (r ∷ ranges) s m h sorted ready a f =
        elim (Bool-cases (ltb s.output_size max_size)) [
          | inl e ↦
              let (next, step, after, at_next) =
                put_all-Holds row size range_map split_size seen (cells_of r) (all_cells ranges) s m
                  h sorted ready in
              let rest =
                merge_ranges-Merged (seen ++ cells_of r) ranges next m after
                  (all_cells-AreSorted ranges a.2 f.1) at_next a.2 f.1 in
              let joined = append_assoc seen (cells_of r) (all_cells rest.done) in
              record {
                output = rest.output;
                done = r ∷ rest.done;
                left = rest.left;
                runs = simp (e, merge_ranges, step, rest.runs);
                parts = ap (λ l. r ∷ l) rest.parts;
                holds =
                    subst (λ l. Holds row l (all_cells rest.left) rest.output) joined rest.holds;
                ready = subst (λ l. Ready row rest.output l) joined rest.ready;
                starts = λ b. inr (r, rest.done, refl);
              }
          | inr e ↦
              let same = sym (append-nil seen) in
              record {
                output = s;
                done = [];
                left = r ∷ ranges;
                runs = simp (e, merge_ranges);
                parts = refl;
                holds = subst (λ l. Holds row l (all_cells (r ∷ ranges)) s) same h;
                ready = subst (λ l. Ready row s l) same ready;
                starts = λ b. absurd (ground arith);
              }
        ]
