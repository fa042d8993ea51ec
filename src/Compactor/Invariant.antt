-- ===== src/Compactor/Invariant.antt =====
-- What holds while a compaction puts its cells: src/cc/kdi/tablet/SharedCompactor.cc.

use kdi.Common.{
  ℕ, ◌≡◌, refl, sym, ap, ◌∙◌, true, false, not, ◌&&◌, some, List, [], ◌∷◌, ◌++◌, append-nil,
  append_assoc, ltb, All, All-append, All-zip, All-always, Bool-cases, inl, inr, arith,
}
use kdi.Interval.Point.{IntervalPoint, is_upper_bound, point_lt}
use kdi.Interval.Order.{lt_trans, lt_of_lt_of_le}
use kdi.Interval.Range.{Interval, set_upper_point, contains_value}
use kdi.CellFilter.{string_lt}
use kdi.SuperTablet.Routing.{o, at_row, contains_lem}
use kdi.Compactor.{
  CompactRange, endless, Finished, CompactionOutput, find_upper, finalize, finalize_output,
  with_range, write, choose,
}
use kdi.Compactor.Half.{IsUpper, IsRangeMap, above_type, find_upper-IsUpper}

module _ {Cell : Type 0} (row : Cell → List ℕ) where
  -- The cells of the files, in the order in which they were put.
  abbrev pub contents : List (Finished Cell) → List Cell
  contents [] = []
  contents (f ∷ finished) = contents finished ++ f.cells

  -- Each file's cells are in its range.
  abbrev pub AreInside : List (Finished Cell) → Type 0
  AreInside finished =
      All (λ f. All (λ c. contains_value string_lt f.output_range (row c) ≡ true) f.cells) finished

  -- Each file's range lies above those of the files before.
  abbrev pub AreApart : List (Finished Cell) → Type 0
  AreApart [] = Unit
  AreApart (f ∷ finished) =
      All (λ g. point_lt string_lt g.output_range.upper_bound f.output_range.lower_bound ≡ true)
        finished
      × AreApart finished

  -- The rows of the cells do not descend.
  abbrev pub AreSorted : List Cell → Type 0
  AreSorted [] = Unit
  AreSorted (x ∷ cells) =
      All (λ c. point_lt string_lt (at_row (row c)) (at_row (row x)) ≡ false) cells
      × AreSorted cells

  abbrev pub Above : IntervalPoint (List ℕ) → List Cell → Type 0
  Above p cells = All (λ c. point_lt string_lt p (at_row (row c)) ≡ true) cells

  abbrev pub Below : IntervalPoint (List ℕ) → List Cell → Type 0
  Below p cells = All (λ c. point_lt string_lt (at_row (row c)) p ≡ true) cells

  -- What holds between puts, with the cells that have been put and those to come.
  pub record Holds (seen rest : List Cell) (s : CompactionOutput Cell) : Type 0 where
    pub upper : IsUpper s.output_range.upper_bound
    pub ordered : point_lt string_lt s.output_range.lower_bound s.output_range.upper_bound ≡ true
    pub whole : contents s.finished ++ s.written ≡ seen
    pub inside : AreInside s.finished
    pub apart : AreApart s.finished
    pub beneath :
        All
          (λ f. point_lt string_lt f.output_range.upper_bound s.output_range.lower_bound ≡ true)
          s.finished
    pub from_lower : Above s.output_range.lower_bound s.written
    pub to_upper : Below s.output_range.upper_bound s.written
    pub to_come : Above s.output_range.lower_bound rest
    pub later :
        All
          (λ d. All (λ c. point_lt string_lt (at_row (row d)) (at_row (row c)) ≡ false) s.written)
          rest
    pub closed : s.output_open ≡ false → s.written ≡ []
    pub unbounded : s.ready_to_split ≡ false → s.output_range.upper_bound ≡ endless

  pub in_range :
      (range : Interval (List ℕ)) (cells : List Cell)
      → Above range.lower_bound cells
      → Below range.upper_bound cells
      → All (λ c. contains_value string_lt range (row c) ≡ true) cells
  in_range range cells a b =
      All-zip (λ c. point_lt string_lt range.lower_bound (at_row (row c)) ≡ true)
        (λ c. point_lt string_lt (at_row (row c)) range.upper_bound ≡ true)
        (λ c. contains_value string_lt range (row c) ≡ true)
        (λ c p q. contains_lem range (row c) ∙ rw (p, q) refl) cells a b

  -- What is above the row of a cell is above the rows of those that do not come before it.
  All-after :
      (p : IntervalPoint (List ℕ)) (x : Cell) (cells : List Cell)
      → point_lt string_lt p (at_row (row x)) ≡ true
      → All (λ c. point_lt string_lt (at_row (row c)) (at_row (row x)) ≡ false) cells
      → Above p cells
  All-after p x [] h a = tt
  All-after p x (c ∷ cells) h a =
      (lt_of_lt_of_le o p (at_row (row x)) (at_row (row c)) h a.0, All-after p x cells h a.1)

  All-before :
      (p : IntervalPoint (List ℕ)) (x : Cell) (cells : List Cell)
      → point_lt string_lt (at_row (row x)) p ≡ true
      → All (λ c. point_lt string_lt (at_row (row x)) (at_row (row c)) ≡ false) cells
      → Below p cells
  All-before p x [] h a = tt
  All-before p x (c ∷ cells) h a =
      let head = a.0 in
      (ground (arith, o.cotrans (at_row (row x)) (at_row (row c)) p), All-before p x cells h a.1)

  pub write-Holds :
      (seen rest : List Cell) (x : Cell) (s : CompactionOutput Cell)
      → Holds seen (x ∷ rest) s
      → AreSorted (x ∷ rest)
      → point_lt string_lt (at_row (row x)) s.output_range.upper_bound ≡ true
      → Holds (seen ++ (x ∷ [])) rest (write x s)
  unfolding write
  write-Holds seen rest x s h sorted under = record {
    upper = h.upper;
    ordered = h.ordered;
    whole =
        sym (append_assoc (contents s.finished) s.written (x ∷ []))
        ∙ ap (λ l. l ++ (x ∷ [])) h.whole;
    inside = h.inside;
    apart = h.apart;
    beneath = h.beneath;
    from_lower =
        All-append (λ c. point_lt string_lt s.output_range.lower_bound (at_row (row c)) ≡ true)
          s.written (x ∷ []) h.from_lower (h.to_come.0, tt);
    to_upper =
        All-append (λ c. point_lt string_lt (at_row (row c)) s.output_range.upper_bound ≡ true)
          s.written (x ∷ []) h.to_upper (under, tt);
    to_come = h.to_come.1;
    later =
        All-zip
          (λ d. All (λ c. point_lt string_lt (at_row (row d)) (at_row (row c)) ≡ false) s.written)
          (λ d. point_lt string_lt (at_row (row d)) (at_row (row x)) ≡ false)
          (λ d.
            All (λ c. point_lt string_lt (at_row (row d)) (at_row (row c)) ≡ false)
              (s.written ++ (x ∷ [])))
          (λ d p q.
            All-append (λ c. point_lt string_lt (at_row (row d)) (at_row (row c)) ≡ false) s.written
              (x ∷ []) p (q, tt))
          rest h.later.1 sorted.0;
    closed = λ e. absurd (ground arith);
    unbounded = h.unbounded;
  }

  All-under :
      (p q : IntervalPoint (List ℕ)) (finished : List (Finished Cell))
      → point_lt string_lt p q ≡ true
      → All (λ f. point_lt string_lt f.output_range.upper_bound p ≡ true) finished
      → All (λ f. point_lt string_lt f.output_range.upper_bound q ≡ true) finished
  All-under p q [] h a = tt
  All-under p q (f ∷ finished) h a =
      (lt_trans o f.output_range.upper_bound p q a.0 h, All-under p q finished h a.1)

  -- A file that is finished because the next cell is above its range.
  pub finalize_output-Holds :
      (size : List Cell → ℕ) (range_map : List CompactRange) (split_size : ℕ)
      (seen rest : List Cell) (x : Cell) (s : CompactionOutput Cell)
      → Holds seen (x ∷ rest) s
      → AreSorted (x ∷ rest)
      → point_lt string_lt s.output_range.upper_bound (at_row (row x)) ≡ true
      → (t : CompactionOutput Cell) × (finalize_output row size range_map split_size s ≡ some t)
        × Holds seen (x ∷ rest) t
        × (t.output_range.upper_bound ≡ endless)
  unfolding finalize_output is_upper_bound
  finalize_output-Holds size range_map split_size seen rest x s h sorted over =
      let (half, found, (open_end, next, ordered, keeps)) =
        above_type s.output_range.lower_bound s.output_range.upper_bound.value
          s.output_range.upper_bound.type (row x) h.upper over in
      let lower = keeps (row x) over in
      (
        finalize row size range_map split_size half s,
        rw found refl,
        record {
          upper = rw open_end refl;
          ordered = rw open_end ordered;
          whole = append-nil (contents s.finished ++ s.written) ∙ h.whole;
          inside = (in_range s.output_range s.written h.from_lower h.to_upper, h.inside);
          apart = (h.beneath, h.apart);
          beneath = (
            next,
            All-under s.output_range.lower_bound half.lower_bound s.finished
                (lt_trans o s.output_range.lower_bound s.output_range.upper_bound half.lower_bound
                  h.ordered next)
                h.beneath,
          );
          from_lower = tt;
          to_upper = tt;
          to_come = (lower, All-after half.lower_bound x rest lower sorted.0);
          later =
              All-always
                (λ d. All (λ c. point_lt string_lt (at_row (row d)) (at_row (row c)) ≡ false) [])
                (λ d. tt) (x ∷ rest);
          closed = λ e. refl;
          unbounded = λ e. open_end;
        },
        open_end,
      )

  pub choose-Holds :
      (size : List Cell → ℕ) (range_map : List CompactRange) (split_size : ℕ)
      (seen rest : List Cell) (x : Cell) (s : CompactionOutput Cell)
      → IsRangeMap range_map
      → Holds seen rest s
      → point_lt string_lt s.output_range.lower_bound (at_row (row x)) ≡ true
      → All (λ c. point_lt string_lt (at_row (row x)) (at_row (row c)) ≡ false) s.written
      → (t : CompactionOutput Cell) × (choose row size range_map split_size x s ≡ some t)
        × Holds seen rest t
        × (t.output_open ≡ s.output_open)
        × (t.output_range.lower_bound ≡ s.output_range.lower_bound)
  unfolding choose set_upper_point
  choose-Holds size range_map split_size seen rest x s m h lower last =
      elim (Bool-cases (not s.ready_to_split && ltb split_size (size s.written))) [
        | inl e ↦
            let (upper, reaches) = find_upper-IsUpper (row x) range_map m in
            (
              with_range
                  (record {
                    lower_bound = s.output_range.lower_bound;
                    upper_bound = find_upper (at_row (row x)) range_map;
                  })
                  true s,
              rw (e, choose, upper) refl,
              record {
                upper = upper;
                ordered =
                    lt_trans o s.output_range.lower_bound (at_row (row x))
                      (find_upper (at_row (row x)) range_map) lower reaches;
                whole = h.whole;
                inside = h.inside;
                apart = h.apart;
                beneath = h.beneath;
                from_lower = h.from_lower;
                to_upper =
                    All-before (find_upper (at_row (row x)) range_map) x s.written reaches last;
                to_come = h.to_come;
                later = h.later;
                closed = h.closed;
                unbounded = λ n. absurd (ground arith);
              },
              refl,
              refl,
            )
        | inr e ↦ (s, rw (e, choose) refl, h, refl, refl)
      ]
