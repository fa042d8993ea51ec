-- ===== src/Compactor/Outputs.antt =====
-- What the files of a compaction hold: src/cc/kdi/tablet/SharedCompactor.cc.

use kdi.Common.{
  ℕ, ◌≡◌, refl, sym, ap, subst, ◌∙◌, true, false, ◌&&◌, some, List, [], ◌∷◌, ◌++◌, append-nil,
  append_assoc, All, All-append, All-always, Bool-cases, inl, inr, arith,
}
use kdi.Interval.Point.{
  IntervalPoint, infinite_lower_bound, is_upper_bound, point_lt, point_lt_value,
}
use kdi.Interval.Order.{lt_irrefl, lt_trans}
use kdi.Interval.Range.{Interval, bound_point, set_upper_point}
use kdi.Interval.Set.Inv.{value_splits}
use kdi.CellFilter.{string_lt}
use kdi.CellFilter.Predicate.{string_lt-IsStrictWeak}
use kdi.SuperTablet.Routing.{o, at_row}
use kdi.Compactor.{
  CompactRange, Finished, CompactionOutput, finalize, finalize_output, with_range, write, choose,
  put, put_all, flush, new_output,
}
use kdi.Compactor.Half.{IsRangeMap, above_some, row_endless}
use kdi.Compactor.Invariant.{
  contents, AreInside, AreApart, AreSorted, Below, Holds, in_range, write-Holds,
  finalize_output-Holds, choose-Holds,
}

module _ {Cell : Type 0} (row : Cell → List ℕ) where
  not_after :
      (x : Cell) (written : List Cell)
      → All (λ c. point_lt string_lt (at_row (row x)) (at_row (row c)) ≡ false) written
      → All
          (λ c. point_lt string_lt (at_row (row x)) (at_row (row c)) ≡ false)
          (written ++ (x ∷ []))
  not_after x written a =
      All-append (λ c. point_lt string_lt (at_row (row x)) (at_row (row c)) ≡ false) written
        (x ∷ []) a (lt_irrefl o (at_row (row x)), tt)

  All-suffix : (P : Cell → Type 0) (front back : List Cell) → All P (front ++ back) → All P back
  All-suffix P [] back a = a
  All-suffix P (x ∷ front) back a = All-suffix P front back a.1

  -- Before the first cell nothing is finished, and what is above all the cells is above the range's
  -- lower bound.
  abbrev pub Ready : CompactionOutput Cell → List Cell → Type 0
  Ready s seen =
      (s.output_open ≡ false → s.finished ≡ [])
      × ((u : IntervalPoint (List ℕ))
          → is_upper_bound u.type ≡ true
          → All (λ c. point_lt string_lt (at_row (row c)) u ≡ true) seen
          → point_lt string_lt s.output_range.lower_bound u ≡ true)

  abbrev Placed : CompactionOutput Cell → Cell → Type 0
  Placed t x =
      (t.output_open ≡ true)
      × (point_lt string_lt t.output_range.lower_bound (at_row (row x)) ≡ true)

  Placed-Ready :
      (t : CompactionOutput Cell) (seen : List Cell) (x : Cell)
      → Placed t x
      → Ready t (seen ++ (x ∷ []))
  Placed-Ready t seen x p = (
    λ e. absurd (ground arith),
    λ u b a.
        let last = All-suffix (λ c. point_lt string_lt (at_row (row c)) u ≡ true) seen (x ∷ []) a in
        lt_trans o t.output_range.lower_bound (at_row (row x)) u p.1 last.0,
  )

  -- What the finished files have to be.
  abbrev pub AreOutputs : List Cell → List (Finished Cell) → Type 0
  AreOutputs cells finished =
      (contents row finished ≡ cells) × AreInside row finished × AreApart row finished

  not_beyond :
      (u l : IntervalPoint (List ℕ)) (finished : List (Finished Cell))
      → point_lt string_lt l u ≡ true
      → All (λ f. point_lt string_lt f.output_range.upper_bound l ≡ true) finished
      → All (λ f. point_lt string_lt u f.output_range.upper_bound ≡ false) finished
  not_beyond u l [] h a = tt
  not_beyond u l (f ∷ finished) h a = (
    o.asym f.output_range.upper_bound u (lt_trans o f.output_range.upper_bound l u a.0 h),
    not_beyond u l finished h a.1,
  )

  module _ (size : List Cell → ℕ) (range_map : List CompactRange) (split_size : ℕ) where
    add-Holds :
        (seen rest : List Cell) (x : Cell) (s : CompactionOutput Cell)
        → IsRangeMap range_map
        → Holds row seen (x ∷ rest) s
        → AreSorted row (x ∷ rest)
        → point_lt string_lt (at_row (row x)) s.output_range.upper_bound ≡ true
        → (t : CompactionOutput Cell) × (choose row size range_map split_size x (write x s)
            ≡ some t)
          × Holds row (seen ++ (x ∷ [])) rest t
          × Placed t x
    unfolding write
    add-Holds seen rest x s m h sorted under =
        let (t, chosen, after, opened, same) =
          choose-Holds row size range_map split_size (seen ++ (x ∷ [])) rest x (write x s) m
            (write-Holds row seen rest x s h sorted under) h.to_come.0
            (not_after x s.written h.later.0) in
        (
          t,
          chosen,
          after,
          (
            opened,
            subst (λ p. point_lt string_lt p (at_row (row x)) ≡ true) (sym same) h.to_come.0,
          ),
        )

    -- A cell that no new file is started for is within the range of the open one.
    within_range :
        (seen rest : List Cell) (x : Cell) (s : CompactionOutput Cell)
        → Holds row seen (x ∷ rest) s
        → (s.ready_to_split && point_lt_value string_lt s.output_range.upper_bound (row x)) ≡ false
        → point_lt string_lt (at_row (row x)) s.output_range.upper_bound ≡ true
    within_range seen rest x s h e = elim (Bool-cases s.ready_to_split) [
      | inl r ↦
          let splits =
            value_splits string_lt-IsStrictWeak true s.output_range.upper_bound (row x) h.upper in
          let same : point_lt_value string_lt s.output_range.upper_bound (row x)
              ≡ point_lt string_lt s.output_range.upper_bound (at_row (row x)) =
            unfold point_lt_value point_lt in refl in
          ground arith
      | inr r ↦ rw (h.unbounded r) (row_endless (row x))
    ]

    put-Holds :
        (seen rest : List Cell) (x : Cell) (s : CompactionOutput Cell)
        → IsRangeMap range_map
        → Holds row seen (x ∷ rest) s
        → AreSorted row (x ∷ rest)
        → (t : CompactionOutput Cell) × (put row size range_map split_size x s ≡ some t)
          × Holds row (seen ++ (x ∷ [])) rest t
          × Placed t x
    unfolding put
    put-Holds seen rest x s m h sorted =
        elim (Bool-cases
          (s.ready_to_split && point_lt_value string_lt s.output_range.upper_bound (row x))) [
            | inl e ↦
                let same : point_lt_value string_lt s.output_range.upper_bound (row x)
                    ≡ point_lt string_lt s.output_range.upper_bound (at_row (row x)) =
                  unfold point_lt_value point_lt in refl in
                let (u, found, split, open_end) =
                  finalize_output-Holds row size range_map split_size seen rest x s h sorted
                    (ground arith) in
                let (t, chosen, after, placed) =
                  add-Holds seen rest x u m split sorted (rw open_end (row_endless (row x))) in
                (t, rw (e, put, found) chosen, after, placed)
            | inr e ↦
                let (t, chosen, after, placed) =
                  add-Holds seen rest x s m h sorted (within_range seen rest x s h e) in
                (t, rw (e, put) chosen, after, placed)
          ]

    pub put_all-Holds :
        (seen cells rest : List Cell) (s : CompactionOutput Cell)
        → IsRangeMap range_map
        → Holds row seen (cells ++ rest) s
        → AreSorted row (cells ++ rest)
        → Ready s seen
        → (t : CompactionOutput Cell) × (put_all row size range_map split_size cells s ≡ some t)
          × Holds row (seen ++ cells) rest t
          × Ready t (seen ++ cells)
    unfolding put_all
    put_all-Holds seen [] rest s m h sorted ready =
        let same = sym (append-nil seen) in
        (s, refl, subst (λ l. Holds row l rest s) same h, subst (λ l. Ready s l) same ready)
    put_all-Holds seen (x ∷ cells) rest s m h sorted ready =
        let (next, step, after, placed) = put-Holds seen (cells ++ rest) x s m h sorted in
        let joined = append_assoc seen (x ∷ []) cells in
        let (t, done, last, at_last) =
          put_all-Holds (seen ++ (x ∷ [])) cells rest next m after sorted.1
            (Placed-Ready next seen x placed) in
        (
          t,
          rw (put_all, step) done,
          subst (λ l. Holds row l rest t) joined last,
          subst (λ l. Ready t l) joined at_last,
        )

    pub flush-AreOutputs :
        (upper : IntervalPoint (List ℕ)) (cells rest : List Cell) (s : CompactionOutput Cell)
        → is_upper_bound upper.type ≡ true
        → Holds row cells rest s
        → Ready s cells
        → All (λ c. point_lt string_lt (at_row (row c)) upper ≡ true) cells
        → (t : CompactionOutput Cell) × (flush row size range_map split_size upper s ≡ some t)
          × AreOutputs cells t.finished
          × All (λ f. point_lt string_lt upper f.output_range.upper_bound ≡ false) t.finished
    unfolding flush set_upper_point finalize_output
    flush-AreOutputs upper cells rest s u h ready under = elim (Bool-cases s.output_open) [
      | inl e ↦
          let (half, found) = above_some s.output_range.lower_bound upper.value upper.type u in
          let closed : Interval (List ℕ) = record {
            lower_bound = s.output_range.lower_bound;
            upper_bound = upper;
          } in
          let last : Below row upper (contents row s.finished ++ s.written) = rw h.whole under in
          (
            finalize row size range_map split_size half (with_range closed s.ready_to_split s),
            rw (e, flush, u, found) refl,
            (
              h.whole,
              (
                in_range row closed s.written h.from_lower (
                    All-suffix (λ c. point_lt string_lt (at_row (row c)) upper ≡ true)
                      (contents row s.finished) s.written last),
                h.inside,
              ),
              (h.beneath, h.apart),
            ),
            (
              lt_irrefl o upper,
              not_beyond upper s.output_range.lower_bound s.finished (ready.1 upper u under)
                  h.beneath,
            ),
          )
      | inr e ↦ (
        s,
        simp (e, flush),
        (
          sym (append-nil (contents row s.finished))
              ∙ ap (λ l. contents row s.finished ++ l) (sym (h.closed e))
              ∙ h.whole,
          h.inside,
          h.apart,
        ),
        rw (ready.0 e) tt,
      )
    ]

  lowest :
      (u : IntervalPoint (List ℕ))
      → is_upper_bound u.type ≡ true
      → point_lt string_lt (bound_point [] infinite_lower_bound) u ≡ true
  unfolding point_lt
  lowest u b = ground arith

  -- Nothing has been put into a new output.
  pub new_output-Holds : (cells : List Cell) → Holds row [] cells new_output × Ready new_output []
  unfolding is_upper_bound
  new_output-Holds cells = (
    record {
      upper = refl;
      ordered = unfold point_lt in refl;
      whole = refl;
      inside = tt;
      apart = tt;
      beneath = tt;
      from_lower = tt;
      to_upper = tt;
      to_come =
          All-always
            (λ c. point_lt string_lt (bound_point [] infinite_lower_bound) (at_row (row c)) ≡ true)
            (λ c. unfold point_lt in refl) cells;
      later =
          All-always
            (λ d. All (λ c. point_lt string_lt (at_row (row d)) (at_row (row c)) ≡ false) [])
            (λ d. tt) cells;
      closed = λ e. refl;
      unbounded = λ e. refl;
    },
    (λ e. refl, λ u b a. lowest u b),
  )
