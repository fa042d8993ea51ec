-- ===== src/Merge/Cells.antt =====
-- The merge of cells, src/cc/kdi/cell_merge.h: the newest cell of each key, erasures left out.
use kdi.Common.{
  ℕ, zero, suc, ◌<◌, ◌≤◌, ◌⊎◌, ◌≡◌, refl, sym, ap, subst, ◌∙◌, Bool, true, false, Option, none,
  some, List, [], ◌∷◌, arith, Bool-cases, Option-cases, inl, inr, if◌then◌else◌, All,
}
use kdi.CellFilter.{Cell, erasure_filter}
use kdi.MemoryTable.{cell_lt}
use kdi.MemoryTable.Order.{cell_lt-IsStrictWeak}
use kdi.Merge.{Input, fetch_from, top, pending, get, read_all, merge}
use kdi.Merge.Top.{same_key, find, IsSorted, IsHeap, find-above}
use kdi.Merge.Result.{
  get-Round, get-end, read_end, read_more, find_first, fetch_from-IsHeap, merge_lem,
}

-- The loop of `get` that passes over erasures. Each round takes a cell off an input.
unfoldable pub next_live : ℕ → List (Input Cell) → Option (Cell × List (Input Cell))
next_live zero heap = none
next_live (suc fuel) heap = elim (get cell_lt true heap) [
  | none ↦ none
  | some r ↦ elim r.0.value [ none ↦ next_live fuel r.1 | some v ↦ some r ]
]

-- `CellMerge::get`.
unfoldable pub get_cell : Bool → List (Input Cell) → Option (Cell × List (Input Cell))
unfolding next_live
get_cell filter_erasures heap =
    if filter_erasures then next_live (suc (pending cell_lt heap)) heap else get cell_lt true heap

-- What a reader gets until the merge ends.
unfoldable pub read_cells : ℕ → Bool → List (Input Cell) → List Cell
read_cells zero filter_erasures heap = []
read_cells (suc fuel) filter_erasures heap = elim (get_cell filter_erasures heap) [
  | none ↦ []
  | some r ↦ r.0 ∷ read_cells fuel filter_erasures r.1
]

unfoldable pub cell_merge : Bool → List (List Cell) → List Cell
unfolding read_cells
cell_merge filter_erasures inputs =
    let heap = fetch_from 0 inputs in read_cells (pending cell_lt heap) filter_erasures heap

next_live_end :
    (fuel : ℕ) (heap : List (Input Cell))
    → get cell_lt true heap ≡ none
    → next_live (suc fuel) heap ≡ none
unfolding next_live
next_live_end fuel heap g = rw (g, next_live) refl

next_live_step :
    (fuel : ℕ) (heap rest : List (Input Cell)) (x : Cell) (o : Option (List ℕ))
    → get cell_lt true heap ≡ some (x, rest)
    → x.value ≡ o
    → next_live (suc fuel) heap ≡ elim o [ none ↦ next_live fuel rest | some v ↦ some (x, rest) ]
unfolding next_live
next_live_step fuel heap rest x o g e =
    rw (g, next_live) (ap (λ p. elim p [ none ↦ next_live fuel rest | some v ↦ some (x, rest) ]) e)

erasure_filter_step :
    (x : Cell) (s : List Cell) (o : Option (List ℕ))
    → x.value ≡ o
    → erasure_filter (x ∷ s) ≡ elim o [ none ↦ erasure_filter s | some v ↦ x ∷ erasure_filter s ]
unfolding erasure_filter
erasure_filter_step x s o e =
    ap (λ p. elim p [ none ↦ erasure_filter s | some v ↦ x ∷ erasure_filter s ]) e

-- What a call of the filtering `get` gives, by what reading on without the filter would.
abbrev Live : (next : Option (Cell × List (Input Cell))) (m : ℕ) (heap : List (Input Cell)) → Type 0
Live next m heap =
    ((next ≡ none) × (erasure_filter (read_all cell_lt m true heap) ≡ []))
    ⊎ ((x : Cell) × (rest : List (Input Cell)) × (n : ℕ) × (next ≡ some (x, rest))
        × (pending cell_lt rest ≤ n)
        × (pending cell_lt rest < pending cell_lt heap)
        × IsHeap cell_lt rest
        × (erasure_filter (read_all cell_lt m true heap)
            ≡ x ∷ erasure_filter (read_all cell_lt n true rest)))

read_nothing :
    (m : ℕ) (heap : List (Input Cell))
    → get cell_lt true heap ≡ none
    → erasure_filter (read_all cell_lt m true heap) ≡ []
unfolding erasure_filter
read_nothing m heap g = rw (read_end cell_lt-IsStrictWeak m heap g) refl

next_live-Live :
    (fuel m : ℕ) (heap : List (Input Cell))
    → pending cell_lt heap < fuel
    → pending cell_lt heap ≤ m
    → IsHeap cell_lt heap
    → Live (next_live fuel heap) m heap
next_live-Live zero m heap b c h = absurd (omega arith)
next_live-Live (suc fuel) zero [] b c h =
    let g = get-end cell_lt-IsStrictWeak true [] (unfold top in refl) in
    inl (next_live_end fuel [] g, read_nothing zero [] g)
next_live-Live (suc fuel) zero (e ∷ heap) b c h = absurd (omega arith)
next_live-Live (suc fuel) (suc n) heap b c h = elim (Option-cases (top cell_lt heap)) [
  | inl e ↦
      let g = get-end cell_lt-IsStrictWeak true heap e in
      inl (next_live_end fuel heap g, read_nothing (suc n) heap g)
  | inr (t, e) ↦
      let (rest, g, round) = get-Round cell_lt-IsStrictWeak heap t h e in
      let fewer = round.fewer in
      let valid = round.leaves.valid in
      let step = next_live_step fuel heap rest t.value in
      let more = ap erasure_filter (read_more cell_lt-IsStrictWeak n heap rest t.value g) in
      let kept = erasure_filter_step t.value (read_all cell_lt n true rest) in
      elim (Option-cases t.value.value) [
        | inl erased ↦ elim (next_live-Live fuel n rest (omega arith) (omega arith) valid) [
          | inl (q, f) ↦ inl (step none g erased ∙ q, more ∙ kept none erased ∙ f)
          | inr (x, last, k, q, c1, c2, v, f) ↦
              inr (
                x,
                last,
                k,
                step none g erased ∙ q,
                c1,
                omega arith,
                v,
                more ∙ kept none erased ∙ f,
              )
        ]
        | inr (v, live) ↦ inr (
          t.value,
          rest,
          n,
          step (some v) g live,
          omega arith,
          omega arith,
          valid,
          more ∙ kept (some v) live,
        )
      ]
]

read_cells-erasure_filter :
    (fuel m : ℕ) (heap : List (Input Cell))
    → pending cell_lt heap ≤ fuel
    → pending cell_lt heap ≤ m
    → IsHeap cell_lt heap
    → read_cells fuel true heap ≡ erasure_filter (read_all cell_lt m true heap)
unfolding read_cells get_cell
read_cells-erasure_filter zero m [] b c h =
    sym (read_nothing m [] (get-end cell_lt-IsStrictWeak true [] (unfold top in refl)))
read_cells-erasure_filter zero m (e ∷ heap) b c h = absurd (omega arith)
read_cells-erasure_filter (suc fuel) m heap b c h =
    elim (next_live-Live (suc (pending cell_lt heap)) m heap (omega arith) c h) [
      | inl (q, f) ↦ rw (q, read_cells, get_cell, f) refl
      | inr (x, rest, n, q, c1, c2, v, f) ↦
          rw (q, read_cells, get_cell, f)
            (ap (◌∷◌ x) (read_cells-erasure_filter fuel n rest (omega arith) c1 v))
    ]

-- Reading without the filter is what the merge of any values does.
read_cells-read_all :
    (fuel : ℕ) (heap : List (Input Cell))
    → read_cells fuel false heap ≡ read_all cell_lt fuel true heap
unfolding read_cells get_cell read_all
read_cells-read_all zero heap = refl
read_cells-read_all (suc fuel) heap = elim (Option-cases (get cell_lt true heap)) [
  | inl e ↦ rw (e, read_cells, get_cell, read_all) refl
  | inr (r, e) ↦
      rw (e, read_cells, get_cell, read_all) (ap (◌∷◌ r.0) (read_cells-read_all fuel r.1))
]

-- A cell, unless it is an erasure.
abbrev pub live : Option Cell → Option Cell
live none = none
live (some x) = elim x.value [ none ↦ none | some v ↦ some x ]

All-erasure_filter :
    (x : Cell) (s : List Cell)
    → All (λ y. cell_lt x y ≡ true) s
    → All (λ y. cell_lt x y ≡ true) (erasure_filter s)
unfolding erasure_filter
All-erasure_filter x [] a = tt
All-erasure_filter x (y ∷ s) a = elim (Option-cases y.value) [
  | inl e ↦ rw (erasure_filter_step y s none e) (All-erasure_filter x s a.1)
  | inr (v, e) ↦ rw (erasure_filter_step y s (some v) e) (a.0, All-erasure_filter x s a.1)
]

pub erasure_filter_lem :
    (s : List Cell)
    → IsSorted cell_lt s
    → IsSorted cell_lt (erasure_filter s)
      × ((k : Cell) → find cell_lt k (erasure_filter s) ≡ live (find cell_lt k s))
unfolding erasure_filter
erasure_filter_lem [] h = (tt, λ k. refl)
erasure_filter_lem (x ∷ s) h =
    let ih = erasure_filter_lem s h.1 in
    elim (Option-cases x.value) [
      | inl erased ↦
          rw (erasure_filter_step x s none erased) (ih.0, λ k. find_erased erased k (ih.1 k))
      | inr (v, kept) ↦
          rw (erasure_filter_step x s (some v) kept)
            ((All-erasure_filter x s h.0, ih.0), λ k. find_kept v kept k (ih.1 k))
    ]
  where
    find_erased :
        x.value ≡ none
        → (k : Cell) → find cell_lt k (erasure_filter s) ≡ live (find cell_lt k s)
        → find cell_lt k (erasure_filter s) ≡ live (find cell_lt k (x ∷ s))
    find_erased erased k e = elim (Bool-cases (same_key cell_lt k x)) [
      | inl q ↦
          let absent = find-above cell_lt cell_lt-IsStrictWeak k x s q h.0 in
          rw q
            (e ∙ ap live absent ∙ sym (ap (λ o. elim o [ none ↦ none | some v ↦ some x ]) erased))
      | inr q ↦ rw q e
    ]

    find_kept :
        (v : List ℕ)
        → x.value ≡ some v
        → (k : Cell) → find cell_lt k (erasure_filter s) ≡ live (find cell_lt k s)
        → find cell_lt k (x ∷ erasure_filter s) ≡ live (find cell_lt k (x ∷ s))
    find_kept v kept k e = elim (Bool-cases (same_key cell_lt k x)) [
      | inl q ↦ rw q (sym (ap (λ o. elim o [ none ↦ none | some y ↦ some x ]) kept))
      | inr q ↦ rw q e
    ]

-- The merge of sorted streams of cells that filters erasures is the one that does not, less its
-- erasures. It is in order without two cells of one key, and it has for each key the cell of the
-- first stream that has the key, or none if that is an erasure or no stream has it.
pub cell_merge_lem :
    (inputs : List (List Cell))
    → All (IsSorted cell_lt) inputs
    → (cell_merge true inputs ≡ erasure_filter (cell_merge false inputs))
      × IsSorted cell_lt (cell_merge true inputs)
      × ((k : Cell)
          → find cell_lt k (cell_merge true inputs)
            ≡ live (find_first cell_lt-IsStrictWeak k inputs))
unfolding cell_merge merge
cell_merge_lem inputs a =
    let all = merge_lem cell_lt-IsStrictWeak inputs a in
    let size = pending cell_lt (fetch_from 0 inputs) in
    let filtered =
      read_cells-erasure_filter size size (fetch_from 0 inputs) (omega arith) (omega arith)
        (fetch_from-IsHeap cell_lt-IsStrictWeak 0 inputs a) in
    let done = erasure_filter_lem (merge cell_lt true inputs) all.0 in
    (
      filtered ∙ sym (ap erasure_filter (read_cells-read_all size (fetch_from 0 inputs))),
      subst (IsSorted cell_lt) (sym filtered) done.0,
      λ k. ap (find cell_lt k) filtered ∙ done.1 k ∙ ap live (all.1 k),
    )
