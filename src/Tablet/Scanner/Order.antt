-- ===== src/Tablet/Scanner/Order.antt =====
-- A scan gives its cells in order, whatever happens to its tablet: src/cc/kdi/tablet/Scanner.cc.

use kdi.Common.{
  ◌≡◌, ap, subst, ◌∙◌, true, Option, none, some, List, [], ◌∷◌, All, Bool-cases, Option-cases,
  bind-some, inl, inr, arith,
}
use kdi.Interval.Range.{contains_value, make_lower_bound}
use kdi.CellFilter.{string_lt, Cell, ScanPredicate}
use kdi.MemoryTable.{cell_lt}
use kdi.MemoryTable.Order.{cell_lt-IsStrictWeak}
use kdi.Merge.Top.{IsSorted, above-All}
use kdi.Tablet.{get_merged_scan}
use kdi.Tablet.Scan.{AreSound, get_merged_scan-IsSorted}
use kdi.Tablet.Scanner.{
  Snapshot, Scanner, Got, clip_rows, fast_forward, next, open_cells, get, reopen, Call, get_at,
  reopened, add_got, read,
}

-- Whatever is scanned for, the fragments keep to what a merged scan relies on.
abbrev pub IsSound : Snapshot → Type 0
IsSound t = (pred : ScanPredicate) → AreSound t.contents t.fragments pred

abbrev pub AreCallsSound : List Call → Type 0
AreCallsSound [] = Unit
AreCallsSound (get_at t ∷ calls) = IsSound t × AreCallsSound calls
AreCallsSound (reopened ∷ calls) = AreCallsSound calls

-- The cells are in order and after the last one, if there is one.
abbrev pub After : Option Cell → List Cell → Type 0
After none cells = IsSorted cell_lt cells
After (some last) cells = All (λ x. cell_lt last x ≡ true) cells × IsSorted cell_lt cells

abbrev pub IsReady : Scanner → Type 0
IsReady s = elim s.cells [ none ↦ Unit | some cells ↦ After s.last_cell cells ]

fast_forward-After :
    (last : Cell) (cells : List Cell)
    → IsSorted cell_lt cells
    → After (some last) (fast_forward last cells)
unfolding fast_forward
fast_forward-After last [] h = (tt, tt)
fast_forward-After last (x ∷ cells) h = elim (Bool-cases (cell_lt last x)) [
  | inl e ↦ rw (e, fast_forward) ((e, above-All cell_lt cell_lt-IsStrictWeak last x cells e h.0), h)
  | inr e ↦ rw (e, fast_forward) (fast_forward-After last cells h.1)
]

opened_same : (a b : List Cell) → some (some a) ≡ some (some b) → a ≡ b
opened_same a b e = let p : some a ≡ some b = cc in cc

open_cells-After :
    (t : Snapshot) (pred : ScanPredicate) (last : Option Cell) (cells : List Cell)
    → IsSound t
    → open_cells t pred last ≡ some (some cells)
    → After last cells
unfolding open_cells
open_cells-After t pred none cells h e =
    let (c, q, r) =
      bind-some (get_merged_scan t.contents t.rows t.fragments pred) (λ c. some (some c))
        (some cells) e in
    subst (IsSorted cell_lt) (opened_same c cells r)
      (get_merged_scan-IsSorted t.contents t.rows t.fragments pred c (h pred) q)
open_cells-After t pred (some last) cells h e =
    elim (Bool-cases (contains_value string_lt t.rows last.row)) [
      | inl v ↦
          let (span, q1, r1) =
            bind-some (make_lower_bound [] last.row true) _ (some cells) (rw v at e) in
          let (clipped, q2, r2) = bind-some (clip_rows span pred) _ (some cells) r1 in
          let (c, q, r) =
            bind-some (get_merged_scan t.contents t.rows t.fragments clipped)
              (λ c. some (some (fast_forward last c))) (some cells) r2 in
          subst (After (some last)) (opened_same (fast_forward last c) cells r) (
            fast_forward-After last c
              (get_merged_scan-IsSorted t.contents t.rows t.fragments clipped c (h clipped) q))
      | inr v ↦ absurd (let r = rw v at e in ground arith)
    ]

-- What a call keeps to: the scanner stays ready, and what is read later comes after the cell.
Step : Scanner → Got × Scanner → Type 0
Step s r =
    IsReady r.1
    × ((cells : List Cell) → After r.1.last_cell cells → After s.last_cell (add_got r.0 cells))

next-Step : (s : Scanner) (cells : List Cell) → After s.last_cell cells → Step s (next s cells)
unfolding next Step
next-Step s cells h = read_next s.last_cell cells h
  where
    read_next :
        (o : Option Cell) (cs : List Cell)
        → After o cs
        → Step
            (record { pred = s.pred; cells = s.cells; last_cell = o })
            (next (record { pred = s.pred; cells = s.cells; last_cell = o }) cs)
    read_next none [] a = (tt, λ cells b. b)
    read_next (some last) [] a = ((tt, tt), λ cells b. b)
    read_next none (x ∷ cs) a = (a, λ cells b. b)
    read_next (some last) (x ∷ cs) a = (
      a.1,
      λ cells b. ((a.0.0, above-All cell_lt cell_lt-IsStrictWeak last x cells a.0.0 b.0), b),
    )

get-Step : (t : Snapshot) (s : Scanner) → IsSound t → IsReady s → Step s (get t s)
unfolding get Step
get-Step t s h r = elim (Option-cases s.cells) [
  | inl e ↦ elim (Option-cases (open_cells t s.pred s.last_cell)) [
    | inl o ↦ rw (e, o, get) (rw e tt, λ cells b. b)
    | inr (opened, o) ↦ elim (Option-cases opened) [
      | inl n ↦ rw (e, o, n, get) (rw e tt, λ cells b. b)
      | inr (cells, n) ↦
          rw (e, o, n, get)
            (next-Step s cells (open_cells-After t s.pred s.last_cell cells h (o ∙ ap some n)))
    ]
  ]
  | inr (cells, e) ↦ rw (e, get) (next-Step s cells (rw e at r))
]

read-After :
    (calls : List Call) (s : Scanner)
    → AreCallsSound calls
    → IsReady s
    → After s.last_cell (read calls s)
unfolding read reopen Step
read-After [] s h r = nothing s.last_cell
  where
    nothing : (o : Option Cell) → After o []
    nothing none = tt
    nothing (some x) = (tt, tt)
read-After (get_at t ∷ calls) s h r =
    let step = get-Step t s h.0 r in
    step.1 (read calls (get t s).1) (read-After calls (get t s).1 h.1 step.0)
read-After (reopened ∷ calls) s h r = read-After calls (reopen s) h tt

abbrev pub new_scanner : ScanPredicate → Scanner
new_scanner pred = record { pred = pred; cells = none; last_cell = none }

-- Whatever happens to a tablet between the calls, if its fragments are sound at each of them, then
-- the cells that a new scanner gives are in order, each key at most once: a scanner that is reopened
-- neither repeats a cell nor goes back.
pub read-IsSorted :
    (calls : List Call) (pred : ScanPredicate)
    → AreCallsSound calls
    → IsSorted cell_lt (read calls (new_scanner pred))
read-IsSorted calls pred h = read-After calls (new_scanner pred) h tt
