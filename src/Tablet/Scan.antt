-- ===== src/Tablet/Scan.antt =====
-- What a merged scan of a tablet gives: src/cc/kdi/tablet/Tablet.cc.

use kdi.Common.{
  ℕ, ◌≡◌, refl, ap, subst, ◌∙◌, true, Option, none, some, List, [], ◌∷◌, All, Bool-cases, inl, inr,
  arith,
}
use kdi.Interval.Range.{Interval}
use kdi.CellFilter.{pos, Cell, erasure_filter, ScanPredicate}
use kdi.MemoryTable.{cell_lt}
use kdi.MemoryTable.Order.{cell_lt-IsStrictWeak}
use kdi.Merge.Top.{find, or_else, IsSorted}
use kdi.Merge.Result.{find_first}
use kdi.Merge.Cells.{live, erasure_filter_lem, cell_merge_lem}
use kdi.Tablet.{Fragments, validate_rows, is_zero, newest_first, merged_cells, get_merged_scan}

-- What the scans of the fragments keep to: their cells are in order, and an immutable fragment that
-- is the only one of its tablet has been compacted and holds no erasures.
pub record AreSound (fs : Fragments) (fragments : List ℕ) (pred : ScanPredicate) : Type 0 where
  pub sorted : (f : ℕ) → IsSorted cell_lt (fs.scan f pred)
  pub compacted :
      (f : ℕ)
      → fragments ≡ f ∷ []
      → fs.is_immutable f ≡ true
      → erasure_filter (fs.scan f pred) ≡ fs.scan f pred

-- The cell of a key in the last fragment of a chain that has the key.
abbrev pub find_last : Fragments → ScanPredicate → List ℕ → Cell → Option Cell
find_last fs pred [] k = none
find_last fs pred (f ∷ fragments) k =
    or_else cell_lt (find_last fs pred fragments k) (find cell_lt k (fs.scan f pred))

-- The same cell, unless it is an erasure.
abbrev pub newest : Fragments → ScanPredicate → List ℕ → Cell → Option Cell
newest fs pred fragments k = live (find_last fs pred fragments k)

or_else_assoc :
    (a b c : Option Cell)
    → or_else cell_lt a (or_else cell_lt b c) ≡ or_else cell_lt (or_else cell_lt a b) c
or_else_assoc none b c = refl
or_else_assoc (some x) b c = refl

find_first-newest_first :
    (fs : Fragments) (pred : ScanPredicate) (fragments : List ℕ) (inputs : List (List Cell))
    (k : Cell)
    → find_first cell_lt-IsStrictWeak k (newest_first fs pred fragments inputs)
      ≡ or_else cell_lt (find_last fs pred fragments k) (find_first cell_lt-IsStrictWeak k inputs)
find_first-newest_first fs pred [] inputs k = refl
find_first-newest_first fs pred (f ∷ fragments) inputs k =
    find_first-newest_first fs pred fragments (fs.scan f pred ∷ inputs) k
    ∙ or_else_assoc (find_last fs pred fragments k) (find cell_lt k (fs.scan f pred))
        (find_first cell_lt-IsStrictWeak k inputs)

newest_first-All :
    (fs : Fragments) (pred : ScanPredicate) (fragments : List ℕ) (inputs : List (List Cell))
    → ((f : ℕ) → IsSorted cell_lt (fs.scan f pred))
    → All (IsSorted cell_lt) inputs
    → All (IsSorted cell_lt) (newest_first fs pred fragments inputs)
newest_first-All fs pred [] inputs s a = a
newest_first-All fs pred (f ∷ fragments) inputs s a =
    newest_first-All fs pred fragments (fs.scan f pred ∷ inputs) s (s f, a)

or_else-none : (o : Option Cell) → or_else cell_lt o none ≡ o
or_else-none none = refl
or_else-none (some x) = refl

Merged : Fragments → List ℕ → ScanPredicate → List Cell → Type 0
Merged fs fragments pred cells =
    IsSorted cell_lt cells × ((k : Cell) → find cell_lt k cells ≡ newest fs pred fragments k)

merged_cells-Merged :
    (fs : Fragments) (fragments : List ℕ) (pred : ScanPredicate)
    → AreSound fs fragments pred
    → Merged fs fragments pred (merged_cells fs fragments pred)
unfolding merged_cells Merged
merged_cells-Merged fs [] pred s = let m = cell_merge_lem [] tt in (m.1, m.2)
merged_cells-Merged fs (f ∷ []) pred s =
    let e = erasure_filter_lem (fs.scan f pred) (s.sorted f) in
    let filtered : Merged fs (f ∷ []) pred (erasure_filter (fs.scan f pred)) = (e.0, λ k. e.1 k) in
    elim (Bool-cases (fs.is_immutable f)) [
      | inl i ↦ rw i (subst (Merged fs (f ∷ []) pred) (s.compacted f refl i) filtered)
      | inr i ↦ rw i filtered
    ]
merged_cells-Merged fs (f ∷ g ∷ fragments) pred s =
    let m =
      cell_merge_lem (newest_first fs pred (f ∷ g ∷ fragments) [])
        (newest_first-All fs pred (f ∷ g ∷ fragments) [] s.sorted tt) in
    (
      m.1,
      λ k.
          m.2 k
          ∙ ap live (
              find_first-newest_first fs pred (f ∷ g ∷ fragments) [] k
              ∙ or_else-none (find_last fs pred (f ∷ g ∷ fragments) k)),
    )

-- A merged scan without a history whose rows are in the tablet raises no error. Its cells are in
-- order without two of one key, and it has for each key the cell of the newest fragment that has
-- the key, or none if that is an erasure.
pub get_merged_scan_lem :
    (fs : Fragments) (rows : Interval (List ℕ)) (fragments : List ℕ) (pred : ScanPredicate)
    → validate_rows rows pred ≡ true
    → pred.max_history ≡ pos 0
    → AreSound fs fragments pred
    → (cells : List Cell) × (get_merged_scan fs rows fragments pred ≡ some cells)
      × IsSorted cell_lt cells
      × ((k : Cell) → find cell_lt k cells ≡ newest fs pred fragments k)
unfolding Merged get_merged_scan
get_merged_scan_lem fs rows fragments pred v h s =
    let m = merged_cells-Merged fs fragments pred s in
    let zero_history : is_zero pred.max_history ≡ true = ap is_zero h in
    (merged_cells fs fragments pred, rw (v, zero_history, get_merged_scan) refl, m.0, m.1)

-- What a merged scan gives is in order.
pub get_merged_scan-IsSorted :
    (fs : Fragments) (rows : Interval (List ℕ)) (fragments : List ℕ) (pred : ScanPredicate)
    (cells : List Cell)
    → AreSound fs fragments pred
    → get_merged_scan fs rows fragments pred ≡ some cells
    → IsSorted cell_lt cells
unfolding get_merged_scan Merged
get_merged_scan-IsSorted fs rows fragments pred cells s e =
    elim (Bool-cases (validate_rows rows pred)) [
      | inl v ↦ elim (Bool-cases (is_zero pred.max_history)) [
        | inl h ↦
            let q : some (merged_cells fs fragments pred) ≡ some cells =
              let r = rw (v, h) at e in r in
            subst (IsSorted cell_lt) (let p : merged_cells fs fragments pred ≡ cells = cc in p)
              (merged_cells-Merged fs fragments pred s).0
        | inr h ↦ absurd (let r = rw (v, h) at e in ground arith)
      ]
      | inr v ↦ absurd (let r = rw v at e in ground arith)
    ]
