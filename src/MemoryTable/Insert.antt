-- ===== src/MemoryTable/Insert.antt =====
-- `insert` of src/cc/kdi/memory_table.cc keeps one cell for each key, in order, and the account of
-- the memory.
use kdi.Common.{
  ℕ, ◌+◌, ◌^◌, ◌%◌, ◌≡◌, refl, ap, ap₂, Bool, true, false, not, ◌&&◌, none, some, List, [], ◌∷◌,
  arith, Bool-cases, Option-cases, inl, inr, if◌then◌else◌, length, All, ◌==◌,
}
use kdi.Interval.Order.{IsStrictWeak}
use kdi.CellFilter.{Cell, string_lt}
use kdi.MemoryTable.{cell_lt, MemoryTable, value_size, put, find_cell, cell_size, insert}
use kdi.MemoryTable.Order.{cell_lt-IsStrictWeak}

-- The cells stand in order, no two with the same key.
abbrev pub IsSorted : (Cell → Cell → Bool) → List Cell → Type 0
IsSorted lt [] = Unit
IsSorted lt (x ∷ s) = All (λ y. lt x y ≡ true) s × IsSorted lt s

abbrev pub same_key : (Cell → Cell → Bool) → Cell → Cell → Bool
same_key lt a b = not (lt a b) && not (lt b a)

abbrev pub total : ℕ → List Cell → ℕ
total overhead [] = 0
total overhead (x ∷ s) = cell_size overhead x + total overhead s

module _ (lt : Cell → Cell → Bool) (w : IsStrictWeak lt) where
  lt_trans : (a b c : Cell) → lt a b ≡ true → lt b c ≡ true → lt a c ≡ true
  lt_trans a b c h k =
      ground (
        arith,
        w.cotrans b c a,
        w.cotrans a c b,
        w.cotrans a b c,
        w.asym a b,
        w.asym b c,
        w.asym c a,
      )

  All-put :
      (z x : Cell) (s : List Cell)
      → lt z x ≡ true
      → All (λ y. lt z y ≡ true) s
      → All (λ y. lt z y ≡ true) (put lt x s)
  All-put z x [] h a = (h, tt)
  All-put z x (y ∷ s) h a = elim (Bool-cases (lt x y)) [
    | inl p ↦ rw p (h, a)
    | inr p ↦ elim (Bool-cases (lt y x)) [
      | inl q ↦ rw (p, q) (a.0, All-put z x s h a.1)
      | inr q ↦ rw (p, q) (h, a.1)
    ]
  ]

  All-above :
      (x y : Cell) (s : List Cell)
      → ((z : Cell) → lt y z ≡ true → lt x z ≡ true)
      → All (λ z. lt y z ≡ true) s
      → All (λ z. lt x z ≡ true) s
  All-above x y [] f a = tt
  All-above x y (z ∷ s) f a = (f z a.0, All-above x y s f a.1)

  put-IsSorted : (x : Cell) (s : List Cell) → IsSorted lt s → IsSorted lt (put lt x s)
  put-IsSorted x [] h = (tt, tt)
  put-IsSorted x (y ∷ s) h = elim (Bool-cases (lt x y)) [
    | inl p ↦ rw p ((p, All-above x y s (λ z k. lt_trans x y z p k) h.0), h)
    | inr p ↦ elim (Bool-cases (lt y x)) [
      | inl q ↦ rw (p, q) (All-put y x s q h.0, put-IsSorted x s h.1)
      | inr q ↦ rw (p, q) (All-above x y s (λ z k. ground (arith, w.cotrans y x z)) h.0, h.1)
    ]
  ]

  find-put :
      (k x : Cell) (s : List Cell)
      → IsSorted lt s
      → find_cell lt k (put lt x s) ≡ (if same_key lt k x then some x else find_cell lt k s)
  find-put k x [] h = (ground arith)
  find-put k x (y ∷ s) h =
      let ih = find-put k x s h.1 in
      elim (Bool-cases (lt x y)) [
        | inl p ↦ rw p (ground (arith, w.cotrans k y x, w.asym x y, w.asym k x))
        | inr p ↦ elim (Bool-cases (lt y x)) [
          | inl q ↦ rw (p, q) (ground (arith, w.cotrans k x y, w.cotrans y k x, w.asym k y))
          | inr q ↦
              rw (p, q) (ground (arith, w.cotrans k y x, w.cotrans x y k, w.asym k y, w.asym y k))
        ]
      ]

  module _ (overhead : ℕ) where
    total-put-new :
        (x : Cell) (s : List Cell)
        → find_cell lt x s ≡ none
        → total overhead (put lt x s) ≡ total overhead s + cell_size overhead x
    total-put-new x [] e = omega arith
    total-put-new x (y ∷ s) e = elim (Bool-cases (lt x y)) [
      | inl p ↦ rw p (omega arith)
      | inr p ↦ elim (Bool-cases (lt y x)) [
        | inl q ↦ let n = rw (p, q) at e in let ih = total-put-new x s n in rw (p, q) (omega arith)
        | inr q ↦ absurd (let n = rw (p, q) at e in ground arith)
      ]
    ]

    total-put-old :
        (x : Cell) (s : List Cell) (old : Cell)
        → find_cell lt x s ≡ some old
        → (total overhead (put lt x s) + cell_size overhead old
            ≡ total overhead s + cell_size overhead x)
          × (same_key lt x old ≡ true)
    total-put-old x [] old e = absurd (ground arith)
    total-put-old x (y ∷ s) old e = elim (Bool-cases (lt x y)) [
      | inl p ↦ absurd (let n = rw p at e in ground arith)
      | inr p ↦ elim (Bool-cases (lt y x)) [
        | inl q ↦
            let n = rw (p, q) at e in
            let ih = total-put-old x s old n in (rw (p, q) (let i = ih.0 in omega arith), ih.1)
        | inr q ↦
            let n = rw (p, q) at e in
            let same : y ≡ old = cc in
            (
              rw (p, q)
                  (let sizes : cell_size overhead y ≡ cell_size overhead old =
                      ap (cell_size overhead) same in
                    omega arith),
              rw (← same, p, q),
            )
      ]
    ]

string_lt_connected : (a b : List ℕ) → string_lt a b ≡ false → string_lt b a ≡ false → a ≡ b
unfolding string_lt
string_lt_connected [] [] h k = refl
string_lt_connected [] (d ∷ t) h k = absurd (ground arith)
string_lt_connected (c ∷ s) [] h k = absurd (ground arith)
string_lt_connected (c ∷ s) (d ∷ t) h k =
    let heads : c ≡ d = ground arith in
    let front : (c == d) ≡ true = ground arith in
    let back : (d == c) ≡ true = ground arith in
    ap₂ ◌∷◌ heads (string_lt_connected s t (ground arith) (ground arith))

-- Cells with the same key differ in size as their values do.
same_key_size :
    (overhead : ℕ) (a b : Cell)
    → same_key cell_lt a b ≡ true
    → cell_size overhead a + value_size b.value ≡ cell_size overhead b + value_size a.value
unfolding cell_lt
same_key_size overhead a b h =
    let rows = ap length (string_lt_connected a.row b.row (ground arith) (ground arith)) in
    let columns = ap length (string_lt_connected a.column b.column (ground arith) (ground arith)) in
    omega arith

-- The cells of the table are in order with one cell for each key, and the memory usage is the sum of
-- the sizes of the cells.
abbrev pub IsValid : ℕ → MemoryTable → Type 0
IsValid overhead t = IsSorted cell_lt t.cells × (t.mem_usage ≡ total overhead t.cells % 2 ^ 64)

-- Inserting a cell into a valid table leaves a valid table, in which the key of the cell has this
-- cell and every other key has what it had; the memory usage counts a replaced cell no more.
pub insert_lem :
    (overhead : ℕ) (x : Cell) (t : MemoryTable)
    → IsValid overhead t
    → IsValid overhead (insert overhead x t)
      × ((k : Cell)
          → find_cell cell_lt k (insert overhead x t).cells
            ≡ (if same_key cell_lt k x then some x else find_cell cell_lt k t.cells))
unfolding insert
insert_lem overhead x t v = (
  (
    put-IsSorted cell_lt cell_lt-IsStrictWeak x t.cells v.0,
    elim (Option-cases (find_cell cell_lt x t.cells)) [
      | inl e ↦
          rw (e, insert)
            (let n = total-put-new cell_lt cell_lt-IsStrictWeak overhead x t.cells e in
              let m = v.1 in omega arith)
      | inr (old, e) ↦
          rw (e, insert)
            (let n = total-put-old cell_lt cell_lt-IsStrictWeak overhead x t.cells old e in
              let sum = n.0 in
              let sizes = same_key_size overhead x old n.1 in let m = v.1 in omega arith)
    ],
  ),
  λ k. find-put cell_lt cell_lt-IsStrictWeak k x t.cells v.0,
)
