-- ===== src/CellFilter/History.antt =====
-- What `HistoryFilter` of src/cc/kdi/cell_filter.cc lets through, by the position of a cell in its
-- history.
use kdi.Common.{
  ℕ, zero, suc, ◌+◌, ◌-◌, ◌^◌, ◌%◌, ◌<◌, ◌≤◌, ◌≡◌, refl, sym, ap, ◌∙◌, Bool, true, false, Option,
  none, some, List, [], ◌∷◌, arith, Bool-cases, inl, inr, ltb, if◌then◌else◌, length,
}
use kdi.CellFilter.{
  ℤ, pos, negsuc, Cell, HistoryFilter, before_wrap, history_filter, starts_history, count_cell,
  is_in_window, history_get, drain, filter_history,
}

-- The reference: a history is a row of cells with one row and column name. A positive limit keeps
-- the first cells of each history, zero keeps all, and a negative one skips the first cells.
abbrev pub keeps : ℤ → ℕ → Bool
keeps (pos zero) p = true
keeps (pos (suc k)) p = ltb p (suc k)
keeps (negsuc n) p = ltb n p

abbrev pub position : Option Cell → ℕ → Cell → ℕ
position last p x = if starts_history last x then 0 else suc p

abbrev pub kept_from : ℤ → Option Cell → ℕ → List Cell → List Cell
kept_from k last p [] = []
kept_from k last p (x ∷ input) =
    let rest = kept_from k (some x) (position last p x) input in
    if keeps k (position last p x) then x ∷ rest else rest

-- An `int` of 32 bits.
abbrev pub IsInt : ℤ → Type 0
IsInt (pos n) = n < 2 ^ 31
IsInt (negsuc n) = n < 2 ^ 31

first_length : ℤ → ℕ
first_length (pos (suc k)) = 0
first_length k = before_wrap k

longest : ℤ → ℕ
longest (pos (suc k)) = suc k
longest k = before_wrap k

-- The filter after a cell at a position of its history.
filter_at : ℤ → Option Cell → ℕ → HistoryFilter
filter_at k last p = record {
  last = last;
  current_history_length = (first_length k + (p + 1)) % 2 ^ 64;
  initial_history_length = first_length k;
  max_history_length = longest k;
}

is_in_window-filter_at :
    (k : ℤ) (last : Option Cell) (p : ℕ)
    → IsInt k
    → p < 2 ^ 64 - 1
    → is_in_window (filter_at k last p) ≡ keeps k p
unfolding is_in_window filter_at first_length longest before_wrap
is_in_window-filter_at (pos zero) last p i b = ground arith
is_in_window-filter_at (pos (suc k)) last p i b = ground arith
is_in_window-filter_at (negsuc n) last p i b = ground arith

count_cell-filter_at :
    (k : ℤ) (last : Option Cell) (p : ℕ) (x : Cell)
    → count_cell (filter_at k last p) x ≡ filter_at k (some x) (position last p x)
unfolding count_cell filter_at
count_cell-filter_at k last p x = elim (Bool-cases (starts_history last x)) [
  | inl s ↦ rw (s, count_cell, filter_at)
  | inr s ↦
      rw (s, count_cell, filter_at)
        (ap
          (λ n. record {
            last = some x;
            current_history_length = n;
            initial_history_length = first_length k;
            max_history_length = longest k;
          })
          (let e : ((first_length k + (p + 1)) % 2 ^ 64 + 1) % 2 ^ 64
                ≡ (first_length k + (suc p + 1)) % 2 ^ 64 =
              omega arith in
            e))
]

drain_same :
    (fuel : ℕ) (f g : HistoryFilter) (s t : List Cell)
    → history_get f s ≡ history_get g t
    → drain fuel f s ≡ drain fuel g t
unfolding drain
drain_same zero f g s t e = refl
drain_same (suc fuel) f g s t e = rw (e, drain)

position_le : (last : Option Cell) (p : ℕ) (x : Cell) → position last p x ≤ suc p
position_le last p x = elim (Bool-cases (starts_history last x)) [
  | inl s ↦ rw s (omega arith)
  | inr s ↦ rw s (omega arith)
]

history_get_kept :
    (f : HistoryFilter) (x : Cell) (s : List Cell)
    → is_in_window (count_cell f x) ≡ true
    → history_get f (x ∷ s) ≡ some (x, count_cell f x, s)
unfolding history_get
history_get_kept f x s w = rw (w, history_get)

history_get_dropped :
    (f : HistoryFilter) (x : Cell) (s : List Cell)
    → is_in_window (count_cell f x) ≡ false
    → history_get f (x ∷ s) ≡ history_get (count_cell f x) s
unfolding history_get
history_get_dropped f x s w = rw (w, history_get)

drain_kept :
    (fuel : ℕ) (f g : HistoryFilter) (x : Cell) (s t : List Cell)
    → history_get f s ≡ some (x, g, t)
    → drain (suc fuel) f s ≡ x ∷ drain fuel g t
unfolding drain
drain_kept fuel f g x s t e = rw (e, drain)

drain_end : (fuel : ℕ) (f : HistoryFilter) → drain fuel f [] ≡ []
unfolding drain history_get
drain_end zero f = refl
drain_end (suc fuel) f = refl

drain-filter_at :
    (k : ℤ) (fuel : ℕ) (last : Option Cell) (p : ℕ) (input : List Cell)
    → IsInt k
    → p + length input < 2 ^ 64 - 1
    → length input < fuel
    → drain fuel (filter_at k last p) input ≡ kept_from k last p input
drain-filter_at k fuel last p [] i b l = drain_end fuel (filter_at k last p)
drain-filter_at k zero last p (x ∷ input) i b l = absurd (omega arith)
drain-filter_at k (suc fuel) last p (x ∷ input) i b l =
    let q = position last p x in
    let small = position_le last p x in
    let counted = count_cell-filter_at k last p x in
    let window : is_in_window (count_cell (filter_at k last p) x) ≡ keeps k q =
      ap is_in_window counted ∙ is_in_window-filter_at k (some x) q i (omega arith) in
    elim (Bool-cases (keeps k q)) [
      | inl e ↦
          drain_kept fuel (filter_at k last p) (count_cell (filter_at k last p) x) x (x ∷ input)
            input (history_get_kept (filter_at k last p) x input (window ∙ e))
          ∙ rw (e, counted)
              (ap (◌∷◌ x) (drain-filter_at k fuel (some x) q input i (omega arith) (omega arith)))
      | inr e ↦
          drain_same (suc fuel) (filter_at k last p) (count_cell (filter_at k last p) x) (x ∷ input)
            input (history_get_dropped (filter_at k last p) x input (window ∙ e))
          ∙ rw (e, counted)
              (drain-filter_at k (suc fuel) (some x) q input i (omega arith) (omega arith))
    ]

history_get-count_cell :
    (f g : HistoryFilter) (s : List Cell)
    → ((x : Cell) → count_cell f x ≡ count_cell g x)
    → history_get f s ≡ history_get g s
history_get-count_cell f g [] e = unfold history_get in refl
history_get-count_cell f g (x ∷ s) e =
    let same = ap is_in_window (e x) in
    elim (Bool-cases (is_in_window (count_cell f x))) [
      | inl w ↦
          history_get_kept f x s w
          ∙ ap (λ h. some (x, h, s)) (e x)
          ∙ sym (history_get_kept g x s (sym same ∙ w))
      | inr w ↦
          history_get_dropped f x s w
          ∙ ap (λ h. history_get h s) (e x)
          ∙ sym (history_get_dropped g x s (sym same ∙ w))
    ]

first_count :
    (k : ℤ) (x : Cell) → count_cell (history_filter k) x ≡ count_cell (filter_at k none 0) x
unfolding count_cell history_filter filter_at first_length longest
first_count (pos zero) x = refl
first_count (pos (suc k)) x = refl
first_count (negsuc n) x = refl

-- With a limit that is an `int` and fewer cells than a `size_t` counts, HistoryFilter lets through
-- the cells by their position in their history: with a positive limit the first so many, with zero
-- all, and with a negative limit all but the first so many.
pub filter_history-kept_from :
    (k : ℤ) (input : List Cell)
    → IsInt k
    → length input < 2 ^ 64 - 1
    → filter_history k input ≡ kept_from k none 0 input
unfolding filter_history
filter_history-kept_from k input i b =
    drain_same (suc (length input)) (history_filter k) (filter_at k none 0) input input
      (history_get-count_cell (history_filter k) (filter_at k none 0) input (first_count k))
    ∙ drain-filter_at k (suc (length input)) none 0 input i (omega arith) (omega arith)
