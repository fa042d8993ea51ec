-- ===== src/CellFilter.antt =====
-- The stream filters of src/cc/kdi/cell_filter.cc. A stream is the list of the cells that its `get`
-- has still to return. A string is a list of bytes.
pub mod History
pub mod Predicate
mod Examples
use kdi.Common.{
  ℕ, zero, suc, ◌+◌, ◌-◌, ◌^◌, ◌%◌, Bool, true, false, not, ◌&&◌, ◌||◌, Option, none, some, List,
  [], ◌∷◌, ltb, leb, ◌==◌, if◌then◌else◌, length,
}
use kdi.Interval.Point.{IntervalPoint}
use kdi.Interval.Set.{contains}

-- Integers over the native numbers; `negsuc n` is `-(n + 1)`.
pub data ℤ : Type 0 where
  pos : ℕ → ℤ
  negsuc : ℕ → ℤ

unfoldable pub int_lt : ℤ → ℤ → Bool
int_lt (pos a) (pos b) = ltb a b
int_lt (pos a) (negsuc b) = false
int_lt (negsuc a) (pos b) = true
int_lt (negsuc a) (negsuc b) = ltb b a

unfoldable pub string_eq : List ℕ → List ℕ → Bool
string_eq [] [] = true
string_eq [] (d ∷ t) = false
string_eq (c ∷ s) [] = false
string_eq (c ∷ s) (d ∷ t) = (c == d) && string_eq s t

unfoldable pub string_lt : List ℕ → List ℕ → Bool
string_lt s [] = false
string_lt [] (d ∷ t) = true
string_lt (c ∷ s) (d ∷ t) = ltb c d || ((c == d) && string_lt s t)

-- An erasure has no value.
pub record Cell : Type 0 where
  pub row : List ℕ
  pub column : List ℕ
  pub timestamp : ℤ
  pub value : Option (List ℕ)

pub record HistoryFilter : Type 0 where
  pub last : Option Cell
  pub current_history_length : ℕ
  pub initial_history_length : ℕ
  pub max_history_length : ℕ

-- The `size_t` of an `int`, less one.
before_wrap : ℤ → ℕ
before_wrap (pos n) = (n + (2 ^ 64 - 1)) % 2 ^ 64
before_wrap (negsuc n) = (2 ^ 64 - (n + 1) + (2 ^ 64 - 1)) % 2 ^ 64

unfoldable pub history_filter : ℤ → HistoryFilter
unfolding before_wrap
history_filter (pos (suc k)) = record {
  last = none;
  current_history_length = 0;
  initial_history_length = 0;
  max_history_length = suc k;
}
history_filter k = record {
  last = none;
  current_history_length = 0;
  initial_history_length = before_wrap k;
  max_history_length = before_wrap k;
}

-- Whether the cell starts a new history.
unfoldable pub starts_history : Option Cell → Cell → Bool
starts_history none x = true
starts_history (some l) x = not (string_eq l.row x.row) || not (string_eq l.column x.column)

-- What one round of the loop of `HistoryFilter::get` does to the filter.
unfoldable pub count_cell : HistoryFilter → Cell → HistoryFilter
unfolding starts_history
count_cell f x = record {
  last = some x;
  current_history_length =
      ((if starts_history f.last x then f.initial_history_length else f.current_history_length) + 1)
      % 2 ^ 64;
  initial_history_length = f.initial_history_length;
  max_history_length = f.max_history_length;
}

unfoldable pub is_in_window : HistoryFilter → Bool
is_in_window f = leb f.current_history_length f.max_history_length

-- `HistoryFilter::get`: the cell returned, the filter after it, and what is left of the input.
unfoldable pub history_get : HistoryFilter → List Cell → Option (Cell × HistoryFilter × List Cell)
history_get f [] = none
history_get f (x ∷ input) = elim (is_in_window (count_cell f x)) [
  | true ↦ some (x, count_cell f x, input)
  | false ↦ history_get (count_cell f x) input
]

-- The cells that a reader gets until the stream ends. Each call takes a cell off the input.
unfoldable pub drain : ℕ → HistoryFilter → List Cell → List Cell
drain zero f input = []
drain (suc fuel) f input = elim (history_get f input) [
  | none ↦ []
  | some (x, g, rest) ↦ x ∷ drain fuel g rest
]

unfoldable pub filter_history : ℤ → List Cell → List Cell
unfolding drain
filter_history k input = drain (suc (length input)) (history_filter k) input

-- `ErasureFilter`, and the filters of a containment test.
unfoldable pub erasure_filter : List Cell → List Cell
erasure_filter [] = []
erasure_filter (x ∷ input) = elim x.value [
  | none ↦ erasure_filter input
  | some v ↦ x ∷ erasure_filter input
]

unfoldable pub keep : (Cell → Bool) → List Cell → List Cell
keep test [] = []
keep test (x ∷ input) = let rest = keep test input in if test x then x ∷ rest else rest

pub record ScanPredicate : Type 0 where
  pub row_predicate : Option (List (IntervalPoint (List ℕ)))
  pub column_predicate : Option (List (IntervalPoint (List ℕ)))
  pub time_predicate : Option (List (IntervalPoint ℤ))
  pub max_history : ℤ

unfoldable pub make_row_filter : Option (List (IntervalPoint (List ℕ))) → List Cell → List Cell
make_row_filter none input = input
make_row_filter (some set) input = keep (λ x. contains string_lt set x.row) input

unfoldable pub make_column_filter : Option (List (IntervalPoint (List ℕ))) → List Cell → List Cell
make_column_filter none input = input
make_column_filter (some set) input = keep (λ x. contains string_lt set x.column) input

unfoldable pub make_timestamp_filter : Option (List (IntervalPoint ℤ)) → List Cell → List Cell
make_timestamp_filter none input = input
make_timestamp_filter (some set) input = keep (λ x. contains int_lt set x.timestamp) input

unfoldable pub make_history_filter : ℤ → List Cell → List Cell
make_history_filter (pos zero) input = input
make_history_filter k input = filter_history k input

unfoldable pub apply_predicate_filter : ScanPredicate → List Cell → List Cell
unfolding make_row_filter make_column_filter make_timestamp_filter make_history_filter
apply_predicate_filter pred input = make_history_filter pred.max_history (
    make_timestamp_filter pred.time_predicate
      (make_column_filter pred.column_predicate (make_row_filter pred.row_predicate input)))
