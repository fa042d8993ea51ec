-- ===== src/CellFilter/Predicate.antt =====
-- `applyPredicateFilter` of src/cc/kdi/cell_filter.cc is one test on each cell and the history
-- filter after it.
use kdi.Common.{
  ℕ, ◌||◌, ◌≡◌, refl, ap, ◌∙◌, Bool, true, false, ◌&&◌, Option, none, some, List, [], ◌∷◌, arith,
  Bool-cases, inl, inr,
}
use kdi.Interval.Point.{IntervalPoint}
use kdi.Interval.Order.{IsStrictWeak}
use kdi.Interval.Set.Inv.{IsValid, covers}
use kdi.Interval.Set.Query.{contains-covers}
use kdi.CellFilter.{
  ℤ, pos, negsuc, Cell, string_lt, int_lt, keep, ScanPredicate, make_row_filter, make_column_filter,
  make_timestamp_filter, make_history_filter, apply_predicate_filter,
}

-- Whether a value is in a set, or there is no set.
abbrev pub allows : {T : Type 0} → (T → T → Bool) → Option (List (IntervalPoint T)) → T → Bool
allows lt none v = true
allows lt (some set) v = covers lt set v

abbrev pub IsSound : {T : Type 0} → (T → T → Bool) → Option (List (IntervalPoint T)) → Type 0
IsSound lt none = Unit
IsSound lt (some set) = IsValid lt set

abbrev pub admits : ScanPredicate → Cell → Bool
admits pred x =
    allows int_lt pred.time_predicate x.timestamp
    && (allows string_lt pred.column_predicate x.column
        && allows string_lt pred.row_predicate x.row)

int_lt_asym : (a b : ℤ) → int_lt a b ≡ true → int_lt b a ≡ false
unfolding int_lt
int_lt_asym (pos a) (pos b) h = ground arith
int_lt_asym (pos a) (negsuc b) h = absurd (ground arith)
int_lt_asym (negsuc a) (pos b) h = refl
int_lt_asym (negsuc a) (negsuc b) h = ground arith

int_lt_cotrans : (a b c : ℤ) → int_lt a c ≡ true → (int_lt a b || int_lt b c) ≡ true
unfolding int_lt
int_lt_cotrans (pos a) (pos b) (pos c) h = ground arith
int_lt_cotrans (pos a) (negsuc b) (pos c) h = ground arith
int_lt_cotrans (pos a) b (negsuc c) h = absurd (ground arith)
int_lt_cotrans (negsuc a) (pos b) c h = ground arith
int_lt_cotrans (negsuc a) (negsuc b) (pos c) h = ground arith
int_lt_cotrans (negsuc a) (negsuc b) (negsuc c) h = ground arith

string_lt_asym : (a b : List ℕ) → string_lt a b ≡ true → string_lt b a ≡ false
unfolding string_lt
string_lt_asym a [] h = absurd (ground arith)
string_lt_asym [] (d ∷ t) h = refl
string_lt_asym (c ∷ s) (d ∷ t) h = let ih = string_lt_asym s t in ground arith

string_lt_cotrans :
    (a b c : List ℕ) → string_lt a c ≡ true → (string_lt a b || string_lt b c) ≡ true
unfolding string_lt
string_lt_cotrans a b [] h = absurd (ground arith)
string_lt_cotrans [] [] (e ∷ u) h = refl
string_lt_cotrans [] (d ∷ t) (e ∷ u) h = refl
string_lt_cotrans (c ∷ s) [] (e ∷ u) h = refl
string_lt_cotrans (c ∷ s) (d ∷ t) (e ∷ u) h = let ih = string_lt_cotrans s t u in ground arith

keep_all : (input : List Cell) → input ≡ keep (λ x. true) input
unfolding keep
keep_all [] = refl
keep_all (x ∷ input) = ap (◌∷◌ x) (keep_all input)

keep_same :
    (p q : Cell → Bool) (input : List Cell) → ((x : Cell) → p x ≡ q x) → keep p input ≡ keep q input
unfolding keep
keep_same p q [] e = refl
keep_same p q (x ∷ input) e = rw (e x, keep_same p q input e)

keep-keep :
    (p q : Cell → Bool) (input : List Cell) → keep p (keep q input) ≡ keep (λ x. p x && q x) input
unfolding keep
keep-keep p q [] = refl
keep-keep p q (x ∷ input) =
    let ih = keep-keep p q input in
    elim (Bool-cases (q x)) [
      | inl e ↦ rw e (elim (Bool-cases (p x)) [ inl d ↦ rw d (ap (◌∷◌ x) ih) | inr d ↦ rw d ih ])
      | inr e ↦ rw e (elim (Bool-cases (p x)) [ inl d ↦ rw d ih | inr d ↦ rw d ih ])
    ]

pub int_lt-IsStrictWeak : IsStrictWeak int_lt
int_lt-IsStrictWeak = record { asym = int_lt_asym; cotrans = int_lt_cotrans }

pub string_lt-IsStrictWeak : IsStrictWeak string_lt
string_lt-IsStrictWeak = record { asym = string_lt_asym; cotrans = string_lt_cotrans }

row_keeps :
    (set : Option (List (IntervalPoint (List ℕ)))) (input : List Cell)
    → IsSound string_lt set
    → make_row_filter set input ≡ keep (λ x. allows string_lt set x.row) input
unfolding make_row_filter
row_keeps none input h = keep_all input
row_keeps (some set) input h =
    keep_same _ _ input (λ x. contains-covers string_lt-IsStrictWeak set x.row h)

column_keeps :
    (set : Option (List (IntervalPoint (List ℕ)))) (input : List Cell)
    → IsSound string_lt set
    → make_column_filter set input ≡ keep (λ x. allows string_lt set x.column) input
unfolding make_column_filter
column_keeps none input h = keep_all input
column_keeps (some set) input h =
    keep_same _ _ input (λ x. contains-covers string_lt-IsStrictWeak set x.column h)

timestamp_keeps :
    (set : Option (List (IntervalPoint ℤ))) (input : List Cell)
    → IsSound int_lt set
    → make_timestamp_filter set input ≡ keep (λ x. allows int_lt set x.timestamp) input
unfolding make_timestamp_filter
timestamp_keeps none input h = keep_all input
timestamp_keeps (some set) input h =
    keep_same _ _ input (λ x. contains-covers int_lt-IsStrictWeak set x.timestamp h)

-- Applying a predicate whose sets of rows, columns and times are valid keeps the cells whose row,
-- column and timestamp are each in the predicate's set, or are not restricted, in their order; the
-- history limit, if there is one, is applied to these cells.
pub apply_predicate_filter-keep :
    (pred : ScanPredicate) (input : List Cell)
    → IsSound string_lt pred.row_predicate
    → IsSound string_lt pred.column_predicate
    → IsSound int_lt pred.time_predicate
    → apply_predicate_filter pred input
      ≡ make_history_filter pred.max_history (keep (admits pred) input)
unfolding apply_predicate_filter
apply_predicate_filter-keep pred input rows columns times =
    ap (make_history_filter pred.max_history) (
      ap
        (λ s.
          make_timestamp_filter pred.time_predicate (make_column_filter pred.column_predicate s))
        (row_keeps pred.row_predicate input rows)
      ∙ ap (make_timestamp_filter pred.time_predicate) (
          column_keeps pred.column_predicate
            (keep (λ x. allows string_lt pred.row_predicate x.row) input) columns
          ∙ keep-keep (λ x. allows string_lt pred.column_predicate x.column)
              (λ x. allows string_lt pred.row_predicate x.row) input)
      ∙ timestamp_keeps pred.time_predicate _ times
      ∙ keep-keep (λ x. allows int_lt pred.time_predicate x.timestamp) _ input)
