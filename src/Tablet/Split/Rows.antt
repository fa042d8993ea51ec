-- ===== src/Tablet/Split/Rows.antt =====
-- The rows of a tablet and of its clone after a split: src/cc/kdi/tablet/Tablet.cc.
use kdi.Common.{
  ℕ, ◌≡◌, subst, true, false, not, ◌||◌, ◌&&◌, some, List, Bool-cases, inl, inr, arith,
}
use kdi.Interval.Point.{
  IntervalPoint, point, inclusive, exclusive, inclusive_upper_bound, exclusive_lower_bound,
  point_lt,
}
use kdi.Interval.Order.{IsStrictWeak, point_lt-IsStrictWeak}
use kdi.Interval.Range.{
  Interval, bound_point, set_lower_bound, set_upper_bound, is_empty, contains_value,
}
use kdi.CellFilter.{string_lt}
use kdi.CellFilter.Predicate.{string_lt-IsStrictWeak}
use kdi.Tablet.Split.{split_rows}

o : IsStrictWeak (point_lt string_lt)
o = point_lt-IsStrictWeak string_lt string_lt-IsStrictWeak

abbrev at_row : List ℕ → IntervalPoint (List ℕ)
at_row x = bound_point x point

abbrev pub upto : List ℕ → IntervalPoint (List ℕ)
upto row = bound_point row inclusive_upper_bound

abbrev pub beyond : List ℕ → IntervalPoint (List ℕ)
beyond row = bound_point row exclusive_lower_bound

adjacent :
    (row x : List ℕ)
    → point_lt string_lt (at_row x) (upto row) ≡ not (point_lt string_lt (beyond row) (at_row x))
unfolding point_lt
adjacent row x =
    ground (arith, string_lt-IsStrictWeak.asym row x, string_lt-IsStrictWeak.asym x row)

pub in_order : (row : List ℕ) → point_lt string_lt (upto row) (beyond row) ≡ true
unfolding point_lt
in_order row = ground (arith, string_lt-IsStrictWeak.asym row row)

-- With `l` and `u` the bounds of the rows and `a` a row.
partition :
    (l u a : IntervalPoint (List ℕ)) (row : List ℕ)
    → point_lt string_lt (upto row) l ≡ false
    → point_lt string_lt u (beyond row) ≡ false
    → point_lt string_lt a (upto row) ≡ not (point_lt string_lt (beyond row) a)
    → (point_lt string_lt l a && point_lt string_lt a u) ≡ (
        (point_lt string_lt l a && point_lt string_lt a (upto row))
        || (point_lt string_lt (beyond row) a && point_lt string_lt a u))
partition l u a row low high e =
    let between = in_order row in
    ground (
      arith,
      o.cotrans (beyond row) l a,
      o.cotrans (upto row) l (beyond row),
      o.asym (beyond row) l,
      o.cotrans a u (upto row),
      o.cotrans (upto row) u (beyond row),
      o.asym u (beyond row),
      o.asym u (upto row),
    )

-- What the parts of a tablet's rows are to them.
abbrev pub AreParts : Interval (List ℕ) → Interval (List ℕ) × Interval (List ℕ) → Type 0
AreParts rows parts =
    ((x : List ℕ)
      → contains_value string_lt rows x
        ≡ (contains_value string_lt parts.0 x || contains_value string_lt parts.1 x))
    × ((x : List ℕ)
        → (contains_value string_lt parts.0 x && contains_value string_lt parts.1 x) ≡ false)
    × (is_empty string_lt parts.0 ≡ false)
    × (is_empty string_lt parts.1 ≡ false)

abbrev pub low_part : Interval (List ℕ) → List ℕ → Interval (List ℕ)
low_part rows row = set_upper_bound rows row inclusive

abbrev pub high_part : Interval (List ℕ) → List ℕ → Interval (List ℕ)
high_part rows row = set_lower_bound rows row exclusive

split_AreParts :
    (rows : Interval (List ℕ)) (row : List ℕ)
    → is_empty string_lt (low_part rows row) ≡ false
    → is_empty string_lt (high_part rows row) ≡ false
    → AreParts rows (low_part rows row, high_part rows row)
unfolding is_empty contains_value set_upper_bound set_lower_bound kdi.Interval.Point.point_lt_value
    point_lt kdi.Interval.Point.value_lt_point string_lt
split_AreParts rows row low high = (
  λ x. partition rows.lower_bound rows.upper_bound (at_row x) row low high (adjacent row x),
  λ x. let e = adjacent row x in ground arith,
  low,
  high,
)

-- The parts, where there are some.
pub split_parts :
    (rows : Interval (List ℕ)) (row : List ℕ) (parts : Interval (List ℕ) × Interval (List ℕ))
    → split_rows rows row ≡ some parts
    → (is_empty string_lt (low_part rows row) ≡ false)
      × (is_empty string_lt (high_part rows row) ≡ false)
      × ((low_part rows row, high_part rows row) ≡ parts)
unfolding split_rows
split_parts rows row parts e = elim (Bool-cases (is_empty string_lt (low_part rows row))) [
  | inl low ↦ absurd (let r = rw low at e in ground arith)
  | inr low ↦ elim (Bool-cases (is_empty string_lt (high_part rows row))) [
    | inl high ↦ absurd (let r = rw (low, high) at e in ground arith)
    | inr high ↦
        let q : some (low_part rows row, high_part rows row) ≡ some parts = rw (low, high) at e in
        (low, high, let p : (low_part rows row, high_part rows row) ≡ parts = cc in p)
  ]
]

-- If a tablet is split at a row, then a row is one of the tablet's exactly when it is one of the low
-- part's or one of the high part's, it is never one of both, and neither part is empty.
pub split_rows_lem :
    (rows : Interval (List ℕ)) (row : List ℕ) (parts : Interval (List ℕ) × Interval (List ℕ))
    → split_rows rows row ≡ some parts
    → AreParts rows parts
split_rows_lem rows row parts e =
    let (low, high, same) = split_parts rows row parts e in
    subst (AreParts rows) same (split_AreParts rows row low high)
