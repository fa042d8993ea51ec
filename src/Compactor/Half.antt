-- ===== src/Compactor/Half.antt =====
-- The range of the next file, and the bound that a file is split at:
-- src/cc/kdi/tablet/SharedCompactor.cc.

use kdi.Common.{ℕ, ◌≡◌, refl, true, some, List, [], ◌∷◌, All, Bool-cases, inl, inr, arith}
use kdi.Interval.Point.{
  IntervalPoint, PointType, point, infinite_lower_bound, infinite_upper_bound,
  exclusive_upper_bound, inclusive_upper_bound, exclusive_lower_bound, inclusive_lower_bound,
  is_finite, is_lower_bound, is_upper_bound, point_lt, get_adjacent_complement,
}
use kdi.Interval.Range.{Interval, bound_point, set_lower_point, set_upper_point}
use kdi.Interval.Set.Inv.{value_splits}
use kdi.CellFilter.{string_lt}
use kdi.CellFilter.Predicate.{string_lt-IsStrictWeak}
use kdi.SuperTablet.Routing.{at_row}
use kdi.Compactor.{CompactRange, endless, find_upper, above}

abbrev pub IsUpper : IntervalPoint (List ℕ) → Type 0
IsUpper p = is_upper_bound p.type ≡ true

-- Every mapped range ends with an upper bound.
abbrev pub IsRangeMap : List CompactRange → Type 0
IsRangeMap range_map = All (λ r. is_upper_bound r.range.upper_bound.type ≡ true) range_map

-- What the half interval above a range that ends before a row begins with.
abbrev pub Half : Interval (List ℕ) → Interval (List ℕ) → Type 0
Half range rest =
    (rest.upper_bound ≡ endless)
    × (point_lt string_lt range.upper_bound rest.lower_bound ≡ true)
    × (point_lt string_lt rest.lower_bound endless ≡ true)
    × ((y : List ℕ)
        → point_lt string_lt range.upper_bound (at_row y) ≡ true
        → point_lt string_lt rest.lower_bound (at_row y) ≡ true)

after_upper :
    (v y : List ℕ)
    → point_lt string_lt (bound_point v inclusive_upper_bound) (at_row y) ≡ true
    → point_lt string_lt (bound_point v exclusive_lower_bound) (at_row y) ≡ true
unfolding point_lt
after_upper v y h = ground (arith, string_lt-IsStrictWeak.asym v y)

from_upper :
    (v y : List ℕ)
    → point_lt string_lt (bound_point v exclusive_upper_bound) (at_row y) ≡ true
    → point_lt string_lt (bound_point v inclusive_lower_bound) (at_row y) ≡ true
unfolding point_lt
from_upper v y h = ground (arith, string_lt-IsStrictWeak.asym v y)

pub above_type :
    (l : IntervalPoint (List ℕ)) (v : List ℕ) (t : PointType) (x : List ℕ)
    → is_upper_bound t ≡ true
    → point_lt string_lt (bound_point v t) (at_row x) ≡ true
    → (rest : Interval (List ℕ)) × (above
          (record { lower_bound = l; upper_bound = bound_point v t })
        ≡ some rest)
      × Half (record { lower_bound = l; upper_bound = bound_point v t }) rest
unfolding above get_adjacent_complement set_lower_point set_upper_point is_finite is_lower_bound
    is_upper_bound point_lt
above_type l v infinite_upper_bound x u h = absurd (ground arith)
above_type l v exclusive_upper_bound x u h = (
  record { lower_bound = bound_point v inclusive_lower_bound; upper_bound = endless },
  refl,
  (refl, ground (arith, string_lt-IsStrictWeak.asym v v), refl, λ y. from_upper v y),
)
above_type l v inclusive_upper_bound x u h = (
  record { lower_bound = bound_point v exclusive_lower_bound; upper_bound = endless },
  refl,
  (refl, ground (arith, string_lt-IsStrictWeak.asym v v), refl, λ y. after_upper v y),
)
above_type l v infinite_lower_bound x u h = absurd (ground arith)
above_type l v point x u h = absurd (ground arith)
above_type l v exclusive_lower_bound x u h = absurd (ground arith)
above_type l v inclusive_lower_bound x u h = absurd (ground arith)

pub above_some :
    (l : IntervalPoint (List ℕ)) (v : List ℕ) (t : PointType)
    → is_upper_bound t ≡ true
    → (rest : Interval (List ℕ)) × (above
          (record { lower_bound = l; upper_bound = bound_point v t })
        ≡ some rest)
unfolding above get_adjacent_complement set_lower_point set_upper_point is_finite is_lower_bound
    is_upper_bound
above_some l v infinite_upper_bound u =
    (record { lower_bound = l; upper_bound = bound_point v infinite_upper_bound }, refl)
above_some l v exclusive_upper_bound u =
    (record { lower_bound = bound_point v inclusive_lower_bound; upper_bound = endless }, refl)
above_some l v inclusive_upper_bound u =
    (record { lower_bound = bound_point v exclusive_lower_bound; upper_bound = endless }, refl)
above_some l v infinite_lower_bound u = absurd (ground arith)
above_some l v point u = absurd (ground arith)
above_some l v exclusive_lower_bound u = absurd (ground arith)
above_some l v inclusive_lower_bound u = absurd (ground arith)

pub row_endless : (x : List ℕ) → point_lt string_lt (at_row x) endless ≡ true
unfolding point_lt
row_endless x = refl

pub find_upper-IsUpper :
    (row : List ℕ) (range_map : List CompactRange)
    → IsRangeMap range_map
    → (is_upper_bound (find_upper (at_row row) range_map).type ≡ true)
      × (point_lt string_lt (at_row row) (find_upper (at_row row) range_map) ≡ true)
unfolding find_upper is_upper_bound
find_upper-IsUpper row [] h = (refl, row_endless row)
find_upper-IsUpper row (r ∷ range_map) h =
    elim (Bool-cases (point_lt string_lt r.range.upper_bound (at_row row))) [
      | inl e ↦ rw (e, find_upper) (find_upper-IsUpper row range_map h.1)
      | inr e ↦
          let splits = value_splits string_lt-IsStrictWeak true r.range.upper_bound row h.0 in
          rw (e, find_upper) (h.0, ground arith)
    ]
