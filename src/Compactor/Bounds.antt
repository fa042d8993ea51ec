-- ===== src/Compactor/Bounds.antt =====
-- The mapped ranges of a compaction, and the bound that ends before one of them:
-- src/cc/kdi/tablet/SharedCompactor.cc.

use kdi.Common.{ℕ, ◌≡◌, refl, true, false, some, List, [], ◌∷◌, All, arith}
use kdi.Interval.Point.{
  IntervalPoint, PointType, point, infinite_lower_bound, infinite_upper_bound,
  exclusive_upper_bound, inclusive_upper_bound, exclusive_lower_bound, inclusive_lower_bound,
  is_lower_bound, is_upper_bound, point_lt, get_adjacent_complement,
}
use kdi.Interval.Range.{bound_point}
use kdi.CellFilter.{string_lt}
use kdi.CellFilter.Predicate.{string_lt-IsStrictWeak}
use kdi.SuperTablet.Routing.{at_row}
use kdi.Compactor.{CompactRange}
use kdi.Compactor.Half.{IsRangeMap}

-- The mapped ranges are not empty and stand in order, apart from each other.
abbrev pub AreMapped : List CompactRange → Type 0
AreMapped [] = Unit
AreMapped (r ∷ ranges) =
    ((is_lower_bound r.range.lower_bound.type ≡ true)
      × (is_upper_bound r.range.upper_bound.type ≡ true)
      × (point_lt string_lt r.range.upper_bound r.range.lower_bound ≡ false))
    × All (λ q. point_lt string_lt r.range.upper_bound q.range.lower_bound ≡ true) ranges
    × AreMapped ranges

pub AreMapped-IsRangeMap : (ranges : List CompactRange) → AreMapped ranges → IsRangeMap ranges
AreMapped-IsRangeMap [] h = tt
AreMapped-IsRangeMap (r ∷ ranges) h = (h.0.1, AreMapped-IsRangeMap ranges h.2)

nothing_below :
    (v w : List ℕ) (t : PointType)
    → is_upper_bound t ≡ true
    → point_lt string_lt (bound_point v t) (bound_point w infinite_lower_bound) ≡ false
unfolding point_lt is_upper_bound
nothing_below v w infinite_upper_bound h = refl
nothing_below v w exclusive_upper_bound h = refl
nothing_below v w inclusive_upper_bound h = refl
nothing_below v w infinite_lower_bound h = absurd (ground arith)
nothing_below v w point h = absurd (ground arith)
nothing_below v w exclusive_lower_bound h = absurd (ground arith)
nothing_below v w inclusive_lower_bound h = absurd (ground arith)

-- The bound that ends below a lower bound with something before it.
abbrev pub EndsBelow : IntervalPoint (List ℕ) → IntervalPoint (List ℕ) → Type 0
EndsBelow l u =
    (is_upper_bound u.type ≡ true)
    × (point_lt string_lt u l ≡ true)
    × ((y : List ℕ)
        → point_lt string_lt (at_row y) l ≡ true
        → point_lt string_lt (at_row y) u ≡ true)

before_inclusive :
    (v y : List ℕ)
    → point_lt string_lt (at_row y) (bound_point v inclusive_lower_bound) ≡ true
    → point_lt string_lt (at_row y) (bound_point v exclusive_upper_bound) ≡ true
unfolding point_lt
before_inclusive v y h = ground (arith, string_lt-IsStrictWeak.asym v y)

before_exclusive :
    (v y : List ℕ)
    → point_lt string_lt (at_row y) (bound_point v exclusive_lower_bound) ≡ true
    → point_lt string_lt (at_row y) (bound_point v inclusive_upper_bound) ≡ true
unfolding point_lt
before_exclusive v y h = ground (arith, string_lt-IsStrictWeak.asym v y)

pub ends_below :
    (p : IntervalPoint (List ℕ)) (v : List ℕ) (t : PointType)
    → is_upper_bound p.type ≡ true
    → is_lower_bound t ≡ true
    → point_lt string_lt p (bound_point v t) ≡ true
    → (u : IntervalPoint (List ℕ)) × (get_adjacent_complement (bound_point v t) ≡ some u)
      × EndsBelow (bound_point v t) u
unfolding get_adjacent_complement is_upper_bound is_lower_bound point_lt
ends_below p v infinite_lower_bound a b h =
    let none_there = nothing_below p.value v p.type a in absurd (ground arith)
ends_below p v inclusive_lower_bound a b h = (
  bound_point v exclusive_upper_bound,
  refl,
  (refl, ground (arith, string_lt-IsStrictWeak.asym v v), λ y. before_inclusive v y),
)
ends_below p v exclusive_lower_bound a b h = (
  bound_point v inclusive_upper_bound,
  refl,
  (refl, ground (arith, string_lt-IsStrictWeak.asym v v), λ y. before_exclusive v y),
)
ends_below p v infinite_upper_bound a b h = absurd (ground arith)
ends_below p v exclusive_upper_bound a b h = absurd (ground arith)
ends_below p v inclusive_upper_bound a b h = absurd (ground arith)
ends_below p v point a b h = absurd (ground arith)
