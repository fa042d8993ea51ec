-- ===== src/Interval/Examples.antt =====
-- Sets and intervals of numbers: tests, and the theorems at concrete inputs.
use kdi.Common.{ℕ, ◌≡◌, ◌↔◌, refl, true, false, ◌&&◌, ◌||◌, some, List, [], ◌∷◌, ltb, arith}
use kdi.Interval.Point.{
  exclusive_upper_bound, inclusive_lower_bound, IntervalPoint, point_lt, is_exclusive,
}
use kdi.Interval.Order.{IsStrictWeak, point_lt-IsStrictWeak}
use kdi.Interval.Range.{Interval, bound_point, contains_value, contains_interval, is_empty}
use kdi.Interval.Range.Laws.{Within, contains_interval_iff}
use kdi.Interval.Set
use kdi.Interval.Set.{contains, contains_range, overlaps_range, intersect, get_hull}
use kdi.Interval.Set.Inv.{IsValid, covers}
use kdi.Interval.Set.Query.{contains-covers}
use kdi.Interval.Set.Clip.Laws.{covers-clip}
use kdi.Interval.Set.Intersect.{covers-intersect}
use kdi.Interval.Set.Hull.{get_hull-holds}
use kdi.Interval.Set.Add.{add}
use kdi.Interval.Set.Add.Laws.{add_union}

numbers : IsStrictWeak ltb
numbers = record { asym = λ a b h. ground arith; cotrans = λ a b c h. ground arith }

abbrev from : ℕ → IntervalPoint ℕ
from n = bound_point n inclusive_lower_bound

abbrev to : ℕ → IntervalPoint ℕ
to n = bound_point n exclusive_upper_bound

abbrev span : ℕ → ℕ → Interval ℕ
span a b = record { lower_bound = from a; upper_bound = to b }

-- [1 5) [7 9)
abbrev two_spans : List (IntervalPoint ℕ)
two_spans = from 1 ∷ to 5 ∷ from 7 ∷ to 9 ∷ []

abbrev long_span : List (IntervalPoint ℕ)
long_span = from 3 ∷ to 8 ∷ []

abbrev run : Unit {0}
unfolding add intersect Set.insert Set.erase point_lt is_exclusive
run = tt

two_spans-IsValid : IsValid ltb two_spans
unfolding run
two_spans-IsValid = (refl, refl, (refl, refl, (refl, refl, (refl, tt, refl))))

long_span-IsValid : IsValid ltb long_span
unfolding run
long_span-IsValid = (refl, refl, (refl, tt, refl))

-- [5 7) closes the gap, [6 8) grows the second range.
add_joins : add ltb two_spans (span 5 7) ≡ some (from 1 ∷ to 9 ∷ [])
unfolding run
add_joins = refl

add_grows : add ltb two_spans (span 6 8) ≡ some (from 1 ∷ to 5 ∷ from 6 ∷ to 9 ∷ [])
unfolding run
add_grows = refl

-- The upper bound of [2 5) is that of the first of two ranges: the range's own bound is erased, and
-- two lower bounds are left in a row.
add_erases_the_shared_bound : add ltb two_spans (span 2 5) ≡ some (from 1 ∷ from 7 ∷ to 9 ∷ [])
unfolding run
add_erases_the_shared_bound = refl

intersect_spans : intersect ltb two_spans long_span ≡ from 3 ∷ to 5 ∷ from 7 ∷ to 8 ∷ []
unfolding run
intersect_spans = refl

point_lt-IsStrictWeak_example : IsStrictWeak (point_lt ltb)
point_lt-IsStrictWeak_example = point_lt-IsStrictWeak ltb numbers

contains_interval_iff_example : (contains_interval ltb (span 1 9) (span 3 5) ≡ true) ↔ (
    (is_empty ltb (span 1 9) ≡ false)
    × ((p : IntervalPoint ℕ) → Within ltb (span 3 5) p → Within ltb (span 1 9) p))
contains_interval_iff_example = contains_interval_iff numbers (span 1 9) (span 3 5)

contains-covers_example : contains ltb two_spans 6 ≡ covers ltb two_spans 6
contains-covers_example = contains-covers numbers two_spans 6 two_spans-IsValid

covers-clip_example :
    covers ltb (Set.clip ltb two_spans (span 3 8)) 4
    ≡ (covers ltb two_spans 4 && contains_value ltb (span 3 8) 4)
covers-clip_example =
    covers-clip numbers two_spans (span 3 8) two_spans-IsValid (unfold point_lt in refl)
      (unfold point_lt in refl) 4

covers-intersect_example :
    covers ltb (intersect ltb two_spans long_span) 4
    ≡ (covers ltb two_spans 4 && covers ltb long_span 4)
covers-intersect_example =
    covers-intersect numbers two_spans long_span 4 two_spans-IsValid long_span-IsValid

get_hull-holds_example :
    (i : Interval ℕ) × (get_hull 0 two_spans ≡ some i)
    × ((x : ℕ) → covers ltb two_spans x ≡ true → contains_value ltb i x ≡ true)
get_hull-holds_example = get_hull-holds numbers two_spans 0 two_spans-IsValid

add_union_example :
    (qs : List (IntervalPoint ℕ)) × (add ltb two_spans (span 5 7) ≡ some qs)
    × IsValid ltb qs
    × ((v : ℕ) → covers ltb qs v ≡ (covers ltb two_spans v || contains_value ltb (span 5 7) v))
add_union_example =
    add_union numbers two_spans (span 5 7) two_spans-IsValid (unfold point_lt in refl)
      (unfold point_lt in refl) (unfold point_lt in refl)
