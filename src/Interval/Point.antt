-- ===== src/Interval/Point.antt =====
-- Interval endpoints and their order: `PointType`, `IntervalPoint` and `IntervalPointOrder` of
-- src/cc/warp/interval.h. The value type and its less-than functor are parameters.
use kdi.Common.{ℕ, Bool, true, false, not, ◌||◌, Option, none, some, if◌then◌else◌, ltb}

pub data PointType : Type 0 where
  infinite_lower_bound : PointType
  exclusive_upper_bound : PointType
  inclusive_lower_bound : PointType
  point : PointType
  inclusive_upper_bound : PointType
  exclusive_lower_bound : PointType
  infinite_upper_bound : PointType

pub data BoundType : Type 0 where
  infinite inclusive exclusive : BoundType

-- The enumeration's values, by which `aType < bType` compares.
unfoldable pub rank : PointType → ℕ
rank infinite_lower_bound = 0
rank exclusive_upper_bound = 1
rank inclusive_lower_bound = 2
rank point = 3
rank inclusive_upper_bound = 4
rank exclusive_lower_bound = 5
rank infinite_upper_bound = 6

unfoldable pub is_infinite : PointType → Bool
is_infinite infinite_lower_bound = true
is_infinite infinite_upper_bound = true
is_infinite _ = false

unfoldable pub is_finite : PointType → Bool
unfolding is_infinite
is_finite t = not (is_infinite t)

-- As in the source, `PT_EXCLUSIVE_LOWER_BOUND` is a lower bound.
unfoldable pub is_lower_bound : PointType → Bool
is_lower_bound infinite_lower_bound = true
is_lower_bound exclusive_lower_bound = true
is_lower_bound inclusive_lower_bound = true
is_lower_bound _ = false

unfoldable pub is_upper_bound : PointType → Bool
is_upper_bound infinite_upper_bound = true
is_upper_bound exclusive_upper_bound = true
is_upper_bound inclusive_upper_bound = true
is_upper_bound _ = false

unfoldable pub is_inclusive : PointType → Bool
is_inclusive inclusive_lower_bound = true
is_inclusive inclusive_upper_bound = true
is_inclusive _ = false

unfoldable pub is_exclusive : PointType → Bool
is_exclusive exclusive_lower_bound = true
is_exclusive exclusive_upper_bound = true
is_exclusive _ = false

pub record IntervalPoint {ℓ} (T : Type ℓ) : Type ℓ where
  pub value : T
  pub type : PointType

turn {ℓ} : {T : Type ℓ} → T → PointType → Option (IntervalPoint T)
turn v exclusive_upper_bound = some (record { value = v; type = inclusive_lower_bound })
turn v exclusive_lower_bound = some (record { value = v; type = inclusive_upper_bound })
turn v inclusive_upper_bound = some (record { value = v; type = exclusive_lower_bound })
turn v inclusive_lower_bound = some (record { value = v; type = exclusive_upper_bound })
turn v _ = none

-- `none` is the raised `ValueError`.
unfoldable pub get_adjacent_complement {ℓ} :
    {T : Type ℓ} → IntervalPoint T → Option (IntervalPoint T)
unfolding turn
get_adjacent_complement p = turn p.value p.type

module _ {ℓ} {T : Type ℓ} (lt : T → T → Bool) where
  unfoldable pub is_less : T → PointType → T → PointType → Bool
  unfolding rank is_infinite is_finite is_lower_bound is_upper_bound
  is_less a_value a_type b_value b_type =
      if is_infinite a_type
      then (if is_lower_bound a_type then is_finite b_type || is_upper_bound b_type else false)
      else if is_infinite b_type
      then is_upper_bound b_type
      else if lt a_value b_value
      then true
      else if lt b_value a_value
      then false
      else ltb (rank a_type) (rank b_type)

  -- `IntervalPointOrder::operator()` on two points, on a value and a point, on a point and a value.
  unfoldable pub point_lt : IntervalPoint T → IntervalPoint T → Bool
  unfolding is_less
  point_lt a b = is_less a.value a.type b.value b.type

  unfoldable pub value_lt_point : T → IntervalPoint T → Bool
  unfolding is_less
  value_lt_point a b = is_less a point b.value b.type

  unfoldable pub point_lt_value : IntervalPoint T → T → Bool
  unfolding is_less
  point_lt_value a b = is_less a.value a.type b point
