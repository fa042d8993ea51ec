-- ===== src/Interval/Range.antt =====
-- `Interval` of src/cc/warp/interval.h: construction, the bound setters, the tests and `clip`.
pub mod Laws
use kdi.Common.{◌≡◌, Bool, true, false, not, ◌&&◌, ◌||◌, Option, none, some, if◌then◌else◌}
use kdi.Interval.Point.{
  PointType, infinite_lower_bound, exclusive_upper_bound, inclusive_lower_bound, point,
  inclusive_upper_bound, exclusive_lower_bound, infinite_upper_bound, BoundType, infinite,
  inclusive, exclusive, IntervalPoint, is_lower_bound, is_upper_bound, is_infinite, point_lt,
  value_lt_point, point_lt_value,
}

pub record Interval {ℓ} (T : Type ℓ) : Type ℓ where
  pub lower_bound : IntervalPoint T
  pub upper_bound : IntervalPoint T

abbrev pub bound_point {ℓ} : {T : Type ℓ} → T → PointType → IntervalPoint T
bound_point v t = record { value = v; type = t }

abbrev lower_type : BoundType → PointType
lower_type inclusive = inclusive_lower_bound
lower_type exclusive = exclusive_lower_bound
lower_type infinite = infinite_lower_bound

abbrev upper_type : BoundType → PointType
upper_type inclusive = inclusive_upper_bound
upper_type exclusive = exclusive_upper_bound
upper_type infinite = infinite_upper_bound

module _ {ℓ} {T : Type ℓ} where
  -- The constructor from two points; `none` is the raised `ValueError`.
  unfoldable pub make : IntervalPoint T → IntervalPoint T → Option (Interval T)
  unfolding is_lower_bound is_upper_bound
  make l u =
      if not (is_lower_bound l.type)
      then none
      else if not (is_upper_bound u.type)
      then none
      else some (record { lower_bound = l; upper_bound = u })

  unfoldable pub set_lower_bound : Interval T → T → BoundType → Interval T
  set_lower_bound i b t = record i { lower_bound = bound_point b (lower_type t) }

  unfoldable pub set_lower_point : Interval T → IntervalPoint T → Option (Interval T)
  unfolding is_lower_bound
  set_lower_point i p =
      if not (is_lower_bound p.type) then none else some (record i { lower_bound = p })

  unfoldable pub set_upper_bound : Interval T → T → BoundType → Interval T
  set_upper_bound i b t = record i { upper_bound = bound_point b (upper_type t) }

  unfoldable pub set_upper_point : Interval T → IntervalPoint T → Option (Interval T)
  unfolding is_upper_bound
  set_upper_point i p =
      if not (is_upper_bound p.type) then none else some (record i { upper_bound = p })

  unfoldable pub set_point : Interval T → T → Interval T
  unfolding set_lower_bound set_upper_bound
  set_point i x = set_upper_bound (set_lower_bound i x inclusive) x inclusive

  unfoldable pub is_infinite_interval : Interval T → Bool
  unfolding is_infinite
  is_infinite_interval i = is_infinite i.lower_bound.type && is_infinite i.upper_bound.type

  unfoldable pub make_interval : T → T → Bool → Bool → Option (Interval T)
  unfolding make
  make_interval lb ub l_inclusive u_inclusive =
      make (bound_point lb (if l_inclusive then inclusive_lower_bound else exclusive_lower_bound))
        (bound_point ub (if u_inclusive then inclusive_upper_bound else exclusive_upper_bound))

-- The operations that use the default value `T()`.
module _ {ℓ} {T : Type ℓ} (default : T) where
  unfoldable pub default_interval : Interval T
  default_interval = record {
    lower_bound = bound_point default exclusive_lower_bound;
    upper_bound = bound_point default exclusive_upper_bound;
  }

  unfoldable pub unset_lower_bound : Interval T → Interval T
  unset_lower_bound i = record i { lower_bound = bound_point default infinite_lower_bound }

  unfoldable pub unset_upper_bound : Interval T → Interval T
  unset_upper_bound i = record i { upper_bound = bound_point default infinite_upper_bound }

  unfoldable pub set_infinite : Interval T → Interval T
  unfolding unset_lower_bound unset_upper_bound
  set_infinite i = unset_upper_bound (unset_lower_bound i)

  unfoldable pub set_empty : Interval T → Interval T
  unfolding set_lower_bound set_upper_bound
  set_empty i = set_upper_bound (set_lower_bound i default exclusive) default exclusive

  unfoldable pub make_lower_bound : T → Bool → Option (Interval T)
  unfolding make
  make_lower_bound lb l_inclusive =
      make (bound_point lb (if l_inclusive then inclusive_lower_bound else exclusive_lower_bound))
        (bound_point default infinite_upper_bound)

  unfoldable pub make_upper_bound : T → Bool → Option (Interval T)
  unfolding make
  make_upper_bound ub u_inclusive =
      make (bound_point default infinite_lower_bound)
        (bound_point ub (if u_inclusive then inclusive_upper_bound else exclusive_upper_bound))

  unfoldable pub make_unbounded_interval : Option (Interval T)
  unfolding make
  make_unbounded_interval =
      make (bound_point default infinite_lower_bound) (bound_point default infinite_upper_bound)

-- The operations that compare.
module _ {ℓ} {T : Type ℓ} (lt : T → T → Bool) where
  unfoldable pub is_empty : Interval T → Bool
  is_empty i = point_lt lt i.upper_bound i.lower_bound

  unfoldable pub contains_value : Interval T → T → Bool
  contains_value i x = point_lt_value lt i.lower_bound x && value_lt_point lt x i.upper_bound

  unfoldable pub contains_interval : Interval T → Interval T → Bool
  contains_interval i o =
      if point_lt lt i.upper_bound i.lower_bound
      then false
      else if point_lt lt o.upper_bound o.lower_bound
      then true
      else not (point_lt lt o.lower_bound i.lower_bound)
        && not (point_lt lt i.upper_bound o.upper_bound)

  unfoldable pub overlaps : Interval T → Interval T → Bool
  overlaps i o =
      if point_lt lt i.upper_bound i.lower_bound || point_lt lt o.upper_bound o.lower_bound
      then false
      else if point_lt lt i.upper_bound o.lower_bound || point_lt lt o.upper_bound i.lower_bound
      then false
      else true

  -- The two assignments in order; the second test reads the upper bounds alone.
  unfoldable pub clip : Interval T → Interval T → Interval T
  clip i o =
      let j =
        if point_lt lt i.lower_bound o.lower_bound
        then record i { lower_bound = o.lower_bound }
        else i in
      if point_lt lt o.upper_bound j.upper_bound
      then record j { upper_bound = o.upper_bound }
      else j
