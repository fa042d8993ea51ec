-- ===== src/Interval/Set/Add/Adjacent.antt =====
-- An upper bound and a lower bound that meet: no value lies between them.
use kdi.Common.{◌≡◌, Bool, true, false, ◌&&◌, arith}
use kdi.Interval.Point.{
  PointType, infinite_lower_bound, exclusive_upper_bound, inclusive_lower_bound, point,
  inclusive_upper_bound, exclusive_lower_bound, infinite_upper_bound, IntervalPoint, is_lower_bound,
  is_upper_bound, is_exclusive, point_lt, is_less,
}
use kdi.Interval.Order.{IsStrictWeak}
use kdi.Interval.Range.{bound_point}

module _ {ℓ} {T : Type ℓ} {lt : T → T → Bool} (w : IsStrictWeak lt) where
  -- `x) [x` and `x] (x` are the pairs that meet.
  meet_types :
      (a : T) (s : PointType) (b : T) (t : PointType) (x : T)
      → is_upper_bound s ≡ true
      → is_lower_bound t ≡ true
      → is_less lt a s b t ≡ true
      → (is_exclusive s && is_exclusive t) ≡ false
      → lt a b ≡ false
      → is_less lt a s x point ≡ is_less lt b t x point
  unfolding is_less is_exclusive
  meet_types a exclusive_upper_bound b inclusive_lower_bound x h k l n e = ground (
    arith,
    w.cotrans a x b,
    w.cotrans x a b,
    w.cotrans x b a,
    w.cotrans b x a,
    w.cotrans a b x,
    w.cotrans b a x,
    w.asym a x,
    w.asym b x,
    w.asym x a,
    w.asym x b,
  )
  meet_types a inclusive_upper_bound b exclusive_lower_bound x h k l n e = ground (
    arith,
    w.cotrans a x b,
    w.cotrans x a b,
    w.cotrans x b a,
    w.cotrans b x a,
    w.cotrans a b x,
    w.cotrans b a x,
    w.asym a x,
    w.asym b x,
    w.asym x a,
    w.asym x b,
  )
  meet_types a exclusive_upper_bound b exclusive_lower_bound x h k l n e = cc
  meet_types a inclusive_upper_bound b inclusive_lower_bound x h k l n e = ground arith
  meet_types a exclusive_upper_bound b infinite_lower_bound x h k l n e = cc
  meet_types a inclusive_upper_bound b infinite_lower_bound x h k l n e = cc
  meet_types a infinite_upper_bound b t x h k l n e = cc
  meet_types a s b t x h k l n e = ground arith

  pub meet :
      (u c : IntervalPoint T) (x : T)
      → is_upper_bound u.type ≡ true
      → is_lower_bound c.type ≡ true
      → point_lt lt u c ≡ true
      → (is_exclusive u.type && is_exclusive c.type) ≡ false
      → lt u.value c.value ≡ false
      → point_lt lt u (bound_point x point) ≡ point_lt lt c (bound_point x point)
  unfolding point_lt
  meet u c x h k l n e = meet_types u.value u.type c.value c.type x h k l n e
