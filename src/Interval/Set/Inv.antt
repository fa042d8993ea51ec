-- ===== src/Interval/Set/Inv.antt =====
-- The invariant of `IntervalSet`, and the set of values that its endpoints stand for.
use kdi.Common.{
  ◌≡◌, refl, ap, Bool, true, false, not, ◌&&◌, ◌||◌, if◌then◌else◌, List, [], ◌∷◌, arith,
  Bool-cases,
}
use kdi.Interval.Point.{
  PointType, infinite_lower_bound, exclusive_upper_bound, inclusive_lower_bound, point,
  inclusive_upper_bound, exclusive_lower_bound, infinite_upper_bound, IntervalPoint, point_lt_value,
  value_lt_point, is_lower_bound, is_upper_bound, point_lt, is_less,
}
use kdi.Interval.Order.{IsStrictWeak, point_lt-IsStrictWeak, lt_of_le_of_lt}
use kdi.Interval.Range.{Interval, bound_point, contains_value}

module _ {ℓ} {T : Type ℓ} (lt : T → T → Bool) where
  abbrev pub Above : IntervalPoint T → List (IntervalPoint T) → Type 0
  Above p [] = Unit
  Above p (q ∷ ps) = point_lt lt p q ≡ true

  -- Outside a range (`false`) a lower bound comes next, inside one an upper bound; the points
  -- ascend strictly, and the vector ends outside.
  abbrev pub IsBound : Bool → IntervalPoint T → Type 0
  IsBound false p = is_lower_bound p.type ≡ true
  IsBound true p = is_upper_bound p.type ≡ true

  abbrev pub IsAlternating : Bool → List (IntervalPoint T) → Type 0
  IsAlternating inside [] = inside ≡ false
  IsAlternating inside (p ∷ ps) = IsBound inside p × Above p ps × IsAlternating (not inside) ps

  -- The invariants 1 to 5 of the class.
  abbrev pub IsValid : List (IntervalPoint T) → Type 0
  IsValid ps = IsAlternating false ps

  -- The values of the ranges, by their pairs of endpoints.
  pub covers : List (IntervalPoint T) → T → Bool
  covers [] x = false
  covers (l ∷ []) x = false
  covers (l ∷ u ∷ ps) x =
      contains_value lt (record { lower_bound = l; upper_bound = u }) x || covers ps x

  -- The same by a walk along the endpoints that turns at each point before `v`.
  abbrev pub member : Bool → List (IntervalPoint T) → IntervalPoint T → Bool
  member inside [] v = inside
  member inside (p ∷ ps) v = if point_lt lt p v then member (not inside) ps v else inside

pub not_lower_of_upper : (t : PointType) → is_upper_bound t ≡ true → is_lower_bound t ≡ false
unfolding is_upper_bound is_lower_bound
not_lower_of_upper infinite_lower_bound h = cc
not_lower_of_upper exclusive_lower_bound h = cc
not_lower_of_upper inclusive_lower_bound h = cc
not_lower_of_upper _ h = refl

pub not_upper_of_lower : (t : PointType) → is_lower_bound t ≡ true → is_upper_bound t ≡ false
not_upper_of_lower t h = ground (arith, Bool-cases (is_upper_bound t), not_lower_of_upper t)

module _ {ℓ} {T : Type ℓ} {lt : T → T → Bool} (w : IsStrictWeak lt) where
  -- A value is never at an endpoint: it is before it or after it.
  pub value_splits :
      (b : Bool) (p : IntervalPoint T) (x : T)
      → IsBound lt b p
      → point_lt lt p (bound_point x point) ≡ not (point_lt lt (bound_point x point) p)
  unfolding point_lt is_upper_bound is_lower_bound
  value_splits true p x h = ground (arith, w.asym x p.value, w.asym p.value x)
  value_splits false p x h = ground (arith, w.asym x p.value, w.asym p.value x)

  pub value_before :
      (b : Bool) (p : IntervalPoint T) (x : T)
      → IsBound lt b p
      → point_lt lt p (bound_point x point) ≡ false
      → point_lt lt (bound_point x point) p ≡ true
  value_before b p x h e = ground (arith, value_splits b p x h)

  -- Before a point that is not before `v`, a walk ends as it began.
  pub member_before :
      (b : Bool) (p v : IntervalPoint T) (ps : List (IntervalPoint T))
      → Above lt p ps
      → point_lt lt p v ≡ false
      → member lt b ps v ≡ b
  member_before b p v [] a h = refl
  member_before b p v (q ∷ ps) a h =
      let n =
        (point_lt-IsStrictWeak lt w).asym v q
          (lt_of_le_of_lt (point_lt-IsStrictWeak lt w) v p q h a) in
      rw n

  pub contains_value_lem :
      (i : Interval T) (x : T)
      → contains_value lt i x ≡ (
          point_lt lt i.lower_bound (bound_point x point)
          && point_lt lt (bound_point x point) i.upper_bound)
  unfolding contains_value point_lt_value value_lt_point point_lt
  contains_value_lem i x = refl

  pub covers-cons :
      (l u : IntervalPoint T) (ps : List (IntervalPoint T)) (x : T)
      → covers lt (l ∷ u ∷ ps) x ≡ (
          (point_lt lt l (bound_point x point) && point_lt lt (bound_point x point) u)
          || covers lt ps x)
  unfolding covers
  covers-cons l u ps x =
      ap (λ b. b || covers lt ps x)
        (contains_value_lem (record { lower_bound = l; upper_bound = u }) x)

  -- On a valid vector the walk decides whether a value lies in one of the ranges.
  pub member-covers :
      (ps : List (IntervalPoint T)) (x : T)
      → IsValid lt ps
      → member lt false ps (bound_point x point) ≡ covers lt ps x
  member-covers [] x v = unfold covers in refl
  member-covers (l ∷ []) x v = cc
  member-covers (l ∷ u ∷ ps) x v =
      let o = point_lt-IsStrictWeak lt w in
      let y = bound_point x point in
      rw (covers-cons l u ps x) (
        ground (
          arith,
          member-covers ps x v.2.2,
          value_splits true u x v.2.0,
          member_before false u y ps v.2.1,
          lt_of_le_of_lt o y l u,
          o.asym y u,
        ))

  types_split :
      (a : T) (s : PointType) (b : T) (t : PointType)
      → is_lower_bound s ≡ true
      → is_upper_bound t ≡ true
      → is_less lt b t a s ≡ not (is_less lt a s b t)
  unfolding is_less
  types_split a infinite_lower_bound b infinite_upper_bound h k = refl
  types_split a infinite_lower_bound b exclusive_upper_bound h k = refl
  types_split a infinite_lower_bound b inclusive_upper_bound h k = refl
  types_split a inclusive_lower_bound b infinite_upper_bound h k = refl
  types_split a inclusive_lower_bound b exclusive_upper_bound h k =
      ground (arith, w.asym a b, w.asym b a)
  types_split a inclusive_lower_bound b inclusive_upper_bound h k =
      ground (arith, w.asym a b, w.asym b a)
  types_split a exclusive_lower_bound b infinite_upper_bound h k = refl
  types_split a exclusive_lower_bound b exclusive_upper_bound h k =
      ground (arith, w.asym a b, w.asym b a)
  types_split a exclusive_lower_bound b inclusive_upper_bound h k =
      ground (arith, w.asym a b, w.asym b a)
  types_split a infinite_lower_bound b infinite_lower_bound h k = cc
  types_split a s b t h k = cc

  -- A lower and an upper bound are never at the same place.
  pub bounds_split :
      (l u : IntervalPoint T)
      → is_lower_bound l.type ≡ true
      → is_upper_bound u.type ≡ true
      → point_lt lt u l ≡ not (point_lt lt l u)
  unfolding point_lt
  bounds_split l u h k = types_split l.value l.type u.value u.type h k
