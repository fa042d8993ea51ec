-- ===== src/Interval/Range/Laws.antt =====
-- What the tests and `clip` of `Interval` mean.
use kdi.Common.{
  ◌≡◌, ap, ap₂, ◌∙◌, Bool, true, false, not, ◌&&◌, ◌||◌, if◌then◌else◌, arith, ◌↔◌, some,
}
use kdi.Interval.Point.{
  IntervalPoint, point, point_lt, value_lt_point, point_lt_value, get_adjacent_complement,
}
use kdi.Interval.Order.{IsStrictWeak, point_lt-IsStrictWeak, lt_irrefl, le_trans}
use kdi.Interval.Range.{
  Interval, bound_point, is_empty, contains_value, contains_interval, overlaps, clip,
}

-- A strict weak order and the greater or the lesser of two elements.
module _ {ℓ} {A : Type ℓ} {lt : A → A → Bool} (w : IsStrictWeak lt) where
  pub greater_lt : (a b x : A) → lt (if lt a b then b else a) x ≡ (lt a x && lt b x)
  greater_lt a b x =
      ground (arith, w.asym a b, w.cotrans a x b, w.cotrans a b x, w.cotrans b a x, w.cotrans b x a)

  pub lt_lesser : (a b x : A) → lt x (if lt b a then b else a) ≡ (lt x a && lt x b)
  lt_lesser a b x =
      ground (arith, w.asym b a, w.cotrans b x a, w.cotrans x b a, w.cotrans x a b, w.cotrans a x b)

  lesser_lt_greater :
      (l u m v : A)
      → (if lt u l || lt v m then false else if lt u m || lt v l then false else true)
        ≡ not (lt (if lt v u then v else u) (if lt l m then m else l))
  lesser_lt_greater l u m v = ground (
    arith,
    w.cotrans u v l,
    w.cotrans u v m,
    w.cotrans v u l,
    w.cotrans v u m,
    w.cotrans u l m,
    w.cotrans u m l,
    w.cotrans v l m,
    w.cotrans v m l,
    w.asym v u,
    w.asym l m,
  )

and_interchange : (a b c d : Bool) → ((a && b) && (c && d)) ≡ ((a && c) && (b && d))
and_interchange a b c d = ground arith

-- A position is within an interval if it is not below its lower or above its upper bound.
abbrev pub Within {ℓ} : {T : Type ℓ} → (T → T → Bool) → Interval T → IntervalPoint T → Type 0
Within lt i p = (point_lt lt p i.lower_bound ≡ false) × (point_lt lt i.upper_bound p ≡ false)

module _ {ℓ} {T : Type ℓ} {lt : T → T → Bool} (w : IsStrictWeak lt) where
  lower_bound-clip :
      (i o : Interval T)
      → (clip lt i o).lower_bound
        ≡ (if point_lt lt i.lower_bound o.lower_bound then o.lower_bound else i.lower_bound)
  unfolding clip
  lower_bound-clip i o = ground arith

  upper_bound-clip :
      (i o : Interval T)
      → (clip lt i o).upper_bound
        ≡ (if point_lt lt o.upper_bound i.upper_bound then o.upper_bound else i.upper_bound)
  unfolding clip
  upper_bound-clip i o = ground arith

  -- A value lies in a clipped interval exactly when it lies in both intervals.
  pub contains_value-clip :
      (i o : Interval T) (x : T)
      → contains_value lt (clip lt i o) x ≡ (contains_value lt i x && contains_value lt o x)
  unfolding contains_value point_lt_value value_lt_point point_lt
  contains_value-clip i o x =
      ap₂ ◌&&◌
        (ap (λ p. point_lt lt p (bound_point x point)) (lower_bound-clip i o)
          ∙ greater_lt (point_lt-IsStrictWeak lt w) i.lower_bound o.lower_bound
              (bound_point x point))
        (ap (point_lt lt (bound_point x point)) (upper_bound-clip i o)
          ∙ lt_lesser (point_lt-IsStrictWeak lt w) i.upper_bound o.upper_bound
              (bound_point x point))
      ∙ and_interchange (point_lt lt i.lower_bound (bound_point x point))
          (point_lt lt o.lower_bound (bound_point x point))
          (point_lt lt (bound_point x point) i.upper_bound)
          (point_lt lt (bound_point x point) o.upper_bound)

  -- Two intervals overlap exactly when clipping one to the other leaves a non-empty interval.
  pub overlaps-clip : (i o : Interval T) → overlaps lt i o ≡ not (is_empty lt (clip lt i o))
  unfolding overlaps is_empty
  overlaps-clip i o =
      rw (lower_bound-clip i o, upper_bound-clip i o)
        (lesser_lt_greater (point_lt-IsStrictWeak lt w) _ _ _ _)

  -- An interval contains another exactly when it is not empty and every position of the other is
  -- one of its own.
  pub contains_interval_iff :
      (i o : Interval T)
      → (contains_interval lt i o ≡ true)
        ↔ ((is_empty lt i ≡ false) × ((p : IntervalPoint T) → Within lt o p → Within lt i p))
  unfolding contains_interval is_empty
  contains_interval_iff i o = (sound, complete)
    where
      v : IsStrictWeak (point_lt lt)
      v = point_lt-IsStrictWeak lt w

      inside :
          (p : IntervalPoint T) → contains_interval lt i o ≡ true → Within lt o p → Within lt i p
      inside p h q = ground (
        arith,
        le_trans v o.lower_bound p o.upper_bound,
        le_trans v i.lower_bound o.lower_bound p,
        le_trans v p o.upper_bound i.upper_bound,
      )

      sound :
          contains_interval lt i o ≡ true
          → (is_empty lt i ≡ false) × ((p : IntervalPoint T) → Within lt o p → Within lt i p)
      sound h = (ground arith, λ p. inside p h)

      complete :
          (is_empty lt i ≡ false) × ((p : IntervalPoint T) → Within lt o p → Within lt i p)
          → contains_interval lt i o ≡ true
      complete h = ground (
        arith,
        h.0,
        h.1 o.lower_bound,
        h.1 o.upper_bound,
        lt_irrefl v o.lower_bound,
        lt_irrefl v o.upper_bound,
      )

  -- A finite endpoint and its adjacent complement leave no gap and do not meet: a value is before
  -- the one exactly when it is not after the other.
  pub get_adjacent_complement_splits :
      (p q : IntervalPoint T) (x : T)
      → get_adjacent_complement p ≡ some q
      → value_lt_point lt x p ≡ not (point_lt_value lt q x)
  unfolding get_adjacent_complement value_lt_point point_lt_value
  get_adjacent_complement_splits p q x h = ground (arith, w.asym x p.value, w.asym p.value x)
