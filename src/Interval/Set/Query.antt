-- ===== src/Interval/Set/Query.antt =====
-- What `contains` and `overlaps` of `IntervalSet` answer.
use kdi.Common.{
  ℕ, suc, ◌≡◌, refl, sym, ◌∙◌, Bool, true, false, not, ◌&&◌, ◌||◌, if◌then◌else◌, List, [], ◌∷◌,
  arith, Bool-cases, inl, inr, ◌==◌,
}
use kdi.Interval.Point.{IntervalPoint, point, is_lower_bound, is_upper_bound, point_lt}
use kdi.Interval.Order.{IsStrictWeak, point_lt-IsStrictWeak, lt_trans, lt_of_le_of_lt}
use kdi.Interval.Range
use kdi.Interval.Range.{Interval, bound_point}
use kdi.Interval.Set.{
  lower_bound, upper_bound, is_in_range, contains, contains_range, overlaps_range,
}
use kdi.Interval.Set.Inv.{
  Above, IsAlternating, IsValid, covers, member, member-covers, bounds_split, not_upper_of_lower,
}

-- Whether one of the ranges passes a test against an interval.
pub any_range {ℓ} :
    {T : Type ℓ} → (Interval T → Interval T → Bool) → List (IntervalPoint T) → Interval T → Bool
any_range test [] x = false
any_range test (l ∷ []) x = false
any_range test (l ∷ u ∷ ps) x =
    test (record { lower_bound = l; upper_bound = u }) x || any_range test ps x

is_in_range-pair {ℓ} :
    {T : Type ℓ} (l u : IntervalPoint T) (ps : List (IntervalPoint T)) (a b : Bool) (n : ℕ)
    → is_in_range (l ∷ u ∷ ps) (if a then 0 else suc (if b then 0 else suc n))
      ≡ (if a then is_upper_bound l.type else if b then is_upper_bound u.type else is_in_range ps n)
unfolding is_in_range
is_in_range-pair l u ps true b n = refl
is_in_range-pair l u ps false true n = refl
is_in_range-pair l u ps false false n = refl

-- One pair of endpoints against an interval, with the comparisons as Booleans: the interval's lower
-- bound is before the range's lower bound (`a`) or its upper bound (`b`), and the range's bounds are
-- before the interval's upper bound (`c` and `d`).
contains_step :
    (a b c d : Bool) (lo hi : ℕ) (i r : Bool)
    → (a ≡ true → b ≡ true)
    → (a ≡ false → c ≡ true)
    → (b ≡ false → d ≡ true)
    → (b ≡ true → r ≡ false)
    → ((lo == hi) && i) ≡ r
    → (((if a then 0 else suc (if b then 0 else suc lo))
          == (if c then suc (if d then suc hi else 0) else 0))
        && (if a then false else if b then true else i))
      ≡ ((not a && not d) || r)
contains_step true b c d lo hi i r f g h k e = ground (arith, f refl)
contains_step false true c d lo hi i r f g h k e = ground (arith, g refl, k refl)
contains_step false false c d lo hi i r f g h k e = ground (arith, g refl, h refl)

overlaps_step :
    (a b c d : Bool) (lo hi : ℕ) (i r : Bool)
    → (a ≡ true → b ≡ true)
    → (a ≡ false → c ≡ true)
    → (b ≡ false → d ≡ true)
    → (c ≡ false → r ≡ false)
    → (not (lo == hi) || i) ≡ r
    → (not (
          (if a then 0 else suc (if b then 0 else suc lo))
          == (if c then suc (if d then suc hi else 0) else 0))
        || (if a then false else if b then true else i))
      ≡ ((not (not b) && not (not c)) || r)
overlaps_step true b c d lo hi i r f g h k e = ground (arith, f refl)
overlaps_step false true c d lo hi i r f g h k e = ground (arith, g refl)
overlaps_step false false c d lo hi i r f g h k e = ground (arith, g refl, h refl)

module _ {ℓ} {T : Type ℓ} {lt : T → T → Bool} (w : IsStrictWeak lt) where
  -- The iterator of `lower_bound` is in range exactly when the walk to the point ends inside.
  pub is_in_range-lower_bound :
      (b : Bool) (ps : List (IntervalPoint T)) (v : IntervalPoint T)
      → IsAlternating lt b ps
      → is_in_range ps (lower_bound lt ps v) ≡ member lt b ps v
  unfolding is_in_range lower_bound
  is_in_range-lower_bound b [] v h = sym h
  is_in_range-lower_bound true (p ∷ ps) v h = ground (arith, is_in_range-lower_bound false ps v h.2)
  is_in_range-lower_bound false (p ∷ ps) v h =
      ground (arith, is_in_range-lower_bound true ps v h.2, not_upper_of_lower p.type)

  -- On a valid set `contains` answers whether the value lies in one of the set's ranges.
  pub contains-covers :
      (ps : List (IntervalPoint T)) (x : T) → IsValid lt ps → contains lt ps x ≡ covers lt ps x
  unfolding contains
  contains-covers ps x v =
      is_in_range-lower_bound false ps (bound_point x point) v ∙ member-covers w ps x v

  -- The tests of `Interval` at a range that is not empty and an interval that is not.
  contains_pair :
      (l u : IntervalPoint T) (x : Interval T)
      → point_lt lt l u ≡ true
      → point_lt lt x.lower_bound x.upper_bound ≡ true
      → Range.contains_interval lt (record { lower_bound = l; upper_bound = u }) x
        ≡ (not (point_lt lt x.lower_bound l) && not (point_lt lt u x.upper_bound))
  unfolding Range.contains_interval
  contains_pair l u x h k = rw (o.asym l u h, o.asym x.lower_bound x.upper_bound k)
    where
      o : IsStrictWeak (point_lt lt)
      o = point_lt-IsStrictWeak lt w

  overlaps_pair :
      (l u : IntervalPoint T) (x : Interval T)
      → point_lt lt l u ≡ true
      → point_lt lt x.lower_bound x.upper_bound ≡ true
      → Range.overlaps lt (record { lower_bound = l; upper_bound = u }) x
        ≡ (not (point_lt lt u x.lower_bound) && not (point_lt lt x.upper_bound l))
  unfolding Range.overlaps
  overlaps_pair l u x h k = rw (o.asym l u h, o.asym x.lower_bound x.upper_bound k) (ground arith)
    where
      o : IsStrictWeak (point_lt lt)
      o = point_lt-IsStrictWeak lt w

  -- Points that ascend from one at or after the lower bound hold no range that contains.
  any_range-contains_before :
      (v : IntervalPoint T) (ps : List (IntervalPoint T)) (x : Interval T)
      → IsValid lt ps
      → Above lt v ps
      → point_lt lt x.lower_bound x.upper_bound ≡ true
      → point_lt lt v x.lower_bound ≡ false
      → any_range (Range.contains_interval lt) ps x ≡ false
  unfolding any_range
  any_range-contains_before v [] x h a k n = refl
  any_range-contains_before v (l ∷ []) x h a k n = refl
  any_range-contains_before v (l ∷ u ∷ ps) x h a k n = rw (contains_pair l u x h.1 k) (
      ground (
        arith,
        lt_of_le_of_lt o x.lower_bound v l n a,
        any_range-contains_before u ps x h.2.2 h.2.1 k (
            o.asym x.lower_bound u
              (lt_trans o x.lower_bound l u (lt_of_le_of_lt o x.lower_bound v l n a) h.1)),
      ))
    where
      o : IsStrictWeak (point_lt lt)
      o = point_lt-IsStrictWeak lt w

  any_range-overlaps_before :
      (v : IntervalPoint T) (ps : List (IntervalPoint T)) (x : Interval T)
      → IsValid lt ps
      → Above lt v ps
      → point_lt lt x.lower_bound x.upper_bound ≡ true
      → point_lt lt v x.upper_bound ≡ false
      → any_range (Range.overlaps lt) ps x ≡ false
  unfolding any_range
  any_range-overlaps_before v [] x h a k n = refl
  any_range-overlaps_before v (l ∷ []) x h a k n = refl
  any_range-overlaps_before v (l ∷ u ∷ ps) x h a k n = rw (overlaps_pair l u x h.1 k) (
      ground (
        arith,
        lt_of_le_of_lt o x.upper_bound v l n a,
        any_range-overlaps_before u ps x h.2.2 h.2.1 k (
            o.asym x.upper_bound u
              (lt_trans o x.upper_bound l u (lt_of_le_of_lt o x.upper_bound v l n a) h.1)),
      ))
    where
      o : IsStrictWeak (point_lt lt)
      o = point_lt-IsStrictWeak lt w

  -- The two iterators, two points further on.
  find_contains :
      (ps : List (IntervalPoint T)) (x : Interval T)
      → IsValid lt ps
      → point_lt lt x.lower_bound x.upper_bound ≡ true
      → ((upper_bound lt ps x.lower_bound == lower_bound lt ps x.upper_bound)
          && is_in_range ps (upper_bound lt ps x.lower_bound))
        ≡ any_range (Range.contains_interval lt) ps x
  unfolding any_range upper_bound lower_bound
  find_contains [] x h k = unfold is_in_range in refl
  find_contains (l ∷ []) x h k = cc
  find_contains (l ∷ u ∷ ps) x h k =
      rw
        (
          contains_pair l u x h.1 k,
          is_in_range-pair l u ps (point_lt lt x.lower_bound l) (point_lt lt x.lower_bound u)
              (upper_bound lt ps x.lower_bound),
          not_upper_of_lower l.type h.0,
          h.2.0,
        )
        (contains_step (point_lt lt x.lower_bound l) (point_lt lt x.lower_bound u)
          (point_lt lt l x.upper_bound) (point_lt lt u x.upper_bound)
          (upper_bound lt ps x.lower_bound) (lower_bound lt ps x.upper_bound)
          (is_in_range ps (upper_bound lt ps x.lower_bound))
          (any_range (Range.contains_interval lt) ps x) (λ e. lt_trans o x.lower_bound l u e h.1)
          (λ e. lt_of_le_of_lt o l x.lower_bound x.upper_bound e k)
          (λ e. lt_of_le_of_lt o u x.lower_bound x.upper_bound e k)
          (λ e. any_range-contains_before u ps x h.2.2 h.2.1 k (o.asym x.lower_bound u e))
          (find_contains ps x h.2.2 k))
    where
      o : IsStrictWeak (point_lt lt)
      o = point_lt-IsStrictWeak lt w

  find_overlaps :
      (ps : List (IntervalPoint T)) (x : Interval T)
      → IsValid lt ps
      → is_lower_bound x.lower_bound.type ≡ true
      → is_upper_bound x.upper_bound.type ≡ true
      → point_lt lt x.lower_bound x.upper_bound ≡ true
      → (not (upper_bound lt ps x.lower_bound == lower_bound lt ps x.upper_bound)
          || is_in_range ps (upper_bound lt ps x.lower_bound))
        ≡ any_range (Range.overlaps lt) ps x
  unfolding any_range upper_bound lower_bound
  find_overlaps [] x h xl xu k = unfold is_in_range in refl
  find_overlaps (l ∷ []) x h xl xu k = cc
  find_overlaps (l ∷ u ∷ ps) x h xl xu k =
      rw
        (
          overlaps_pair l u x h.1 k,
          is_in_range-pair l u ps (point_lt lt x.lower_bound l) (point_lt lt x.lower_bound u)
              (upper_bound lt ps x.lower_bound),
          not_upper_of_lower l.type h.0,
          h.2.0,
          bounds_split w x.lower_bound u xl h.2.0,
          bounds_split w l x.upper_bound h.0 xu,
        )
        (overlaps_step (point_lt lt x.lower_bound l) (point_lt lt x.lower_bound u)
          (point_lt lt l x.upper_bound) (point_lt lt u x.upper_bound)
          (upper_bound lt ps x.lower_bound) (lower_bound lt ps x.upper_bound)
          (is_in_range ps (upper_bound lt ps x.lower_bound)) (any_range (Range.overlaps lt) ps x)
          (λ e. lt_trans o x.lower_bound l u e h.1)
          (λ e. lt_of_le_of_lt o l x.lower_bound x.upper_bound e k)
          (λ e. lt_of_le_of_lt o u x.lower_bound x.upper_bound e k)
          (λ e. any_range-overlaps_before u ps x h.2.2 h.2.1 k (
            o.asym x.upper_bound u
              (lt_trans o x.upper_bound l u (rw (bounds_split w l x.upper_bound h.0 xu, e)) h.1)))
          (find_overlaps ps x h.2.2 xl xu k))
    where
      o : IsStrictWeak (point_lt lt)
      o = point_lt-IsStrictWeak lt w

  -- On a valid set `contains` answers whether the interval is not empty and one of the set's
  -- ranges contains it.
  pub contains_range-any_range :
      (ps : List (IntervalPoint T)) (x : Interval T)
      → IsValid lt ps
      → contains_range lt ps x
        ≡ (point_lt lt x.lower_bound x.upper_bound && any_range (Range.contains_interval lt) ps x)
  unfolding contains_range
  contains_range-any_range ps x h = elim (Bool-cases (point_lt lt x.lower_bound x.upper_bound)) [
    | inl k ↦ rw k (find_contains ps x h k)
    | inr k ↦ rw k
  ]

  -- On a valid set `overlaps` answers whether the interval, which has a lower and an upper bound, is
  -- not empty and one of the set's ranges overlaps it.
  pub overlaps_range-any_range :
      (ps : List (IntervalPoint T)) (x : Interval T)
      → IsValid lt ps
      → is_lower_bound x.lower_bound.type ≡ true
      → is_upper_bound x.upper_bound.type ≡ true
      → overlaps_range lt ps x
        ≡ (point_lt lt x.lower_bound x.upper_bound && any_range (Range.overlaps lt) ps x)
  unfolding overlaps_range
  overlaps_range-any_range ps x h l u =
      elim (Bool-cases (point_lt lt x.lower_bound x.upper_bound)) [
        | inl k ↦ rw k (find_overlaps ps x h l u k)
        | inr k ↦ rw k
      ]
