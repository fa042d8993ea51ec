-- ===== src/Interval/Set/Clip/Laws.antt =====
-- `IntervalSet::clip` keeps the values in the interval, as a valid set.
use kdi.Common.{
  ◌≡◌, refl, ap, sym, ◌∙◌, Bool, true, false, not, ◌&&◌, if◌then◌else◌, List, [], ◌∷◌, arith,
  Bool-cases, inl, inr,
}
use kdi.Interval.Point.{IntervalPoint, point, is_lower_bound, is_upper_bound, point_lt}
use kdi.Interval.Order.{IsStrictWeak, point_lt-IsStrictWeak, lt_trans, lt_of_lt_of_le}
use kdi.Interval.Range.{Interval, bound_point, contains_value}
use kdi.Interval.Set.{clip_below, clip_above, clip}
use kdi.Interval.Set.Inv.{
  Above, IsAlternating, IsValid, covers, member, member-covers, value_splits, value_before,
  bounds_split, contains_value_lem,
}
use kdi.Interval.Set.Clip.{
  cut_below, cut_above, clip_below-drop, clip_above-take, clip_below-cut, clip_above-cut,
}

and-false : (b : Bool) → (b && false) ≡ false
and-false b = ground arith

and-true_self : (b : Bool) → b ≡ (b && true)
and-true_self b = ground arith

module _ {ℓ} {T : Type ℓ} {lt : T → T → Bool} (w : IsStrictWeak lt) where
  at_most :
      (l p : IntervalPoint T)
      → is_lower_bound l.type ≡ true
      → is_upper_bound p.type ≡ true
      → point_lt lt p l ≡ false
      → point_lt lt l p ≡ true
  at_most l p h k e = ground (arith, bounds_split w l p h k)

  cut_below-IsValid :
      (b : Bool) (ps : List (IntervalPoint T)) (l : IntervalPoint T)
      → is_lower_bound l.type ≡ true
      → IsAlternating lt b ps
      → IsValid lt (cut_below lt b ps l)
  unfolding cut_below
  cut_below-IsValid b [] l k h = refl
  cut_below-IsValid b (p ∷ ps) l k h = elim (Bool-cases (point_lt lt p l)) [
    | inl e ↦ rw e (cut_below-IsValid (not b) ps l k h.2)
    | inr e ↦ rw e (keep b h e)
  ]
    where
      keep :
          (c : Bool)
          → IsAlternating lt c (p ∷ ps)
          → point_lt lt p l ≡ false
          → IsValid lt (if c then l ∷ p ∷ ps else p ∷ ps)
      keep true g e = (k, at_most l p k g.0 e, g)
      keep false g e = g

  member-cut_below :
      (b : Bool) (ps : List (IntervalPoint T)) (l : IntervalPoint T) (x : T)
      → is_lower_bound l.type ≡ true
      → IsAlternating lt b ps
      → member lt false (cut_below lt b ps l) (bound_point x point)
        ≡ (point_lt lt l (bound_point x point) && member lt b ps (bound_point x point))
  unfolding cut_below
  member-cut_below b [] l x k h = rw h (ground arith)
  member-cut_below b (p ∷ ps) l x k h = elim (Bool-cases (point_lt lt p l)) [
    | inl e ↦ rw e (
        ground (
          arith,
          member-cut_below (not b) ps l x k h.2,
          lt_trans (point_lt-IsStrictWeak lt w) p l (bound_point x point) e,
        ))
    | inr e ↦ rw e (keep b e)
  ]
    where
      keep :
          (c : Bool)
          → point_lt lt p l ≡ false
          → member lt false (if c then l ∷ p ∷ ps else p ∷ ps) (bound_point x point)
            ≡ (point_lt lt l (bound_point x point) && member lt c (p ∷ ps) (bound_point x point))
      keep true e = elim (Bool-cases (point_lt lt l (bound_point x point))) [
        | inl f ↦ rw f
        | inr f ↦ rw f
      ]
      keep false e = ground (
        arith,
        value_splits w false l x k,
        lt_of_lt_of_le (point_lt-IsStrictWeak lt w) (bound_point x point) l p,
        (point_lt-IsStrictWeak lt w).asym (bound_point x point) p,
      )

  -- A point before the vector, and before the cut if that may come first, is before what is left.
  Above-cut_above :
      (b : Bool) (ps : List (IntervalPoint T)) (u r : IntervalPoint T)
      → (b ≡ true → point_lt lt r u ≡ true)
      → Above lt r ps
      → Above lt r (cut_above lt b ps u)
  unfolding cut_above
  Above-cut_above b [] u r f a = tt
  Above-cut_above true (p ∷ ps) u r f a = elim (Bool-cases (point_lt lt u p)) [
    | inl e ↦ rw e (f refl)
    | inr e ↦ rw e a
  ]
  Above-cut_above false (p ∷ ps) u r f a = elim (Bool-cases (point_lt lt u p)) [
    | inl e ↦ rw e tt
    | inr e ↦ rw e a
  ]

  cut_above-IsAlternating :
      (b : Bool) (ps : List (IntervalPoint T)) (u : IntervalPoint T)
      → is_upper_bound u.type ≡ true
      → IsAlternating lt b ps
      → IsAlternating lt b (cut_above lt b ps u)
  unfolding cut_above
  cut_above-IsAlternating b [] u k h = h
  cut_above-IsAlternating true (p ∷ ps) u k h = elim (Bool-cases (point_lt lt u p)) [
    | inl e ↦ rw e (k, tt, refl)
    | inr e ↦
        rw e (
          h.0,
          Above-cut_above false ps u p (λ c. cc) h.1,
          cut_above-IsAlternating false ps u k h.2,
        )
  ]
  cut_above-IsAlternating false (p ∷ ps) u k h = elim (Bool-cases (point_lt lt u p)) [
    | inl e ↦ rw e
    | inr e ↦ rw e (
      h.0,
      Above-cut_above true ps u p (λ c. at_most p u h.0 k e) h.1,
      cut_above-IsAlternating true ps u k h.2,
    )
  ]

  member-cut_above :
      (b : Bool) (ps : List (IntervalPoint T)) (u : IntervalPoint T) (x : T)
      → is_upper_bound u.type ≡ true
      → IsAlternating lt b ps
      → member lt b (cut_above lt b ps u) (bound_point x point)
        ≡ (member lt b ps (bound_point x point) && point_lt lt (bound_point x point) u)
  unfolding cut_above
  member-cut_above b [] u x k h = rw h
  member-cut_above b (p ∷ ps) u x k h = elim (Bool-cases (point_lt lt u p)) [
    | inl e ↦ rw e (cut b e)
    | inr e ↦ rw e (elim (Bool-cases (point_lt lt p (bound_point x point))) [
      | inl f ↦ rw f (member-cut_above (not b) ps u x k h.2)
      | inr f ↦
          rw (f, lt_of_lt_of_le o (bound_point x point) p u (value_before w b p x h.0 f) e)
            (and-true_self b)
    ])
  ]
    where
      o : IsStrictWeak (point_lt lt)
      o = point_lt-IsStrictWeak lt w

      y : IntervalPoint T
      y = bound_point x point

      cut :
          (c : Bool)
          → point_lt lt u p ≡ true
          → member lt c (if c then u ∷ [] else []) (bound_point x point)
            ≡ (member lt c (p ∷ ps) (bound_point x point) && point_lt lt (bound_point x point) u)
      cut true e = elim (Bool-cases (point_lt lt u y)) [
        | inl f ↦ rw (f, o.asym u y f) (sym (and-false (member lt true (p ∷ ps) y)))
        | inr f ↦ rw (
          f,
          value_before w true u x k f,
          o.asym y p (lt_trans o y u p (value_before w true u x k f) e),
        )
      ]
      cut false e = elim (Bool-cases (point_lt lt u y)) [
        | inl f ↦ rw (o.asym u y f) (sym (and-false (member lt false (p ∷ ps) y)))
        | inr f ↦ rw (o.asym y p (lt_trans o y u p (value_before w true u x k f) e))
      ]

  clip_below-cut_below :
      (ps : List (IntervalPoint T)) (l : IntervalPoint T)
      → IsValid lt ps
      → clip_below lt ps l ≡ cut_below lt false ps l
  clip_below-cut_below ps l h = clip_below-drop lt ps l ∙ clip_below-cut lt false ps l h

  clip_above-cut_above :
      (ps : List (IntervalPoint T)) (u : IntervalPoint T)
      → IsValid lt ps
      → clip_above lt ps u ≡ cut_above lt false ps u
  clip_above-cut_above ps u h = clip_above-take lt ps u ∙ clip_above-cut lt false ps u h

  module _ (ps : List (IntervalPoint T)) (x : Interval T) (h : IsValid lt ps)
      (l : is_lower_bound x.lower_bound.type ≡ true)
      (u : is_upper_bound x.upper_bound.type ≡ true) where
    clip-cuts :
        point_lt lt x.lower_bound x.upper_bound ≡ true
        → clip lt ps x ≡ cut_above lt false (cut_below lt false ps x.lower_bound) x.upper_bound
    unfolding clip
    clip-cuts k = rw k (
        ap (λ qs. clip_above lt qs x.upper_bound) (clip_below-cut_below ps x.lower_bound h)
        ∙ clip_above-cut_above (cut_below lt false ps x.lower_bound) x.upper_bound
            (cut_below-IsValid false ps x.lower_bound l h))

    clip-nil : point_lt lt x.lower_bound x.upper_bound ≡ false → clip lt ps x ≡ []
    unfolding clip
    clip-nil k = rw k

    -- Clipping a valid set to an interval leaves a valid set.
    pub clip-IsValid : IsValid lt (clip lt ps x)
    clip-IsValid = elim (Bool-cases (point_lt lt x.lower_bound x.upper_bound)) [
      | inl k ↦ rw (clip-cuts k) (
          cut_above-IsAlternating false (cut_below lt false ps x.lower_bound) x.upper_bound u
            (cut_below-IsValid false ps x.lower_bound l h))
      | inr k ↦ rw (clip-nil k)
    ]

    -- A value lies in a clipped set exactly when it lies in the set and in the interval.
    pub covers-clip :
        (v : T) → covers lt (clip lt ps x) v ≡ (covers lt ps v && contains_value lt x v)
    covers-clip v =
        sym (member-covers w (clip lt ps x) v clip-IsValid)
        ∙ elim (Bool-cases (point_lt lt x.lower_bound x.upper_bound)) [
          | inl k ↦
              rw (clip-cuts k, contains_value_lem w x v, ← member-covers w ps v h)
                (ground (
                  arith,
                  member-cut_above false (cut_below lt false ps x.lower_bound) x.upper_bound v u
                      (cut_below-IsValid false ps x.lower_bound l h),
                  member-cut_below false ps x.lower_bound v l h,
                ))
          | inr k ↦
              rw (clip-nil k, contains_value_lem w x v)
                (ground (
                  arith,
                  lt_trans (point_lt-IsStrictWeak lt w) x.lower_bound (bound_point v point)
                      x.upper_bound,
                ))
        ]
