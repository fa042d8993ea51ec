-- ===== src/Interval/Set/Hull.antt =====
-- `IntervalSet::getHull` is an interval that holds every value of the set.
use kdi.Common.{
  ◌≡◌, refl, Bool, true, false, not, some, List, [], ◌∷◌, arith, Bool-cases, inl, inr, ◌∙◌,
}
use kdi.Interval.Point.{IntervalPoint, point, is_upper_bound, point_lt}
use kdi.Interval.Order.{IsStrictWeak, point_lt-IsStrictWeak, lt_trans}
use kdi.Interval.Range.{Interval, bound_point, contains_value, set_empty, default_interval}
use kdi.Interval.Set.{last_or, get_hull}
use kdi.Interval.Set.Inv.{
  IsAlternating, IsValid, covers, member, member-covers, value_before, contains_value_lem,
}

module _ {ℓ} {T : Type ℓ} {lt : T → T → Bool} (w : IsStrictWeak lt) where
  o : IsStrictWeak (point_lt lt)
  o = point_lt-IsStrictWeak lt w

  last-IsUpper :
      (b : Bool) (p : IntervalPoint T) (ps : List (IntervalPoint T))
      → IsAlternating lt b (p ∷ ps)
      → is_upper_bound (last_or p ps).type ≡ true
  unfolding last_or
  last-IsUpper true p [] h = h.0
  last-IsUpper false p [] h = cc
  last-IsUpper b p (q ∷ ps) h = last-IsUpper (not b) q ps h.2

  before_last :
      (b : Bool) (p v : IntervalPoint T) (ps : List (IntervalPoint T))
      → IsAlternating lt b (p ∷ ps)
      → point_lt lt v p ≡ true
      → point_lt lt v (last_or p ps) ≡ true
  unfolding last_or
  before_last b p v [] h e = e
  before_last b p v (q ∷ ps) h e = before_last (not b) q v ps h.2 (lt_trans o v p q e h.1)

  member_before_last :
      (b : Bool) (p : IntervalPoint T) (x : T) (ps : List (IntervalPoint T))
      → IsAlternating lt b (p ∷ ps)
      → member lt b (p ∷ ps) (bound_point x point) ≡ true
      → point_lt lt (bound_point x point) (last_or p ps) ≡ true
  unfolding last_or
  member_before_last b p x [] h m = elim (Bool-cases (point_lt lt p (bound_point x point))) [
    | inl e ↦ absurd (ground arith)
    | inr e ↦ before_last b p (bound_point x point) [] h (value_before w b p x h.0 e)
  ]
  member_before_last b p x (q ∷ ps) h m = elim (Bool-cases (point_lt lt p (bound_point x point))) [
    | inl e ↦ member_before_last (not b) q x ps h.2 (rw e at m)
    | inr e ↦ before_last b p (bound_point x point) (q ∷ ps) h (value_before w b p x h.0 e)
  ]

  make_hull :
      (p : IntervalPoint T) (ps : List (IntervalPoint T)) (default : T)
      → IsValid lt (p ∷ ps)
      → get_hull default (p ∷ ps) ≡ some (record { lower_bound = p; upper_bound = last_or p ps })
  unfolding get_hull
  make_hull p ps default h = rw (h.0, last-IsUpper false p ps h)

  hull_holds :
      (p : IntervalPoint T) (ps : List (IntervalPoint T)) (x : T)
      → IsValid lt (p ∷ ps)
      → covers lt (p ∷ ps) x ≡ true
      → contains_value lt (record { lower_bound = p; upper_bound = last_or p ps }) x ≡ true
  hull_holds p ps x h c =
      let m = member-covers w (p ∷ ps) x h ∙ c in
      rw
        (
          contains_value_lem w (record { lower_bound = p; upper_bound = last_or p ps }) x,
          member_before_last false p x ps h m,
        )
        (elim (Bool-cases (point_lt lt p (bound_point x point))) [
          | inl e ↦ rw e
          | inr e ↦ absurd (ground arith)
        ])

  -- On a valid set `getHull` raises nothing, and its interval holds every value of the set.
  pub get_hull-holds :
      (ps : List (IntervalPoint T)) (default : T)
      → IsValid lt ps
      → (i : Interval T) × (get_hull default ps ≡ some i)
        × ((x : T) → covers lt ps x ≡ true → contains_value lt i x ≡ true)
  get_hull-holds [] default h = (
    set_empty default (default_interval default),
    unfold get_hull in refl,
    λ x c. let m = member-covers w [] x h ∙ c in cc,
  )
  get_hull-holds (p ∷ ps) default h = (
    record { lower_bound = p; upper_bound = last_or p ps },
    make_hull p ps default h,
    λ x. hull_holds p ps x h,
  )
