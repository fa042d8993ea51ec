-- ===== src/Interval/Set/Clip.antt =====
-- `IntervalSet::clip` keeps what lies in the interval, as a valid set.
pub mod Laws
use kdi.Common.{
  ℕ, suc, zero, ◌+◌, ◌≤◌, ◌≡◌, refl, ap, ap₂, sym, ◌∙◌, Bool, true, false, not, ◌&&◌, ◌||◌,
  if◌then◌else◌, List, [], ◌∷◌, ◌++◌, arith, Bool-cases, inl, inr, length, take, drop, append-nil,
}
use kdi.Interval.Point.{IntervalPoint, point, is_lower_bound, is_upper_bound, point_lt}
use kdi.Interval.Order.{
  IsStrictWeak, point_lt-IsStrictWeak, lt_trans, lt_of_le_of_lt, lt_of_lt_of_le, le_trans,
}
use kdi.Interval.Range.{Interval, bound_point}
use kdi.Interval.Range
use kdi.Interval.Set.{
  insert, erase, is_in_range, lower_bound, upper_bound, clip_below, clip_above, clip,
}
use kdi.Interval.Set.Vector.{drop-insert, take-insert, drop-length}
use kdi.Interval.Set.Inv.{
  Above, IsBound, IsAlternating, IsValid, covers, member, member-covers, member_before,
  value_splits, bounds_split, not_upper_of_lower,
}
use kdi.Interval.Set.Query.{is_in_range-lower_bound}

module _ {ℓ} {T : Type ℓ} (lt : T → T → Bool) where
  pub lower_bound-le :
      (ps : List (IntervalPoint T)) (x : IntervalPoint T) → lower_bound lt ps x ≤ length ps
  unfolding lower_bound
  lower_bound-le [] x = omega arith
  lower_bound-le (p ∷ ps) x = ground (arith, lower_bound-le ps x)

  pub upper_bound-le :
      (ps : List (IntervalPoint T)) (x : IntervalPoint T) → upper_bound lt ps x ≤ length ps
  unfolding upper_bound
  upper_bound-le [] x = omega arith
  upper_bound-le (p ∷ ps) x = ground (arith, upper_bound-le ps x)

  -- The two halves of `clip` by recursion on the points, which begin inside a range or not.
  pub cut_below : Bool → List (IntervalPoint T) → IntervalPoint T → List (IntervalPoint T)
  cut_below b [] l = []
  cut_below b (p ∷ ps) l =
      let rest = cut_below (not b) ps l in
      if point_lt lt p l then rest else if b then l ∷ p ∷ ps else p ∷ ps

  pub cut_above : Bool → List (IntervalPoint T) → IntervalPoint T → List (IntervalPoint T)
  cut_above b [] u = []
  cut_above b (p ∷ ps) u =
      let rest = cut_above (not b) ps u in
      if point_lt lt u p then (if b then u ∷ [] else []) else p ∷ rest

  pub clip_below-drop :
      (ps : List (IntervalPoint T)) (l : IntervalPoint T)
      → clip_below lt ps l ≡ (
          if is_in_range ps (lower_bound lt ps l)
          then l ∷ drop (lower_bound lt ps l) ps
          else drop (lower_bound lt ps l) ps)
  unfolding clip_below erase
  clip_below-drop ps l = elim (Bool-cases (is_in_range ps (lower_bound lt ps l))) [
    | inl e ↦ rw e (drop-insert ps (lower_bound lt ps l) l (lower_bound-le ps l))
    | inr e ↦ rw e
  ]

  pub clip_above-take :
      (ps : List (IntervalPoint T)) (u : IntervalPoint T)
      → clip_above lt ps u
        ≡ take (upper_bound lt ps u) ps
          ++ (if is_in_range ps (upper_bound lt ps u) then u ∷ [] else [])
  unfolding clip_above erase
  clip_above-take ps u = elim (Bool-cases (is_in_range ps (upper_bound lt ps u))) [
    | inl e ↦
        rw (e, drop-length (insert ps (upper_bound lt ps u) u), append-nil)
          (take-insert ps (upper_bound lt ps u) u (upper_bound-le ps u))
    | inr e ↦ rw (e, drop-length ps)
  ]

  pub clip_below-cut :
      (b : Bool) (ps : List (IntervalPoint T)) (l : IntervalPoint T)
      → IsAlternating lt b ps
      → (if is_in_range ps (lower_bound lt ps l)
          then l ∷ drop (lower_bound lt ps l) ps
          else drop (lower_bound lt ps l) ps)
        ≡ cut_below b ps l
  unfolding cut_below is_in_range lower_bound
  clip_below-cut b [] l h = refl
  clip_below-cut true (p ∷ ps) l h = elim (Bool-cases (point_lt lt p l)) [
    | inl e ↦ rw e (clip_below-cut false ps l h.2)
    | inr e ↦ rw (e, h.0)
  ]
  clip_below-cut false (p ∷ ps) l h = elim (Bool-cases (point_lt lt p l)) [
    | inl e ↦ rw e (clip_below-cut true ps l h.2)
    | inr e ↦ rw (e, not_upper_of_lower p.type h.0)
  ]

  pub clip_above-cut :
      (b : Bool) (ps : List (IntervalPoint T)) (u : IntervalPoint T)
      → IsAlternating lt b ps
      → take (upper_bound lt ps u) ps
          ++ (if is_in_range ps (upper_bound lt ps u) then u ∷ [] else [])
        ≡ cut_above b ps u
  unfolding cut_above is_in_range upper_bound
  clip_above-cut b [] u h = refl
  clip_above-cut true (p ∷ ps) u h = elim (Bool-cases (point_lt lt u p)) [
    | inl e ↦ rw (e, h.0)
    | inr e ↦ rw e (ap (◌∷◌ p) (clip_above-cut false ps u h.2))
  ]
  clip_above-cut false (p ∷ ps) u h = elim (Bool-cases (point_lt lt u p)) [
    | inl e ↦ rw (e, not_upper_of_lower p.type h.0)
    | inr e ↦ rw e (ap (◌∷◌ p) (clip_above-cut true ps u h.2))
  ]
