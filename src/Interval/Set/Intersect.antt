-- ===== src/Interval/Set/Intersect.antt =====
-- `IntervalSet::intersect` yields the intersection, as a valid set.
use kdi.Common.{
  ◌≡◌, refl, ap₂, sym, ◌∙◌, Bool, true, false, not, ◌&&◌, if◌then◌else◌, List, [], ◌∷◌, arith,
  Bool-cases, inl, inr,
}
use kdi.Interval.Point.{IntervalPoint, point, point_lt}
use kdi.Interval.Order.{
  IsStrictWeak, point_lt-IsStrictWeak, lt_of_le_of_lt, lt_of_lt_of_le, le_trans,
}
use kdi.Interval.Range.{bound_point}
use kdi.Interval.Set.{merge_from, intersect}
use kdi.Interval.Set.Inv.{
  Above, IsBound, IsAlternating, IsValid, covers, member, member-covers, bounds_split,
}

and-false : (b : Bool) → (b && false) ≡ false
and-false b = ground arith

module _ {ℓ} {T : Type ℓ} (lt : T → T → Bool) (v : IntervalPoint T) where
  -- One step on the right vector, and one on the left; `m` is where the other walk ends.
  turn_right :
      (i j m : Bool) (q : IntervalPoint T) (rest js : List (IntervalPoint T))
      → member lt (i && not j) rest v ≡ (m && member lt (not j) js v)
      → (point_lt lt q v ≡ false → m ≡ i)
      → member lt (i && j) (if i then q ∷ rest else rest) v ≡ (m && member lt j (q ∷ js) v)
  turn_right true j m q rest js ih f = elim (Bool-cases (point_lt lt q v)) [
    | inl e ↦ rw e ih
    | inr e ↦ rw (e, f e)
  ]
  turn_right false j m q rest js ih f = elim (Bool-cases (point_lt lt q v)) [
    | inl e ↦ rw e ih
    | inr e ↦ rw (e, ih, f e)
  ]

  turn_left :
      (i j m : Bool) (p : IntervalPoint T) (rest is : List (IntervalPoint T))
      → member lt (not i && j) rest v ≡ (member lt (not i) is v && m)
      → (point_lt lt p v ≡ false → m ≡ j)
      → member lt (i && j) (if j then p ∷ rest else rest) v ≡ (member lt i (p ∷ is) v && m)
  turn_left true true m p rest is ih f = elim (Bool-cases (point_lt lt p v)) [
    | inl e ↦ rw e ih
    | inr e ↦ rw (e, f e)
  ]
  turn_left true false m p rest is ih f = elim (Bool-cases (point_lt lt p v)) [
    | inl e ↦ rw e ih
    | inr e ↦ rw (e, ih, f e) (and-false (member lt false is v))
  ]
  turn_left false true m p rest is ih f = elim (Bool-cases (point_lt lt p v)) [
    | inl e ↦ rw e ih
    | inr e ↦ rw e
  ]
  turn_left false false m p rest is ih f = elim (Bool-cases (point_lt lt p v)) [
    | inl e ↦ rw e ih
    | inr e ↦ rw (e, ih, f e) (and-false (member lt true is v))
  ]

module _ {ℓ} {T : Type ℓ} {lt : T → T → Bool} (w : IsStrictWeak lt) where
  member_after :
      (b : Bool) (p q v : IntervalPoint T) (ps : List (IntervalPoint T))
      → point_lt lt p q ≡ false
      → point_lt lt q v ≡ false
      → Above lt p ps
      → member lt b (p ∷ ps) v ≡ b
  member_after b p q v ps h k a = rw (le_trans (point_lt-IsStrictWeak lt w) v q p k h)

  merge_from-right :
      (p q : IntervalPoint T) (is js : List (IntervalPoint T)) (i j : Bool)
      → point_lt lt q p ≡ true
      → merge_from lt (p ∷ is) (q ∷ js) i j ≡ (
          if i
          then q ∷ merge_from lt (p ∷ is) js i (not j)
          else merge_from lt (p ∷ is) js i (not j))
  unfolding merge_from
  merge_from-right p q is js i j e = rw (e, merge_from)

  merge_from-left :
      (p q : IntervalPoint T) (is js : List (IntervalPoint T)) (i j : Bool)
      → point_lt lt q p ≡ false
      → merge_from lt (p ∷ is) (q ∷ js) i j ≡ (
          if j
          then p ∷ merge_from lt is (q ∷ js) (not i) j
          else merge_from lt is (q ∷ js) (not i) j)
  unfolding merge_from
  merge_from-left p q is js i j e = rw (e, merge_from)

  merge_from-nil : (is : List (IntervalPoint T)) (i j : Bool) → merge_from lt is [] i j ≡ []
  unfolding merge_from
  merge_from-nil [] i j = refl
  merge_from-nil (p ∷ is) i j = refl

  nil-merge_from : (js : List (IntervalPoint T)) (i j : Bool) → merge_from lt [] js i j ≡ []
  unfolding merge_from
  nil-merge_from js i j = refl

  -- The walk along the merged points is inside exactly when both walks are.
  member-merge_from :
      (is js : List (IntervalPoint T)) (i j : Bool) (v : IntervalPoint T)
      → IsAlternating lt i is
      → IsAlternating lt j js
      → member lt (i && j) (merge_from lt is js i j) v ≡ (member lt i is v && member lt j js v)
  member-merge_from [] js i j v hi hj = rw (nil-merge_from js i j, hi)
  member-merge_from (p ∷ is) [] i j v hi hj =
      rw (merge_from-nil (p ∷ is) i j, hj) (and-false i ∙ sym (and-false (member lt i (p ∷ is) v)))
  member-merge_from (p ∷ is) (q ∷ js) i j v hi hj = elim (Bool-cases (point_lt lt q p)) [
    | inl e ↦ rw (merge_from-right p q is js i j e) (
        turn_right lt v i j (member lt i (p ∷ is) v) q (merge_from lt (p ∷ is) js i (not j)) js
          (member-merge_from (p ∷ is) js i (not j) v hi hj.2)
          (λ f. member_after i p q v is ((point_lt-IsStrictWeak lt w).asym q p e) f hi.1))
    | inr e ↦ rw (merge_from-left p q is js i j e) (
        turn_left lt v i j (member lt j (q ∷ js) v) p (merge_from lt is (q ∷ js) (not i) j) is
          (member-merge_from is (q ∷ js) (not i) j v hi.2 hj)
          (λ f. member_after j q p v js e f hj.1))
  ]

  Above-trans :
      (r p : IntervalPoint T) (ps : List (IntervalPoint T))
      → point_lt lt p r ≡ false
      → Above lt p ps
      → Above lt r ps
  Above-trans r p [] h a = tt
  Above-trans r p (q ∷ ps) h a = lt_of_le_of_lt (point_lt-IsStrictWeak lt w) r p q h a

  Above-if :
      (b : Bool) (r p : IntervalPoint T) (ps : List (IntervalPoint T))
      → point_lt lt r p ≡ true
      → Above lt r ps
      → Above lt r (if b then p ∷ ps else ps)
  Above-if true r p ps h a = h
  Above-if false r p ps h a = a

  -- A point before both vectors is before what they merge to.
  Above-merge_from :
      (is js : List (IntervalPoint T)) (i j : Bool) (r : IntervalPoint T)
      → Above lt r is
      → Above lt r js
      → IsAlternating lt i is
      → IsAlternating lt j js
      → Above lt r (merge_from lt is js i j)
  Above-merge_from [] js i j r a b hi hj = rw (nil-merge_from js i j) tt
  Above-merge_from (p ∷ is) [] i j r a b hi hj = rw (merge_from-nil (p ∷ is) i j) tt
  Above-merge_from (p ∷ is) (q ∷ js) i j r a b hi hj = elim (Bool-cases (point_lt lt q p)) [
    | inl e ↦ rw (merge_from-right p q is js i j e) (
        Above-if i r q (merge_from lt (p ∷ is) js i (not j)) b (
          Above-merge_from (p ∷ is) js i (not j) r a
            (Above-trans r q js ((point_lt-IsStrictWeak lt w).asym r q b) hj.1) hi hj.2))
    | inr e ↦ rw (merge_from-left p q is js i j e) (
        Above-if j r p (merge_from lt is (q ∷ js) (not i) j) a (
          Above-merge_from is (q ∷ js) (not i) j r
            (Above-trans r p is ((point_lt-IsStrictWeak lt w).asym r p a) hi.1) b hi.2 hj))
  ]

  -- The same where the right vector's next point may be at `r`: outside the left ranges it is
  -- dropped.
  Above-merge_from_outside :
      (is js : List (IntervalPoint T)) (j : Bool) (q r : IntervalPoint T)
      → Above lt r is
      → point_lt lt q r ≡ false
      → IsAlternating lt false is
      → IsAlternating lt j (q ∷ js)
      → Above lt r (merge_from lt is (q ∷ js) false j)
  Above-merge_from_outside [] js j q r a b hi hj = rw (nil-merge_from (q ∷ js) false j) tt
  Above-merge_from_outside (p ∷ is) js j q r a b hi hj = elim (Bool-cases (point_lt lt q p)) [
    | inl e ↦
        rw (merge_from-right p q is js false j e)
          (Above-merge_from (p ∷ is) js false (not j) r a (Above-trans r q js b hj.1) hi hj.2)
    | inr e ↦
        Above-merge_from (p ∷ is) (q ∷ js) false j r a
          (lt_of_lt_of_le (point_lt-IsStrictWeak lt w) r p q a e) hi hj
  ]

  IsAlternating-right :
      (i j : Bool) (q : IntervalPoint T) (rest : List (IntervalPoint T))
      → IsBound lt j q
      → Above lt q rest
      → IsAlternating lt (i && not j) rest
      → IsAlternating lt (i && j) (if i then q ∷ rest else rest)
  IsAlternating-right true j q rest b a h = (b, a, h)
  IsAlternating-right false j q rest b a h = h

  IsAlternating-left :
      (i j : Bool) (p : IntervalPoint T) (rest : List (IntervalPoint T))
      → IsBound lt i p
      → (j ≡ true → Above lt p rest)
      → IsAlternating lt (not i && j) rest
      → IsAlternating lt (i && j) (if j then p ∷ rest else rest)
  IsAlternating-left true true p rest b a h = (b, a refl, h)
  IsAlternating-left true false p rest b a h = h
  IsAlternating-left false true p rest b a h = (b, a refl, h)
  IsAlternating-left false false p rest b a h = h

  -- A point pushed from the left vector is before what follows it.
  Above-left :
      (is js : List (IntervalPoint T)) (i j : Bool) (p q : IntervalPoint T)
      → point_lt lt q p ≡ false
      → IsAlternating lt i (p ∷ is)
      → IsAlternating lt j (q ∷ js)
      → j ≡ true
      → Above lt p (merge_from lt is (q ∷ js) (not i) j)
  Above-left is js i false p q e hi hj t = cc
  Above-left is js true true p q e hi hj t = Above-merge_from_outside is js true q p hi.1 e hi.2 hj
  Above-left is js false true p q e hi hj t =
      Above-merge_from is (q ∷ js) true true p hi.1 (ground (arith, bounds_split w p q hi.0 hj.0))
        hi.2 hj

  IsAlternating-merge_from :
      (is js : List (IntervalPoint T)) (i j : Bool)
      → IsAlternating lt i is
      → IsAlternating lt j js
      → IsAlternating lt (i && j) (merge_from lt is js i j)
  IsAlternating-merge_from [] js i j hi hj = rw (nil-merge_from js i j, hi)
  IsAlternating-merge_from (p ∷ is) [] i j hi hj =
      rw (merge_from-nil (p ∷ is) i j, hj) (and-false i)
  IsAlternating-merge_from (p ∷ is) (q ∷ js) i j hi hj = elim (Bool-cases (point_lt lt q p)) [
    | inl e ↦ rw (merge_from-right p q is js i j e) (
        IsAlternating-right i j q (merge_from lt (p ∷ is) js i (not j)) hj.0
          (Above-merge_from (p ∷ is) js i (not j) q e hj.1 hi hj.2)
          (IsAlternating-merge_from (p ∷ is) js i (not j) hi hj.2))
    | inr e ↦ rw (merge_from-left p q is js i j e) (
        IsAlternating-left i j p (merge_from lt is (q ∷ js) (not i) j) hi.0
          (Above-left is js i j p q e hi hj)
          (IsAlternating-merge_from is (q ∷ js) (not i) j hi.2 hj))
  ]

  -- The intersection of two valid sets is valid.
  pub intersect-IsValid :
      (ps os : List (IntervalPoint T))
      → IsValid lt ps
      → IsValid lt os
      → IsValid lt (intersect lt ps os)
  unfolding intersect
  intersect-IsValid ps os h k = IsAlternating-merge_from ps os false false h k

  -- A value lies in the intersection of two valid sets exactly when it lies in both.
  pub covers-intersect :
      (ps os : List (IntervalPoint T)) (x : T)
      → IsValid lt ps
      → IsValid lt os
      → covers lt (intersect lt ps os) x ≡ (covers lt ps x && covers lt os x)
  covers-intersect ps os x h k =
      sym (member-covers w (intersect lt ps os) x (intersect-IsValid ps os h k))
      ∙ unfold intersect in
        member-merge_from ps os false false (bound_point x point) h k
        ∙ ap₂ ◌&&◌ (member-covers w ps x h) (member-covers w os x k)
