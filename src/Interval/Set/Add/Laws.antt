-- ===== src/Interval/Set/Add/Laws.antt =====
-- `IntervalSet::add` yields the union with the interval, as a valid set, when the interval's upper
-- bound is at no endpoint of the set but the last. When it is at another one the result is no
-- valid set.
use native.Mathlib.Numerals.{add-one}
use kdi.Common.{
  ℕ, suc, ◌+◌, ◌≡◌, ap, ap₂, sym, ◌∙◌, Bool, true, false, ◌&&◌, ◌||◌, if◌then◌else◌, some, List,
  ◌∷◌, ◌++◌, arith, Bool-cases, inl, inr, take, drop, ◌==◌,
}
use kdi.Interval.Point.{IntervalPoint, point, is_lower_bound, is_upper_bound, point_lt}
use kdi.Interval.Order.{IsStrictWeak, point_lt-IsStrictWeak, lt_trans, lt_of_le_of_lt}
use kdi.Interval.Range.{Interval, bound_point, contains_value}
use kdi.Interval.Set.{erase, upper_bound}
use kdi.Interval.Set.Inv.{IsValid, covers, member, member-covers, contains_value_lem, value_before}
use kdi.Interval.Set.Vector.{take-append-drop}
use kdi.Interval.Set.Add.{add_lower, add_upper, add}
use kdi.Interval.Set.Add.Lower.{lowering}
use kdi.Interval.Set.Add.Upper.{ties, tail_part, IsUppered, add_upper-IsUppered}
use kdi.Interval.Set.Add.Tail.{IsTail, tail_part-IsTail, inside_at, drop-IsAlternating, member-drop}

or-false : (b : Bool) → b ≡ (b || false)
or-false b = ground arith

or-true_right : (b : Bool) → true ≡ (b || true)
or-true_right b = ground arith

-- `if(++lower != upper) points.erase(lower, upper)`
erase_between {ℓ} :
    {A : Type ℓ} (rs : List A) (i j : ℕ)
    → (if i + 1 == j then rs else erase rs (i + 1) j) ≡ take (suc i) rs ++ drop j rs
unfolding erase
erase_between rs i j = elim (Bool-cases (i + 1 == j)) [
  | inl e ↦ rw e (
      sym (rw (add-one i) at (take-append-drop (i + 1) rs))
      ∙ ap (λ k. take (suc i) rs ++ drop k rs) {x = suc i} (ground arith))
  | inr e ↦ rw (e, add-one)
]

module _ {ℓ} {T : Type ℓ} {lt : T → T → Bool} (w : IsStrictWeak lt) where
  add-found :
      (ps qs rs : List (IntervalPoint T)) (i j : ℕ) (x : Interval T)
      → point_lt lt x.lower_bound x.upper_bound ≡ true
      → add_lower lt ps x.lower_bound ≡ some (qs, i)
      → add_upper lt qs x.upper_bound ≡ some (rs, j)
      → add lt ps x ≡ some (take (suc i) rs ++ drop j rs)
  unfolding add
  add-found ps qs rs i j x k f g =
      let e : add lt ps x ≡ some (if i + 1 == j then rs else erase rs (i + 1) j) = ground arith in
      e ∙ ap some (erase_between rs i j)

  uppering :
      (qs rest : List (IntervalPoint T)) (u p : IntervalPoint T)
      → qs ≡ p ∷ rest
      → point_lt lt u p ≡ false
      → ties lt qs u ≡ false
      → is_upper_bound u.type ≡ true
      → (rs : List (IntervalPoint T)) × (j : ℕ) × IsUppered lt qs u rs j
  uppering qs rest u p e h t up = rw e (add_upper-IsUppered lt rest u p h (rw e at t) up)

  module _ (ps : List (IntervalPoint T)) (x : Interval T) (h : IsValid lt ps)
      (lower : is_lower_bound x.lower_bound.type ≡ true)
      (upper : is_upper_bound x.upper_bound.type ≡ true) where
    -- What `add` leaves of a valid set: the points up to the merged lower bound, then the tail.
    kept_points : List (IntervalPoint T)
    kept_points = let low = lowering w ps x.lower_bound lower h in take (suc low.kept) low.points

    tail_points : List (IntervalPoint T)
    tail_points = tail_part lt x.upper_bound (drop (upper_bound lt ps x.upper_bound) ps)

    add-points :
        point_lt lt x.lower_bound x.upper_bound ≡ true
        → ties lt ps x.upper_bound ≡ false
        → add lt ps x ≡ some (kept_points ++ tail_points)
    unfolding kept_points tail_points
    add-points k t =
        let low = lowering w ps x.lower_bound lower h in
        let (p, rest, e, b) = low.lowered.first x.upper_bound k in
        let (rs, j, up) =
          uppering low.points rest x.upper_bound p e b (low.lowered.untied x.upper_bound k t)
            upper in
        add-found ps low.points rs low.kept j x k low.found up.found
        ∙ ap₂ (λ front back. some (front ++ back))
            (up.before (suc low.kept) (low.lowered.within x.upper_bound k))
            (up.after ∙ ap (tail_part lt x.upper_bound) (low.lowered.rest x.upper_bound k))

    tail_points-IsTail :
        IsTail w
          (inside_at lt false ps x.upper_bound)
          (drop (upper_bound lt ps x.upper_bound) ps)
          tail_points
          x.upper_bound
    unfolding tail_points
    tail_points-IsTail =
        let (alternates, above) = drop-IsAlternating w false ps x.upper_bound h in
        tail_part-IsTail w (inside_at lt false ps x.upper_bound)
          (drop (upper_bound lt ps x.upper_bound) ps) x.upper_bound upper alternates above

    kept-IsValid :
        point_lt lt x.lower_bound x.upper_bound ≡ true → IsValid lt (kept_points ++ tail_points)
    unfolding kept_points
    kept-IsValid k =
        (lowering w ps x.lower_bound lower h).lowered.valid tail_points
          tail_points-IsTail.alternates (tail_points-IsTail.above x.lower_bound k)

    member-kept :
        (v : T)
        → point_lt lt x.lower_bound x.upper_bound ≡ true
        → member lt false (kept_points ++ tail_points) (bound_point v point) ≡ (
            member lt false ps (bound_point v point)
            || (point_lt lt x.lower_bound (bound_point v point)
                && point_lt lt (bound_point v point) x.upper_bound))
    unfolding kept_points
    member-kept v k =
        let low = (lowering w ps x.lower_bound lower h).lowered in
        let o = point_lt-IsStrictWeak lt w in
        elim (Bool-cases (point_lt lt x.lower_bound (bound_point v point))) [
          | inl e ↦
              rw (low.after tail_points (bound_point v point) e, e)
                (elim (Bool-cases (point_lt lt x.upper_bound (bound_point v point))) [
                  | inl f ↦ rw (o.asym x.upper_bound (bound_point v point) f) (
                      tail_points-IsTail.after v f
                      ∙ sym (member-drop w false ps x.upper_bound (bound_point v point) f)
                      ∙ or-false (member lt false ps (bound_point v point)))
                  | inr f ↦
                      rw
                        (
                          value_before w true x.upper_bound v upper f,
                          tail_points-IsTail.at_or_before (bound_point v point) f,
                        )
                        (or-true_right (member lt false ps (bound_point v point)))
                ])
          | inr e ↦ rw e (
              low.before tail_points v
                (tail_points-IsTail.at_or_before (bound_point v point) (
                  o.asym (bound_point v point) x.upper_bound
                    (lt_of_le_of_lt o (bound_point v point) x.lower_bound x.upper_bound e k)))
                e
              ∙ or-false (member lt false ps (bound_point v point)))
        ]

    -- With an upper bound at no endpoint but the last, `add` succeeds; the new set is valid, and a
    -- value lies in it exactly when it lies in the old set or in the interval.
    pub add_union :
        ties lt ps x.upper_bound ≡ false
        → (qs : List (IntervalPoint T)) × (add lt ps x ≡ some qs)
          × IsValid lt qs
          × ((v : T) → covers lt qs v ≡ (covers lt ps v || contains_value lt x v))
    add_union t = elim (Bool-cases (point_lt lt x.lower_bound x.upper_bound)) [
      | inl k ↦ (
        kept_points ++ tail_points,
        add-points k t,
        kept-IsValid k,
        λ v.
            sym (member-covers w (kept_points ++ tail_points) v (kept-IsValid k))
            ∙ member-kept v k
            ∙ ap₂ ◌||◌ (member-covers w ps v h) (sym (contains_value_lem w x v)),
      )
      | inr k ↦ (
        ps,
        unfold add in rw k,
        h,
        λ v. rw (contains_value_lem w x v) (
            ground (
              arith,
              lt_trans (point_lt-IsStrictWeak lt w) x.lower_bound (bound_point v point)
                  x.upper_bound,
            )),
      )
    ]
