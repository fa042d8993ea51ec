-- ===== src/Interval/Set/Add/Upper.antt =====
-- The upper bound in `IntervalSet::add`: where it goes, and what is left after it.
use mathlib.Core.Option
use kdi.Common.{
  ℕ, suc, ◌≤◌, ◌≡◌, refl, ap, sym, ◌∙◌, Bool, true, false, not, ◌&&◌, ◌||◌, if◌then◌else◌, none,
  some, List, [], ◌∷◌, arith, Bool-cases, inl, inr, ◌⊎◌, length, take, drop, get_elem?,
}
use kdi.Interval.Point.{IntervalPoint, is_upper_bound, is_exclusive, point_lt}
use kdi.Interval.Set.{insert, upper_bound}
use kdi.Interval.Set.Vector.{
  drop-insert, drop-insert_after, get_elem?-insert, get_elem?-insert_next, take-insert_before,
  get_elem?-drop,
}
use kdi.Interval.Set.Clip.{upper_bound-le}
use kdi.Interval.Set.Add.{choose_upper, pick_upper_bound, insert_upper, add_upper}

module _ {ℓ} {T : Type ℓ} (lt : T → T → Bool) where
  -- A point that is not the last one stands where `u` is.
  abbrev pub ties : List (IntervalPoint T) → IntervalPoint T → Bool
  ties [] u = false
  ties (p ∷ []) u = false
  ties (p ∷ q ∷ ps) u = not (point_lt lt p u || point_lt lt u p) || ties (q ∷ ps) u

  -- What stands after the erased points: the bound `u`, or the upper bound that it merges with.
  unfoldable pub tail_part : IntervalPoint T → List (IntervalPoint T) → List (IntervalPoint T)
  tail_part u [] = u ∷ []
  tail_part u (c ∷ cs) =
      if is_upper_bound c.type
      then c ∷ cs
      else if is_exclusive u.type && is_exclusive c.type
      then u ∷ c ∷ cs
      else if not (lt u.value c.value)
      then cs
      else u ∷ c ∷ cs

  -- The point before the iterator of `upper_bound` is before `u`, if no point but the last ties.
  previous-lt :
      (qs : List (IntervalPoint T)) (u p : IntervalPoint T)
      → point_lt lt u p ≡ false
      → ties (p ∷ qs) u ≡ false
      → (r : IntervalPoint T) × (get_elem? (p ∷ qs) (upper_bound lt qs u) ≡ some r)
        × ((point_lt lt r u ≡ true) ⊎ (get_elem? (p ∷ qs) (suc (upper_bound lt qs u)) ≡ none))
  unfolding upper_bound
  previous-lt [] u p h t = (p, refl, inr refl)
  previous-lt (q ∷ qs) u p h t = elim (Bool-cases (point_lt lt u q)) [
    | inl e ↦ rw e (p, refl, inl (ground arith))
    | inr e ↦ rw e (previous-lt qs u q e (ground arith))
  ]

module _ {ℓ} {T : Type ℓ} (lt : T → T → Bool) where
  -- What the stage of the upper bound leaves: the iterator stands before `tail_part`, and nothing
  -- before the place of the bound has changed.
  pub record IsUppered (qs : List (IntervalPoint T)) (u : IntervalPoint T)
      (rs : List (IntervalPoint T)) (j : ℕ) : Type ℓ where
    pub found : add_upper lt qs u ≡ some (rs, j)
    pub after : drop j rs ≡ tail_part lt u (drop (upper_bound lt qs u) qs)
    pub before : (n : ℕ) → n ≤ upper_bound lt qs u → take n rs ≡ take n qs
    pub beyond : upper_bound lt qs u ≤ j

  pick_upper_bound-insert :
      (qs : List (IntervalPoint T)) (k : ℕ) (u : IntervalPoint T)
      → k ≤ length qs
      → is_upper_bound u.type ≡ true
      → pick_upper_bound lt (insert qs k u) k
        ≡ some (elim (get_elem? (drop k qs) 0) [ none ↦ k | some c ↦ choose_upper lt k u c ])
  unfolding pick_upper_bound
  pick_upper_bound-insert qs k u h up = rw (
    get_elem?-insert qs k u h,
    up,
    get_elem?-insert_next qs k u h,
    get_elem?-drop qs k,
    pick_upper_bound,
  )

  insert_upper-pick :
      (qs : List (IntervalPoint T)) (k : ℕ) (u : IntervalPoint T)
      → k ≤ length qs
      → is_upper_bound u.type ≡ true
      → insert_upper lt qs k u
        ≡ some (
          insert qs k u,
          elim (get_elem? (drop k qs) 0) [ none ↦ k | some c ↦ choose_upper lt k u c ],
        )
  unfolding insert_upper
  insert_upper-pick qs k u h up =
      ap (Option.map (λ i. (insert qs k u, i))) (pick_upper_bound-insert qs k u h up)

  drop_choose :
      (qs : List (IntervalPoint T)) (k : ℕ) (u c : IntervalPoint T) (cs : List (IntervalPoint T))
      → k ≤ length qs
      → drop k qs ≡ c ∷ cs
      → (drop (choose_upper lt k u c) (insert qs k u) ≡ tail_part lt u (c ∷ cs))
        × (k ≤ choose_upper lt k u c)
  unfolding choose_upper tail_part
  drop_choose qs k u c cs h e =
      ground
        (arith, drop-insert qs k u h, drop-insert_after qs k 0 u h, drop-insert_after qs k 1 u h)

  insert_upper_lem :
      (qs : List (IntervalPoint T)) (k : ℕ) (u : IntervalPoint T) (ds : List (IntervalPoint T))
      → k ≤ length qs
      → is_upper_bound u.type ≡ true
      → drop k qs ≡ ds
      → (j : ℕ) × (insert_upper lt qs k u ≡ some (insert qs k u, j))
        × (drop j (insert qs k u) ≡ tail_part lt u ds)
        × (k ≤ j)
  insert_upper_lem qs k u [] h up e = (
    k,
    rw (insert_upper-pick qs k u h up, e),
    unfold tail_part in (drop-insert qs k u h ∙ ap (◌∷◌ u) e),
    omega arith,
  )
  insert_upper_lem qs k u (c ∷ cs) h up e =
      let (dropped, further) = drop_choose qs k u c cs h e in
      (choose_upper lt k u c, rw (insert_upper-pick qs k u h up, e), dropped, further)

  upper_bound-suc :
      (u p : IntervalPoint T) (ps : List (IntervalPoint T))
      → point_lt lt u p ≡ false
      → upper_bound lt (p ∷ ps) u ≡ suc (upper_bound lt ps u)
  unfolding upper_bound
  upper_bound-suc u p ps h = rw h

  add_upper-insert :
      (ps : List (IntervalPoint T)) (u p : IntervalPoint T)
      → point_lt lt u p ≡ false
      → ties lt (p ∷ ps) u ≡ false
      → add_upper lt (p ∷ ps) u ≡ insert_upper lt (p ∷ ps) (suc (upper_bound lt ps u)) u
  unfolding add_upper
  add_upper-insert ps u p h t =
      let (r, found, near) = previous-lt lt ps u p h t in ground (arith, upper_bound-suc u p ps h)

  -- With no tie at a point but the last, the bound is inserted and the right points are dropped.
  pub add_upper-IsUppered :
      (ps : List (IntervalPoint T)) (u p : IntervalPoint T)
      → point_lt lt u p ≡ false
      → ties lt (p ∷ ps) u ≡ false
      → is_upper_bound u.type ≡ true
      → (rs : List (IntervalPoint T)) × (j : ℕ) × IsUppered (p ∷ ps) u rs j
  add_upper-IsUppered ps u p h t up =
      let k = upper_bound lt (p ∷ ps) u in
      let (j, found, after, beyond) =
        insert_upper_lem (p ∷ ps) k u (drop k (p ∷ ps)) (upper_bound-le lt (p ∷ ps) u) up refl in
      (
        insert (p ∷ ps) k u,
        j,
        record {
          found =
              add_upper-insert ps u p h t
              ∙ ap (λ i. insert_upper lt (p ∷ ps) i u) (sym (upper_bound-suc u p ps h))
              ∙ found;
          after = after;
          before = λ n e. take-insert_before (p ∷ ps) k n u e (upper_bound-le lt (p ∷ ps) u);
          beyond = beyond;
        },
      )
