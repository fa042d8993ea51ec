-- ===== src/Interval/Set/Add/Shift.antt =====
-- `IntervalSet::add` two points further on: the iterators move along.
use mathlib.Core.Option
use kdi.Common.{
  ℕ, suc, ◌-◌, ◌≡◌, refl, Bool, true, some, List, ◌∷◌, arith, Option-cases, inl, inr, get_elem?,
}
use kdi.Interval.Point.{IntervalPoint, point_lt}
use kdi.Interval.Set.{insert, lower_bound}
use kdi.Interval.Set.Add.{previous?, choose_lower, pick_lower_bound, insert_lower, add_lower}

module _ {ℓ} {T : Type ℓ} (lt : T → T → Bool) where
  choose_lower-shift :
      (k i : ℕ) (p q : IntervalPoint T)
      → choose_lower lt (suc k) p q ≡ some i
      → choose_lower lt (suc (suc (suc k))) p q ≡ some (suc (suc i))
  unfolding choose_lower
  choose_lower-shift k i p q h = ground arith

  previous?-suc : (qs : List (IntervalPoint T)) (k : ℕ) → previous? qs (suc k) ≡ get_elem? qs k
  unfolding previous?
  previous?-suc qs k = let e : suc k - 1 ≡ k = omega arith in rw e (ground arith)

  pick_lower_bound-shift :
      (qs : List (IntervalPoint T)) (k i : ℕ) (a b : IntervalPoint T)
      → pick_lower_bound lt qs (suc k) ≡ some i
      → pick_lower_bound lt (a ∷ b ∷ qs) (suc (suc (suc k))) ≡ some (suc (suc i))
  unfolding pick_lower_bound
  pick_lower_bound-shift qs k i a b h = elim (Option-cases (get_elem? qs (suc k))) [
    | inl e ↦ absurd (ground arith)
    | inr (p, e) ↦ elim (Option-cases (get_elem? qs k)) [
      | inl f ↦ ground (arith, previous?-suc qs k, previous?-suc (a ∷ b ∷ qs) (suc (suc k)))
      | inr (q, f) ↦ ground (
        arith,
        previous?-suc qs k,
        previous?-suc (a ∷ b ∷ qs) (suc (suc k)),
        choose_lower-shift k i p q,
      )
    ]
  ]

  pub insert_lower_lem :
      (ps : List (IntervalPoint T)) (k : ℕ) (l : IntervalPoint T)
      → insert_lower lt ps k l
        ≡ Option.map (λ i. (insert ps k l, i)) (pick_lower_bound lt (insert ps k l) k)
  unfolding insert_lower
  insert_lower_lem ps k l = refl

  insert-shift :
      (ps : List (IntervalPoint T)) (k : ℕ) (a b l : IntervalPoint T)
      → insert (a ∷ b ∷ ps) (suc (suc k)) l ≡ a ∷ b ∷ insert ps k l
  unfolding insert
  insert-shift ps k a b l = refl

  insert_lower-shift :
      (ps qs : List (IntervalPoint T)) (k i : ℕ) (a b l : IntervalPoint T)
      → insert_lower lt ps (suc k) l ≡ some (qs, i)
      → insert_lower lt (a ∷ b ∷ ps) (suc (suc (suc k))) l ≡ some (a ∷ b ∷ qs, suc (suc i))
  insert_lower-shift ps qs k i a b l h =
      elim (Option-cases (pick_lower_bound lt (insert ps (suc k) l) (suc k))) [
        | inl e ↦ let h' = rw (insert_lower_lem ps (suc k) l, e) at h in cc
        | inr (j, e) ↦
            let h' = rw (insert_lower_lem ps (suc k) l, e) at h in
            rw
              (
                insert_lower_lem (a ∷ b ∷ ps) (suc (suc (suc k))) l,
                insert-shift ps (suc k) a b l,
                pick_lower_bound-shift (insert ps (suc k) l) k j a b e,
              )
              (ground arith)
      ]

  pub add_lower-shift :
      (ps qs : List (IntervalPoint T)) (k i : ℕ) (a b l : IntervalPoint T)
      → point_lt lt a l ≡ true
      → point_lt lt b l ≡ true
      → lower_bound lt ps l ≡ suc k
      → add_lower lt ps l ≡ some (qs, i)
      → add_lower lt (a ∷ b ∷ ps) l ≡ some (a ∷ b ∷ qs, suc (suc i))
  unfolding add_lower
  add_lower-shift ps qs k i a b l h n e f = elim (Option-cases (get_elem? ps (suc k))) [
    | inl g ↦ ground (arith, insert_lower-shift ps qs k i a b l)
    | inr (p, g) ↦ ground (arith, insert_lower-shift ps qs k i a b l)
  ]
