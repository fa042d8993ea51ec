-- ===== src/Interval/Set/Add.antt =====
-- `IntervalSet::add` of src/cc/warp/interval.h, with `pickLowerBound` and `pickUpperBound`.
-- `none` stands for a failed assertion or an iterator moved out of the vector.
pub mod Shift
pub mod Lowered
pub mod Lower
pub mod Upper
pub mod Adjacent
pub mod Tail
pub mod Laws
use mathlib.Core.Option
use kdi.Common.{
  ℕ, ◌+◌, ◌-◌, Bool, true, false, not, ◌&&◌, Option, none, some, List, [], ◌∷◌, if◌then◌else◌, ◌==◌,
  get_elem?,
}
use kdi.Interval.Point.{IntervalPoint, is_lower_bound, is_upper_bound, is_exclusive, point_lt}
use kdi.Interval.Range.{Interval}
use kdi.Interval.Set.{insert, erase, lower_bound, upper_bound}

-- The point before an iterator; `begin()` has none.
unfoldable pub previous? {ℓ} : {P : Type ℓ} → List P → ℕ → Option P
previous? ps i = if i == 0 then none else get_elem? ps (i - 1)

module _ {ℓ} {T : Type ℓ} (lt : T → T → Bool) where
  -- The choice that `pickLowerBound` makes at the point `p`, which has `other` before it.
  unfoldable pub choose_lower : ℕ → IntervalPoint T → IntervalPoint T → Option ℕ
  choose_lower it p other =
      if is_lower_bound other.type
      then some (it - 1)
      else if is_exclusive p.type && is_exclusive other.type
      then some it
      else if not (lt other.value p.value)
      then (if it - 1 == 0 then none else some (it - 1 - 1))
      else some it

  unfoldable pub pick_lower_bound : List (IntervalPoint T) → ℕ → Option ℕ
  unfolding choose_lower previous?
  pick_lower_bound ps it = elim (get_elem? ps it) [
    | none ↦ none
    | some p ↦
        if not (is_lower_bound p.type)
        then none
        else elim (previous? ps it) [ none ↦ some it | some other ↦ choose_lower it p other ]
  ]

  unfoldable pub choose_upper : ℕ → IntervalPoint T → IntervalPoint T → ℕ
  choose_upper it p other =
      if is_upper_bound other.type
      then it + 1
      else if is_exclusive p.type && is_exclusive other.type
      then it
      else if not (lt p.value other.value)
      then it + 1 + 1
      else it

  unfoldable pub pick_upper_bound : List (IntervalPoint T) → ℕ → Option ℕ
  unfolding choose_upper
  pick_upper_bound ps it = elim (get_elem? ps it) [
    | none ↦ none
    | some p ↦
        if not (is_upper_bound p.type)
        then none
        else some
            (elim (get_elem? ps (it + 1)) [ none ↦ it | some other ↦ choose_upper it p other ])
  ]

  -- The vector and the iterator after a bound is inserted.
  unfoldable pub insert_lower :
      List (IntervalPoint T) → ℕ → IntervalPoint T → Option (List (IntervalPoint T) × ℕ)
  unfolding pick_lower_bound
  insert_lower ps it l =
      let qs = insert ps it l in Option.map (λ i. (qs, i)) (pick_lower_bound qs it)

  unfoldable pub insert_upper :
      List (IntervalPoint T) → ℕ → IntervalPoint T → Option (List (IntervalPoint T) × ℕ)
  unfolding pick_upper_bound
  insert_upper ps it u =
      let qs = insert ps it u in Option.map (λ i. (qs, i)) (pick_upper_bound qs it)

  unfoldable pub add_lower :
      List (IntervalPoint T) → IntervalPoint T → Option (List (IntervalPoint T) × ℕ)
  unfolding insert_lower lower_bound
  add_lower ps l =
      let lower = lower_bound lt ps l in
      elim (get_elem? ps lower) [
        | none ↦ insert_lower ps lower l
        | some p ↦ if point_lt lt l p then insert_lower ps lower l else some (ps, lower)
      ]

  unfoldable pub add_upper :
      List (IntervalPoint T) → IntervalPoint T → Option (List (IntervalPoint T) × ℕ)
  unfolding insert_upper upper_bound previous?
  add_upper ps u =
      let upper = upper_bound lt ps u in
      elim (get_elem? ps upper) [
        | none ↦ insert_upper ps upper u
        | some _ ↦ elim (previous? ps upper) [
          | none ↦ none
          | some p ↦ if point_lt lt p u then insert_upper ps upper u else some (ps, upper)
        ]
      ]

  unfoldable pub add : List (IntervalPoint T) → Interval T → Option (List (IntervalPoint T))
  unfolding add_lower add_upper erase
  add ps x =
      if not (point_lt lt x.lower_bound x.upper_bound)
      then some ps
      else elim (add_lower ps x.lower_bound) [
        | none ↦ none
        | some (qs, lower) ↦ elim (add_upper qs x.upper_bound) [
          | none ↦ none
          | some (rs, upper) ↦ some (if lower + 1 == upper then rs else erase rs (lower + 1) upper)
        ]
      ]
