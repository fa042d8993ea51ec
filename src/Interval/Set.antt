-- ===== src/Interval/Set.antt =====
-- `IntervalSet` of src/cc/warp/interval.h: a sorted vector of endpoints. The vector is a list, an
-- iterator is the index that it points to, and `end()` is the length.
pub mod Inv
pub mod Query
pub mod Vector
pub mod Add
pub mod Clip
pub mod Intersect
pub mod Hull
use kdi.Common.{
  ℕ, suc, zero, ◌+◌, ◌-◌, Bool, true, false, not, ◌&&◌, ◌||◌, Option, none, some, List, [], ◌∷◌,
  ◌++◌, if◌then◌else◌, ◌==◌, length, get_elem?, take, drop,
}
use kdi.Interval.Point.{
  IntervalPoint, point, is_lower_bound, is_upper_bound, is_infinite, is_exclusive, point_lt,
}
use kdi.Interval.Range.{Interval, bound_point, default_interval, set_empty, make}

module _ {ℓ} {P : Type ℓ} where
  -- `vector::insert` before the iterator, and `vector::erase` of a range.
  unfoldable pub insert : List P → ℕ → P → List P
  insert ps i x = take i ps ++ (x ∷ drop i ps)

  unfoldable pub erase : List P → ℕ → ℕ → List P
  erase ps i j = take i ps ++ drop j ps

module _ {ℓ} {T : Type ℓ} where
  unfoldable pub is_in_range : List (IntervalPoint T) → ℕ → Bool
  unfolding is_upper_bound
  is_in_range ps i = elim (get_elem? ps i) [ none ↦ false | some p ↦ is_upper_bound p.type ]

  unfoldable pub is_empty_set : List (IntervalPoint T) → Bool
  is_empty_set [] = true
  is_empty_set (p ∷ ps) = false

  unfoldable pub is_infinite_set : List (IntervalPoint T) → Bool
  unfolding is_infinite
  is_infinite_set (p ∷ q ∷ ps) = is_infinite p.type && is_infinite q.type
  is_infinite_set _ = false

  unfoldable pub last_or : IntervalPoint T → List (IntervalPoint T) → IntervalPoint T
  last_or p [] = p
  last_or p (q ∷ ps) = last_or q ps

  -- `T()` is the default value. The result is `none` where the constructor of `Interval` raises.
  unfoldable pub get_hull : T → List (IntervalPoint T) → Option (Interval T)
  unfolding last_or make set_empty default_interval
  get_hull default [] = some (set_empty default (default_interval default))
  get_hull default (p ∷ ps) = make p (last_or p ps)

module _ {ℓ} {T : Type ℓ} (lt : T → T → Bool) where
  -- `std::lower_bound`: the first index whose point is not before `x`.
  unfoldable pub lower_bound : List (IntervalPoint T) → IntervalPoint T → ℕ
  lower_bound [] x = 0
  lower_bound (p ∷ ps) x = if point_lt lt p x then suc (lower_bound ps x) else 0

  -- `std::upper_bound`: the first index whose point is after `x`.
  unfoldable pub upper_bound : List (IntervalPoint T) → IntervalPoint T → ℕ
  upper_bound [] x = 0
  upper_bound (p ∷ ps) x = if point_lt lt x p then 0 else suc (upper_bound ps x)

  unfoldable pub contains : List (IntervalPoint T) → T → Bool
  unfolding is_in_range lower_bound
  contains ps x = is_in_range ps (lower_bound ps (bound_point x point))

  unfoldable pub contains_range : List (IntervalPoint T) → Interval T → Bool
  contains_range ps x =
      if not (point_lt lt x.lower_bound x.upper_bound)
      then false
      else let lo = upper_bound ps x.lower_bound in
        let hi = lower_bound ps x.upper_bound in (lo == hi) && is_in_range ps lo

  unfoldable pub overlaps_range : List (IntervalPoint T) → Interval T → Bool
  overlaps_range ps x =
      if not (point_lt lt x.lower_bound x.upper_bound)
      then false
      else let lo = upper_bound ps x.lower_bound in
        let hi = lower_bound ps x.upper_bound in not (lo == hi) || is_in_range ps lo

  -- The two halves of `clip`, each with its own iterator.
  unfoldable pub clip_below : List (IntervalPoint T) → IntervalPoint T → List (IntervalPoint T)
  clip_below ps l =
      let lower = lower_bound ps l in
      let grown = if is_in_range ps lower then insert ps lower l else ps in erase grown 0 lower

  unfoldable pub clip_above : List (IntervalPoint T) → IntervalPoint T → List (IntervalPoint T)
  clip_above ps u =
      let upper = upper_bound ps u in
      if is_in_range ps upper
      then (let grown = insert ps upper u in erase grown (upper + 1) (length grown))
      else erase ps upper (length ps)

  unfoldable pub clip : List (IntervalPoint T) → Interval T → List (IntervalPoint T)
  unfolding clip_below clip_above
  clip ps x =
      if not (point_lt lt x.lower_bound x.upper_bound)
      then []
      else clip_above (clip_below ps x.lower_bound) x.upper_bound

  -- The loop of `intersect`: what is left of the two vectors, and the flags `inI` and `inJ`.
  unfoldable pub merge_from :
      List (IntervalPoint T) → List (IntervalPoint T) → Bool → Bool → List (IntervalPoint T)
  merge_from [] js in_i in_j = []
  merge_from (p ∷ is) [] in_i in_j = []
  merge_from (p ∷ is) (q ∷ js) in_i in_j = elim (point_lt lt q p) [
    | true ↦ let rest = merge_from (p ∷ is) js in_i (not in_j) in if in_i then q ∷ rest else rest
    | false ↦ let rest = merge_from is (q ∷ js) (not in_i) in_j in if in_j then p ∷ rest else rest
  ]

  unfoldable pub intersect :
      List (IntervalPoint T) → List (IntervalPoint T) → List (IntervalPoint T)
  unfolding merge_from
  intersect ps os = merge_from ps os false false
