-- ===== src/Interval/Order.antt =====
-- The order of interval endpoints is a strict weak order if that of the values is one.
use kdi.Common.{ℕ, ◌≡◌, refl, Bool, true, false, ◌||◌, if◌then◌else◌, ltb, arith}
use kdi.Interval.Point.{
  PointType, infinite_lower_bound, exclusive_upper_bound, inclusive_lower_bound, point,
  inclusive_upper_bound, exclusive_lower_bound, infinite_upper_bound, IntervalPoint, is_less,
  point_lt,
}

-- What the standard library asks of a comparison functor.
pub record IsStrictWeak {ℓ} {A : Type ℓ} (lt : A → A → Bool) : Type ℓ where
  pub asym : (a b : A) → lt a b ≡ true → lt b a ≡ false
  pub cotrans : (a b c : A) → lt a c ≡ true → (lt a b || lt b c) ≡ true

-- Where an endpoint stands: below every value, at its value with a rank, or above every value.
data Place : Type 0 where
  low : Place
  at : ℕ → Place
  high : Place

place : PointType → Place
place infinite_lower_bound = low
place exclusive_upper_bound = at 1
place inclusive_lower_bound = at 2
place point = at 3
place inclusive_upper_bound = at 4
place exclusive_lower_bound = at 5
place infinite_upper_bound = high

module _ {ℓ} {T : Type ℓ} (lt : T → T → Bool) where
  place_lt : T → Place → T → Place → Bool
  place_lt a low b low = false
  place_lt a low b q = true
  place_lt a high b q = false
  place_lt a (at m) b low = false
  place_lt a (at m) b (at n) = if lt a b then true else if lt b a then false else ltb m n
  place_lt a (at m) b high = true

  is_less-place_lt :
      (a : T) (p : PointType) (b : T) (q : PointType)
      → is_less lt a p b q ≡ place_lt a (place p) b (place q)
  unfolding is_less place_lt place
  is_less-place_lt a infinite_lower_bound b infinite_lower_bound = refl
  is_less-place_lt a infinite_lower_bound b point = refl
  is_less-place_lt a infinite_lower_bound b _ = refl
  is_less-place_lt a infinite_upper_bound b point = refl
  is_less-place_lt a infinite_upper_bound b _ = refl
  is_less-place_lt a _ b infinite_lower_bound = refl
  is_less-place_lt a _ b point = refl
  is_less-place_lt a _ b infinite_upper_bound = refl
  is_less-place_lt a _ b _ = refl

  module _ (w : IsStrictWeak lt) where
    place_lt_asym :
        (a : T) (p : Place) (b : T) (q : Place) → place_lt a p b q ≡ true → place_lt b q a p ≡ false
    unfolding place_lt
    place_lt_asym a low b low h = refl
    place_lt_asym a low b (at n) h = refl
    place_lt_asym a low b high h = refl
    place_lt_asym a (at m) b low h = ground arith
    place_lt_asym a (at m) b (at n) h = ground (arith, w.asym a b, w.asym b a)
    place_lt_asym a (at m) b high h = refl
    place_lt_asym a high b _ h = ground arith

    place_lt_cotrans :
        (a : T) (p : Place) (b : T) (q : Place) (c : T) (r : Place)
        → place_lt a p c r ≡ true
        → (place_lt a p b q || place_lt b q c r) ≡ true
    unfolding place_lt
    place_lt_cotrans a low b low c r h = h
    place_lt_cotrans a low b (at n) c r h = refl
    place_lt_cotrans a low b high c r h = refl
    place_lt_cotrans a high b q c r h = ground arith
    place_lt_cotrans a (at m) b low c low h = ground arith
    place_lt_cotrans a (at m) b low c (at k) h = refl
    place_lt_cotrans a (at m) b low c high h = refl
    place_lt_cotrans a (at m) b (at n) c low h = ground arith
    place_lt_cotrans a (at m) b (at n) c (at k) h = ground (
      arith,
      w.cotrans a b c,
      w.cotrans b c a,
      w.cotrans c a b,
      w.cotrans b a c,
      w.cotrans a c b,
      w.cotrans c b a,
      w.asym a b,
      w.asym b c,
      w.asym a c,
    )
    place_lt_cotrans a (at m) b (at n) c high h = ground arith
    place_lt_cotrans a (at m) b high c r h = refl

    -- The point order is a strict weak order, infinite points included.
    pub point_lt-IsStrictWeak : IsStrictWeak (point_lt lt)
    unfolding point_lt
    point_lt-IsStrictWeak = record {
      asym = λ a b h. place_asym a b h;
      cotrans = λ a b c h. place_cotrans a b c h;
    }
      where
        place_asym : (a b : IntervalPoint T) → point_lt lt a b ≡ true → point_lt lt b a ≡ false
        place_asym a b h = rw (is_less-place_lt b.value b.type a.value a.type) (
            place_lt_asym a.value (place a.type) b.value (place b.type)
              (rw (is_less-place_lt a.value a.type b.value b.type) at h))

        place_cotrans :
            (a b c : IntervalPoint T)
            → point_lt lt a c ≡ true
            → (point_lt lt a b || point_lt lt b c) ≡ true
        place_cotrans a b c h =
            rw
              (
                is_less-place_lt a.value a.type b.value b.type,
                is_less-place_lt b.value b.type c.value c.type,
              )
              (place_lt_cotrans a.value (place a.type) b.value (place b.type) c.value (place c.type)
                (rw (is_less-place_lt a.value a.type c.value c.type) at h))

-- What follows from the two laws. `lt b a ≡ false` reads "a is at most b".
module _ {ℓ} {A : Type ℓ} {lt : A → A → Bool} (w : IsStrictWeak lt) where
  pub lt_irrefl : (a : A) → lt a a ≡ false
  lt_irrefl a = ground (arith, w.asym a a)

  pub lt_of_le_of_lt : (a b c : A) → lt b a ≡ false → lt b c ≡ true → lt a c ≡ true
  lt_of_le_of_lt a b c h k = ground (arith, w.cotrans b a c)

  pub lt_of_lt_of_le : (a b c : A) → lt a b ≡ true → lt c b ≡ false → lt a c ≡ true
  lt_of_lt_of_le a b c h k = ground (arith, w.cotrans a c b)

  pub lt_trans : (a b c : A) → lt a b ≡ true → lt b c ≡ true → lt a c ≡ true
  lt_trans a b c h k = lt_of_le_of_lt a b c (w.asym a b h) k

  pub le_trans : (a b c : A) → lt b a ≡ false → lt c b ≡ false → lt c a ≡ false
  le_trans a b c h k = ground (arith, w.cotrans c b a)
