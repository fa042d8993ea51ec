-- ===== src/Interval/Set/Add/Lower.antt =====
-- The lower bound in `IntervalSet::add`: where it goes, and the iterator that is kept.

use kdi.Common.{
  ℕ, suc, ◌≡◌, ◌∙◌, Bool, true, false, not, ◌&&◌, if◌then◌else◌, some, List, [], ◌∷◌, arith,
  Bool-cases, inl, inr,
}
use kdi.Interval.Point.{IntervalPoint, is_lower_bound, is_upper_bound, is_exclusive, point_lt}
use kdi.Interval.Order.{IsStrictWeak, point_lt-IsStrictWeak}
use kdi.Interval.Set.{insert, lower_bound}
use kdi.Interval.Set.Inv.{Above, IsValid, bounds_split, not_lower_of_upper}
use kdi.Interval.Set.Add.{insert_lower, add_lower}
use kdi.Interval.Set.Add.Shift.{add_lower-shift}
use kdi.Interval.Set.Add.Lowered.{
  IsLowered, IsLowered-front, IsLowered-same, IsLowered-inside, IsLowered-meet, IsLowered-skip,
}

module _ {ℓ} {T : Type ℓ} {lt : T → T → Bool} (w : IsStrictWeak lt) where
  o : IsStrictWeak (point_lt lt)
  o = point_lt-IsStrictWeak lt w

  insert_lower-front :
      (ps : List (IntervalPoint T)) (l : IntervalPoint T)
      → is_lower_bound l.type ≡ true
      → insert_lower lt ps 0 l ≡ some (l ∷ ps, 0)
  unfolding insert_lower insert
  insert_lower-front ps l k = ground arith

  insert_lower-inside :
      (a b : IntervalPoint T) (ps : List (IntervalPoint T)) (l : IntervalPoint T)
      → is_lower_bound l.type ≡ true
      → is_lower_bound a.type ≡ true
      → insert_lower lt (a ∷ b ∷ ps) 1 l ≡ some (a ∷ l ∷ b ∷ ps, 0)
  unfolding insert_lower insert
  insert_lower-inside a b ps l k h = ground arith

  insert_lower-choose :
      (a b : IntervalPoint T) (ps : List (IntervalPoint T)) (l : IntervalPoint T)
      → is_lower_bound l.type ≡ true
      → is_upper_bound b.type ≡ true
      → insert_lower lt (a ∷ b ∷ ps) 2 l ≡ (
          if is_exclusive l.type && is_exclusive b.type
          then some (a ∷ b ∷ l ∷ ps, 2)
          else if not (lt b.value l.value)
          then some (a ∷ b ∷ l ∷ ps, 0)
          else some (a ∷ b ∷ l ∷ ps, 2))
  unfolding insert_lower insert
  insert_lower-choose a b ps l k h = ground (arith, not_lower_of_upper b.type h)

  add_lower-front :
      (ps : List (IntervalPoint T)) (l : IntervalPoint T)
      → is_lower_bound l.type ≡ true
      → Above lt l ps
      → add_lower lt ps l ≡ some (l ∷ ps, 0)
  unfolding add_lower
  add_lower-front [] l k a = insert_lower-front [] l k
  add_lower-front (p ∷ ps) l k a = ground (arith, o.asym l p a, insert_lower-front (p ∷ ps) l k)

  add_lower-inside :
      (a b : IntervalPoint T) (ps : List (IntervalPoint T)) (l : IntervalPoint T)
      → is_lower_bound l.type ≡ true
      → is_lower_bound a.type ≡ true
      → point_lt lt a l ≡ true
      → point_lt lt l b ≡ true
      → add_lower lt (a ∷ b ∷ ps) l ≡ some (a ∷ l ∷ b ∷ ps, 0)
  unfolding add_lower
  add_lower-inside a b ps l k h n m = ground (arith, o.asym l b m, insert_lower-inside a b ps l k h)

  add_lower-insert :
      (a b : IntervalPoint T) (ps : List (IntervalPoint T)) (l : IntervalPoint T)
      → point_lt lt a l ≡ true
      → point_lt lt b l ≡ true
      → Above lt l ps
      → add_lower lt (a ∷ b ∷ ps) l ≡ insert_lower lt (a ∷ b ∷ ps) 2 l
  unfolding add_lower
  add_lower-insert a b [] l n m e = ground arith
  add_lower-insert a b (c ∷ ps) l n m e = ground (arith, o.asym l c e)

  add_lower-same :
      (a b c : IntervalPoint T) (ps : List (IntervalPoint T)) (l : IntervalPoint T)
      → point_lt lt a l ≡ true
      → point_lt lt b l ≡ true
      → point_lt lt c l ≡ false
      → point_lt lt l c ≡ false
      → add_lower lt (a ∷ b ∷ c ∷ ps) l ≡ some (a ∷ b ∷ c ∷ ps, 2)
  unfolding add_lower
  add_lower-same a b c ps l n m e f = ground arith

  pub record Lowering (ps : List (IntervalPoint T)) (l : IntervalPoint T) : Type ℓ where
    pub points : List (IntervalPoint T)
    pub kept : ℕ
    pub found : add_lower lt ps l ≡ some (points, kept)
    pub lowered : IsLowered lt ps l points kept

  lower_bound-suc :
      (c l : IntervalPoint T) (ps : List (IntervalPoint T))
      → point_lt lt c l ≡ true
      → lower_bound lt (c ∷ ps) l ≡ suc (lower_bound lt ps l)
  unfolding lower_bound
  lower_bound-suc c l ps e = rw e

  Lowering-front :
      (ps : List (IntervalPoint T)) (l : IntervalPoint T)
      → is_lower_bound l.type ≡ true
      → IsValid lt ps
      → Above lt l ps
      → Lowering ps l
  Lowering-front ps l k h a = record {
    points = l ∷ ps;
    kept = 0;
    found = add_lower-front ps l k a;
    lowered = IsLowered-front w ps l k h a;
  }

  Lowering-same :
      (a : IntervalPoint T) (ps : List (IntervalPoint T)) (l : IntervalPoint T)
      → IsValid lt (a ∷ ps)
      → point_lt lt a l ≡ false
      → point_lt lt l a ≡ false
      → Lowering (a ∷ ps) l
  Lowering-same a ps l h n m = record {
    points = a ∷ ps;
    kept = 0;
    found = unfold add_lower in ground arith;
    lowered = IsLowered-same w a ps l h n m;
  }

  Lowering-before :
      (a : IntervalPoint T) (ps : List (IntervalPoint T)) (l : IntervalPoint T)
      → is_lower_bound l.type ≡ true
      → IsValid lt (a ∷ ps)
      → point_lt lt a l ≡ false
      → Lowering (a ∷ ps) l
  Lowering-before a ps l k h n = elim (Bool-cases (point_lt lt l a)) [
    | inl m ↦ Lowering-front (a ∷ ps) l k h m
    | inr m ↦ Lowering-same a ps l h n m
  ]

  Lowering-inside :
      (a b : IntervalPoint T) (ps : List (IntervalPoint T)) (l : IntervalPoint T)
      → is_lower_bound l.type ≡ true
      → IsValid lt (a ∷ b ∷ ps)
      → point_lt lt a l ≡ true
      → point_lt lt b l ≡ false
      → Lowering (a ∷ b ∷ ps) l
  Lowering-inside a b ps l k h n m =
      let m' : point_lt lt l b ≡ true = ground (arith, bounds_split w l b k h.2.0) in
      record {
        points = a ∷ l ∷ b ∷ ps;
        kept = 0;
        found = add_lower-inside a b ps l k h.0 n m';
        lowered = IsLowered-inside w a b ps l h n m';
      }

  -- After the first range, with no other point before `l`.
  module _ (a b : IntervalPoint T) (ps : List (IntervalPoint T)) (l : IntervalPoint T)
      (k : is_lower_bound l.type ≡ true) (h : IsValid lt (a ∷ b ∷ ps)) (n : point_lt lt a l ≡ true)
      (m : point_lt lt b l ≡ true) where
    Lowering-skip :
        (e : Above lt l ps)
        → insert_lower lt (a ∷ b ∷ ps) 2 l ≡ some (a ∷ b ∷ l ∷ ps, 2)
        → Lowering (a ∷ b ∷ ps) l
    Lowering-skip e f = record {
      points = a ∷ b ∷ l ∷ ps;
      kept = 2;
      found = add_lower-insert a b ps l n m e ∙ f;
      lowered = IsLowered-skip w a b ps (l ∷ ps) 0 l h m (IsLowered-front w ps l k h.2.2 e);
    }

    Lowering-insert : Above lt l ps → Lowering (a ∷ b ∷ ps) l
    Lowering-insert e = elim (Bool-cases (is_exclusive l.type && is_exclusive b.type)) [
      | inl f ↦ Lowering-skip e (insert_lower-choose a b ps l k h.2.0 ∙ rw f)
      | inr f ↦ elim (Bool-cases (lt b.value l.value)) [
        | inl g ↦ Lowering-skip e (insert_lower-choose a b ps l k h.2.0 ∙ rw (f, g))
        | inr g ↦ record {
          points = a ∷ b ∷ l ∷ ps;
          kept = 0;
          found =
              add_lower-insert a b ps l n m e ∙ insert_lower-choose a b ps l k h.2.0 ∙ rw (f, g);
          lowered = IsLowered-meet w a b ps l h k m e (ground arith) g;
        }
      ]
    ]

  Lowering-after :
      (a b c : IntervalPoint T) (ps : List (IntervalPoint T)) (l : IntervalPoint T)
      → is_lower_bound l.type ≡ true
      → IsValid lt (a ∷ b ∷ c ∷ ps)
      → point_lt lt a l ≡ true
      → point_lt lt b l ≡ true
      → Lowering (c ∷ ps) l
      → Lowering (a ∷ b ∷ c ∷ ps) l
  Lowering-after a b c ps l k h n m r = elim (Bool-cases (point_lt lt c l)) [
    | inl e ↦ record {
      points = a ∷ b ∷ r.points;
      kept = suc (suc r.kept);
      found =
          add_lower-shift lt (c ∷ ps) r.points (lower_bound lt ps l) r.kept a b l n m
            (lower_bound-suc c l ps e) r.found;
      lowered = IsLowered-skip w a b (c ∷ ps) r.points r.kept l h m r.lowered;
    }
    | inr e ↦ elim (Bool-cases (point_lt lt l c)) [
      | inl f ↦ Lowering-insert a b (c ∷ ps) l k h n m f
      | inr f ↦ record {
        points = a ∷ b ∷ c ∷ ps;
        kept = 2;
        found = add_lower-same a b c ps l n m e f;
        lowered =
            IsLowered-skip w a b (c ∷ ps) (c ∷ ps) 0 l h m (IsLowered-same w c ps l h.2.2 e f);
      }
    ]
  ]

  -- On a valid vector the stage of the lower bound succeeds.
  pub lowering :
      (ps : List (IntervalPoint T)) (l : IntervalPoint T)
      → is_lower_bound l.type ≡ true
      → IsValid lt ps
      → Lowering ps l
  lowering [] l k h = Lowering-front [] l k h tt
  lowering (a ∷ []) l k h = cc
  lowering (a ∷ b ∷ []) l k h = elim (Bool-cases (point_lt lt a l)) [
    | inl n ↦ elim (Bool-cases (point_lt lt b l)) [
      | inl m ↦ Lowering-insert a b [] l k h n m tt
      | inr m ↦ Lowering-inside a b [] l k h n m
    ]
    | inr n ↦ Lowering-before a (b ∷ []) l k h n
  ]
  lowering (a ∷ b ∷ c ∷ ps) l k h = elim (Bool-cases (point_lt lt a l)) [
    | inl n ↦ elim (Bool-cases (point_lt lt b l)) [
      | inl m ↦ Lowering-after a b c ps l k h n m (lowering (c ∷ ps) l k h.2.2)
      | inr m ↦ Lowering-inside a b (c ∷ ps) l k h n m
    ]
    | inr n ↦ Lowering-before a (b ∷ c ∷ ps) l k h n
  ]
