-- ===== src/Interval/Set/Add/Lowered.antt =====
-- What the stage of the lower bound leaves, case by case.

use kdi.Common.{
  ℕ, suc, ◌≤◌, ◌≡◌, refl, sym, ◌∙◌, Bool, true, false, ◌&&◌, List, [], ◌∷◌, ◌++◌, arith, take, drop,
}
use kdi.Interval.Point.{IntervalPoint, point, is_lower_bound, is_exclusive, point_lt}
use kdi.Interval.Order.{IsStrictWeak, point_lt-IsStrictWeak, lt_trans, lt_of_le_of_lt, le_trans}
use kdi.Interval.Range.{bound_point}
use kdi.Interval.Set.{upper_bound}
use kdi.Interval.Set.Inv.{Above, IsAlternating, IsValid, member, member_before}
use kdi.Interval.Set.Add.Upper.{ties}
use kdi.Interval.Set.Add.Adjacent.{meet}

module _ {ℓ} {T : Type ℓ} (lt : T → T → Bool) where
  -- The vector `qs` and the iterator `i` that the stage of the lower bound leaves: up to the
  -- iterator the points stand for `ps` before `l` and are inside a range after it, and from the
  -- upper bound on nothing has changed.
  pub record IsLowered (ps : List (IntervalPoint T)) (l : IntervalPoint T)
      (qs : List (IntervalPoint T)) (i : ℕ) : Type ℓ where
    pub valid :
        (ss : List (IntervalPoint T))
        → IsAlternating lt true ss
        → Above lt l ss
        → IsValid lt (take (suc i) qs ++ ss)
    pub above :
        (r : IntervalPoint T) (ss : List (IntervalPoint T))
        → Above lt r ps
        → point_lt lt r l ≡ true
        → Above lt r (take (suc i) qs ++ ss)
    pub before :
        (ss : List (IntervalPoint T)) (x : T)
        → member lt true ss (bound_point x point) ≡ true
        → point_lt lt l (bound_point x point) ≡ false
        → member lt false (take (suc i) qs ++ ss) (bound_point x point)
          ≡ member lt false ps (bound_point x point)
    pub after :
        (ss : List (IntervalPoint T)) (v : IntervalPoint T)
        → point_lt lt l v ≡ true
        → member lt false (take (suc i) qs ++ ss) v ≡ member lt true ss v
    pub first :
        (u : IntervalPoint T)
        → point_lt lt l u ≡ true
        → (p : IntervalPoint T) × (rest : List (IntervalPoint T)) × (qs ≡ p ∷ rest)
          × (point_lt lt u p ≡ false)
    pub within : (u : IntervalPoint T) → point_lt lt l u ≡ true → suc i ≤ upper_bound lt qs u
    pub rest :
        (u : IntervalPoint T)
        → point_lt lt l u ≡ true
        → drop (upper_bound lt qs u) qs ≡ drop (upper_bound lt ps u) ps
    pub untied :
        (u : IntervalPoint T) → point_lt lt l u ≡ true → ties lt ps u ≡ false → ties lt qs u ≡ false

module _ {ℓ} {T : Type ℓ} {lt : T → T → Bool} (w : IsStrictWeak lt) where
  o : IsStrictWeak (point_lt lt)
  o = point_lt-IsStrictWeak lt w

  Above-after :
      (p l : IntervalPoint T) (ss : List (IntervalPoint T))
      → point_lt lt l p ≡ false
      → Above lt l ss
      → Above lt p ss
  Above-after p l [] h a = tt
  Above-after p l (s ∷ ss) h a = lt_of_le_of_lt o p l s h a

  not_after :
      (a l v : IntervalPoint T)
      → point_lt lt a l ≡ false
      → point_lt lt l v ≡ false
      → point_lt lt a v ≡ false
  not_after a l v h k = le_trans o v l a k h

  ties-cons :
      (p u : IntervalPoint T) (ps : List (IntervalPoint T))
      → point_lt lt p u ≡ true
      → ties lt ps u ≡ false
      → ties lt (p ∷ ps) u ≡ false
  ties-cons p u [] h t = refl
  ties-cons p u (q ∷ ps) h t = rw (h, t)

  ties-tail :
      (p u : IntervalPoint T) (ps : List (IntervalPoint T))
      → ties lt (p ∷ ps) u ≡ false
      → ties lt ps u ≡ false
  ties-tail p u [] t = refl
  ties-tail p u (q ∷ ps) t = ground arith

  -- Nothing stands before `l`: it is inserted at the front.
  pub IsLowered-front :
      (ps : List (IntervalPoint T)) (l : IntervalPoint T)
      → is_lower_bound l.type ≡ true
      → IsValid lt ps
      → Above lt l ps
      → IsLowered lt ps l (l ∷ ps) 0
  unfolding upper_bound
  IsLowered-front ps l k h a = record {
    valid = λ ss g b. (k, b, g);
    above = λ r ss b e. e;
    before = λ ss x m e. rw e (sym (member_before w false l (bound_point x point) ps a e));
    after = λ ss v e. rw e;
    first = λ u e. (l, ps, refl, o.asym l u e);
    within = λ u e. rw (o.asym l u e) (omega arith);
    rest = λ u e. rw (o.asym l u e);
    untied = λ u e t. ties-cons l u ps e t;
  }

  -- The first point stands where `l` is.
  pub IsLowered-same :
      (a : IntervalPoint T) (ps : List (IntervalPoint T)) (l : IntervalPoint T)
      → IsValid lt (a ∷ ps)
      → point_lt lt a l ≡ false
      → point_lt lt l a ≡ false
      → IsLowered lt (a ∷ ps) l (a ∷ ps) 0
  unfolding upper_bound
  IsLowered-same a ps l h n m = record {
    valid = λ ss g b. (h.0, Above-after a l ss m b, g);
    above = λ r ss b e. b;
    before = λ ss x g e. rw (not_after a l (bound_point x point) n e);
    after = λ ss v e. rw (lt_of_le_of_lt o a l v m e);
    first = λ u e. (a, ps, refl, o.asym a u (lt_of_le_of_lt o a l u m e));
    within = λ u e. rw (o.asym a u (lt_of_le_of_lt o a l u m e)) (omega arith);
    rest = λ u e. refl;
    untied = λ u e t. t;
  }

  -- `l` lies in the first range.
  pub IsLowered-inside :
      (a b : IntervalPoint T) (ps : List (IntervalPoint T)) (l : IntervalPoint T)
      → IsValid lt (a ∷ b ∷ ps)
      → point_lt lt a l ≡ true
      → point_lt lt l b ≡ true
      → IsLowered lt (a ∷ b ∷ ps) l (a ∷ l ∷ b ∷ ps) 0
  unfolding upper_bound
  IsLowered-inside a b ps l h n m = record {
    valid = λ ss g b'. (h.0, Above-after a l ss (o.asym a l n) b', g);
    above = λ r ss b' e. b';
    before = λ ss x g e. rw (not_after b l (bound_point x point) (o.asym l b m) e, g);
    after = λ ss v e. rw (lt_trans o a l v n e);
    first = λ u e. (a, l ∷ b ∷ ps, refl, o.asym a u (lt_trans o a l u n e));
    within = λ u e. rw (o.asym a u (lt_trans o a l u n e)) (omega arith);
    rest = λ u e. rw (o.asym a u (lt_trans o a l u n e), o.asym l u e);
    untied = λ u e t. rw (lt_trans o a l u n e, e) (ties-tail a u (b ∷ ps) t);
  }

  -- The first range meets `l`.
  pub IsLowered-meet :
      (a b : IntervalPoint T) (ps : List (IntervalPoint T)) (l : IntervalPoint T)
      → IsValid lt (a ∷ b ∷ ps)
      → is_lower_bound l.type ≡ true
      → point_lt lt b l ≡ true
      → Above lt l ps
      → (is_exclusive b.type && is_exclusive l.type) ≡ false
      → lt b.value l.value ≡ false
      → IsLowered lt (a ∷ b ∷ ps) l (a ∷ b ∷ l ∷ ps) 0
  unfolding upper_bound
  IsLowered-meet a b ps l h k n f c d = record {
    valid = λ ss g e. (h.0, Above-after a l ss (o.asym a l (lt_trans o a b l h.1 n)) e, g);
    above = λ r ss g e. g;
    before = λ ss x g e. rw (meet w b l x h.2.0 k n c d ∙ e, g);
    after = λ ss v e. rw (lt_trans o a l v (lt_trans o a b l h.1 n) e);
    first = λ u e. (a, b ∷ l ∷ ps, refl, o.asym a u (lt_trans o a l u (lt_trans o a b l h.1 n) e));
    within = λ u e. rw (o.asym a u (lt_trans o a l u (lt_trans o a b l h.1 n) e)) (omega arith);
    rest = λ u e. rw (
      o.asym a u (lt_trans o a l u (lt_trans o a b l h.1 n) e),
      o.asym b u (lt_trans o b l u n e),
      o.asym l u e,
    );
    untied = λ u e t.
        rw (lt_trans o a l u (lt_trans o a b l h.1 n) e, lt_trans o b l u n e)
          (ties-cons l u ps e (ties-tail b u ps (ties-tail a u (b ∷ ps) t)));
  }

  -- `l` stands after the first range, and does not meet it.
  pub IsLowered-skip :
      (a b : IntervalPoint T) (ps qs : List (IntervalPoint T)) (i : ℕ) (l : IntervalPoint T)
      → IsValid lt (a ∷ b ∷ ps)
      → point_lt lt b l ≡ true
      → IsLowered lt ps l qs i
      → IsLowered lt (a ∷ b ∷ ps) l (a ∷ b ∷ qs) (suc (suc i))
  unfolding upper_bound
  IsLowered-skip a b ps qs i l h n p = record {
    valid = λ ss g e. (h.0, h.1, (h.2.0, p.above b ss h.2.1 n, p.valid ss g e));
    above = λ r ss g e. g;
    before = λ ss x g e. rw (p.before ss x g e);
    after = λ ss v e.
        rw (lt_trans o a l v (lt_trans o a b l h.1 n) e, lt_trans o b l v n e) (p.after ss v e);
    first = λ u e. (a, b ∷ qs, refl, o.asym a u (lt_trans o a l u (lt_trans o a b l h.1 n) e));
    within = λ u e.
        rw
          (
            o.asym a u (lt_trans o a l u (lt_trans o a b l h.1 n) e),
            o.asym b u (lt_trans o b l u n e),
          )
          (omega (arith, p.within u e));
    rest = λ u e.
        rw
          (
            o.asym a u (lt_trans o a l u (lt_trans o a b l h.1 n) e),
            o.asym b u (lt_trans o b l u n e),
          )
          (p.rest u e);
    untied = λ u e t. rw (lt_trans o a l u (lt_trans o a b l h.1 n) e) (
        ties-cons b u qs (lt_trans o b l u n e)
          (p.untied u e (ties-tail b u ps (ties-tail a u (b ∷ ps) t))));
  }
