-- ===== src/Interval/Set/Add/Tail.antt =====
-- What stands after the erased points, against the points of the old set.
use kdi.Common.{
  ◌≡◌, refl, sym, ◌∙◌, Bool, true, false, not, ◌&&◌, if◌then◌else◌, List, [], ◌∷◌, Bool-cases, inl,
  inr, drop,
}
use kdi.Interval.Point.{IntervalPoint, point, is_upper_bound, is_exclusive, point_lt}
use kdi.Interval.Order.{IsStrictWeak, point_lt-IsStrictWeak, lt_trans, lt_of_le_of_lt}
use kdi.Interval.Range.{bound_point}
use kdi.Interval.Set.{upper_bound}
use kdi.Interval.Set.Inv.{Above, IsAlternating, member, member_before, not_upper_of_lower}
use kdi.Interval.Set.Add.Upper.{tail_part}
use kdi.Interval.Set.Add.Adjacent.{meet}

module _ {ℓ} {T : Type ℓ} (lt : T → T → Bool) where
  -- Whether a walk is inside a range at the iterator of `upper_bound`.
  abbrev pub inside_at : Bool → List (IntervalPoint T) → IntervalPoint T → Bool
  inside_at b [] u = b
  inside_at b (p ∷ ps) u = if point_lt lt u p then b else inside_at (not b) ps u

module _ {ℓ} {T : Type ℓ} {lt : T → T → Bool} (w : IsStrictWeak lt) where
  pub drop-IsAlternating :
      (b : Bool) (ps : List (IntervalPoint T)) (u : IntervalPoint T)
      → IsAlternating lt b ps
      → IsAlternating lt (inside_at lt b ps u) (drop (upper_bound lt ps u) ps)
        × Above lt u (drop (upper_bound lt ps u) ps)
  unfolding upper_bound
  drop-IsAlternating b [] u h = (h, tt)
  drop-IsAlternating b (p ∷ ps) u h = elim (Bool-cases (point_lt lt u p)) [
    | inl e ↦ rw e (h, e)
    | inr e ↦ rw e (drop-IsAlternating (not b) ps u h.2)
  ]

  -- After `u` the walk may begin at the iterator.
  pub member-drop :
      (b : Bool) (ps : List (IntervalPoint T)) (u v : IntervalPoint T)
      → point_lt lt u v ≡ true
      → member lt b ps v ≡ member lt (inside_at lt b ps u) (drop (upper_bound lt ps u) ps) v
  unfolding upper_bound
  member-drop b [] u v h = refl
  member-drop b (p ∷ ps) u v h = elim (Bool-cases (point_lt lt u p)) [
    | inl e ↦ rw e
    | inr e ↦
        rw (e, lt_of_le_of_lt (point_lt-IsStrictWeak lt w) p u v e h) (member-drop (not b) ps u v h)
  ]

  pub record IsTail (t : Bool) (cs ds : List (IntervalPoint T)) (u : IntervalPoint T) : Type ℓ where
    pub alternates : IsAlternating lt true ds
    pub above : (l : IntervalPoint T) → point_lt lt l u ≡ true → Above lt l ds
    pub at_or_before : (v : IntervalPoint T) → point_lt lt u v ≡ false → member lt true ds v ≡ true
    pub after :
        (x : T)
        → point_lt lt u (bound_point x point) ≡ true
        → member lt true ds (bound_point x point) ≡ member lt t cs (bound_point x point)

  o : IsStrictWeak (point_lt lt)
  o = point_lt-IsStrictWeak lt w

  pub Above-of_lt :
      (r p : IntervalPoint T) (ps : List (IntervalPoint T))
      → point_lt lt r p ≡ true
      → Above lt p ps
      → Above lt r ps
  Above-of_lt r p [] h a = tt
  Above-of_lt r p (q ∷ ps) h a = lt_trans o r p q h a

  -- `u` is put before points that begin outside a range, or stands alone.
  IsTail-insert :
      (cs : List (IntervalPoint T)) (u : IntervalPoint T)
      → is_upper_bound u.type ≡ true
      → IsAlternating lt false cs
      → Above lt u cs
      → IsTail false cs (u ∷ cs) u
  IsTail-insert cs u k h a = record {
    alternates = (k, a, h);
    above = λ l e. e;
    at_or_before = λ v e. rw e;
    after = λ x e. rw e;
  }

  IsTail-keep :
      (c : IntervalPoint T) (cs : List (IntervalPoint T)) (u : IntervalPoint T)
      → IsAlternating lt true (c ∷ cs)
      → point_lt lt u c ≡ true
      → IsTail true (c ∷ cs) (c ∷ cs) u
  IsTail-keep c cs u h a = record {
    alternates = h;
    above = λ l e. lt_trans o l u c e a;
    at_or_before = λ v e. rw (o.asym v c (lt_of_le_of_lt o v u c e a));
    after = λ x e. refl;
  }

  IsTail-merge :
      (c : IntervalPoint T) (cs : List (IntervalPoint T)) (u : IntervalPoint T)
      → is_upper_bound u.type ≡ true
      → IsAlternating lt false (c ∷ cs)
      → point_lt lt u c ≡ true
      → (is_exclusive u.type && is_exclusive c.type) ≡ false
      → lt u.value c.value ≡ false
      → IsTail false (c ∷ cs) cs u
  IsTail-merge c cs u k h a n e = record {
    alternates = h.2;
    above = λ l f. Above-of_lt l c cs (lt_trans o l u c f a) h.1;
    at_or_before = λ v f. member_before w true c v cs h.1 (o.asym v c (lt_of_le_of_lt o v u c f a));
    after = λ x f. rw (sym (meet w u c x k h.0 a n e) ∙ f);
  }

  pub tail_part-IsTail :
      (t : Bool) (cs : List (IntervalPoint T)) (u : IntervalPoint T)
      → is_upper_bound u.type ≡ true
      → IsAlternating lt t cs
      → Above lt u cs
      → IsTail t cs (tail_part lt u cs) u
  unfolding tail_part
  tail_part-IsTail true [] u k h a = cc
  tail_part-IsTail false [] u k h a = IsTail-insert [] u k h a
  tail_part-IsTail true (c ∷ cs) u k h a = rw h.0 (IsTail-keep c cs u h a)
  tail_part-IsTail false (c ∷ cs) u k h a =
      rw (not_upper_of_lower c.type h.0)
        (elim (Bool-cases (is_exclusive u.type && is_exclusive c.type)) [
          | inl n ↦ rw n (IsTail-insert (c ∷ cs) u k h a)
          | inr n ↦ rw n (elim (Bool-cases (lt u.value c.value)) [
            | inl e ↦ rw e (IsTail-insert (c ∷ cs) u k h a)
            | inr e ↦ rw e (IsTail-merge c cs u k h a n e)
          ])
        ])
