-- ===== src/Merge/Round.antt =====
-- What one call of `get` does to the heap of src/cc/flux/merge.h.
use kdi.Common.{
  ℕ, zero, suc, ◌+◌, ◌<◌, ◌≤◌, ◌≡◌, refl, sym, ◌∙◌, Bool, true, false, some, List, [], ◌∷◌, ◌++◌,
  arith, Bool-cases, Option-cases, inl, inr, ◌==◌, ==_iff, length, All,
}
use kdi.Interval.Order.{IsStrictWeak}
use kdi.Merge.{Input, read_next, top, advance, skip_duplicates, pending}
use kdi.Merge.Top.{
  same_key, find, or_else, find_input, IsSorted, IsHeap, Beyond, NotBelow, HeadAt, Step, top-Step,
  top_empty, top-none, top-NotBelow, top-HeadAt, top-All,
}

module _ {ℓ} {T : Type ℓ} {lt : T → T → Bool} (w : IsStrictWeak lt) where
  index-advance :
      (i j : ℕ) (heap : List (Input T))
      → All (λ f. j < f.index) heap
      → All (λ f. j < f.index) (advance lt i heap)
  unfolding advance
  index-advance i j [] a = tt
  index-advance i j (e ∷ heap) a = elim (Bool-cases (e.index == i)) [
    | inl p ↦ let same = (==_iff e.index i).0 p in rw p (read_index same e.stream)
    | inr p ↦ rw p (a.0, index-advance i j heap a.1)
  ]
    where
      read_index : e.index ≡ i → (s : List T) → All (λ f. j < f.index) (read_next i s ++ heap)
      read_index same [] = a.1
      read_index same (y ∷ s) = (rw (← same) a.0, a.1)

  IsHeap-advance : (i : ℕ) (heap : List (Input T)) → IsHeap lt heap → IsHeap lt (advance lt i heap)
  unfolding advance
  IsHeap-advance i [] h = tt
  IsHeap-advance i (e ∷ heap) h = elim (Bool-cases (e.index == i)) [
    | inl p ↦ let same = (==_iff e.index i).0 p in rw p (read_heap same e.stream h.0.1)
    | inr p ↦ rw p (h.0, index-advance i e.index heap h.1, IsHeap-advance i heap h.2)
  ]
    where
      read_heap : e.index ≡ i → (s : List T) → IsSorted lt s → IsHeap lt (read_next i s ++ heap)
      read_heap same [] q = h.2
      read_heap same (y ∷ s) q = (q, rw (← same) h.1, h.2)

  find_input-advance :
      (k x : T) (i : ℕ) (heap : List (Input T))
      → HeadAt lt w i x heap
      → same_key lt k x ≡ false
      → find_input lt k (advance lt i heap) ≡ find_input lt k heap
  unfolding advance HeadAt
  find_input-advance k x i [] h n = refl
  find_input-advance k x i (e ∷ heap) h n = elim (Bool-cases (e.index == i)) [
    | inl p ↦
        let other : same_key lt k e.value ≡ false = rw (h.0 ((==_iff e.index i).0 p)) n in
        rw (p, other) (read_find e.stream)
    | inr p ↦ rw (p, find_input-advance k x i heap h.1 n)
  ]
    where
      read_find :
          (s : List T)
          → find_input lt k (read_next i s ++ heap)
            ≡ or_else lt (find lt k s) (find_input lt k heap)
      read_find [] = refl
      read_find (y ∷ s) = refl

  pub NotBelow-advance :
      (x : T) (i : ℕ) (heap : List (Input T))
      → IsHeap lt heap
      → NotBelow lt x heap
      → NotBelow lt x (advance lt i heap)
  unfolding advance
  NotBelow-advance x i [] h a = tt
  NotBelow-advance x i (e ∷ heap) h a = elim (Bool-cases (e.index == i)) [
    | inl p ↦ rw p (read_above e.stream h.0.0)
    | inr p ↦ rw p (a.0, NotBelow-advance x i heap h.2 a.1)
  ]
    where
      read_above :
          (s : List T) → All (λ y. lt e.value y ≡ true) s → NotBelow lt x (read_next i s ++ heap)
      read_above [] q = a.1
      read_above (y ∷ s) q =
          let head = a.0 in
          let next = q.0 in (ground (arith, w.cotrans y e.value x, w.asym e.value y), a.1)

  pub pending-advance :
      (heap : List (Input T)) (t : Input T)
      → IsHeap lt heap
      → top lt heap ≡ some t
      → suc (pending lt (advance lt t.index heap)) ≡ pending lt heap
  unfolding advance Step
  pending-advance [] t h e = absurd (top_empty lt w t e)
  pending-advance (f ∷ heap) t h e = elim (top-Step lt w f heap t e) [
    | inl (n, b) ↦
        let later : f.index < t.index =
          top-All lt w (λ (g : Input T). f.index < g.index) heap t h.1 n in
        let other : (f.index == t.index) ≡ false = ground arith in
        let ih = pending-advance heap t h.2 n in rw other (omega arith)
    | inr (same, c) ↦
        let at_f : (f.index == t.index) ≡ true = rw same (ground arith) in
        rw at_f (read_pending f.stream)
  ]
    where
      read_pending :
          (s : List T)
          → suc (pending lt (read_next t.index s ++ heap)) ≡ suc (length s) + pending lt heap
      read_pending [] = omega arith
      read_pending (y ∷ s) = omega arith

  -- A heap after values with the key of `x` were taken off.
  pub record Leaves (x : T) (heap rest : List (Input T)) : Type ℓ where
    pub valid : IsHeap lt rest
    pub others : (k : T) → same_key lt k x ≡ false → find_input lt k rest ≡ find_input lt k heap
    pub shorter : pending lt rest ≤ pending lt heap

  pub same_key_trans : (k x y : T) → same_key lt x y ≡ true → same_key lt k x ≡ same_key lt k y
  same_key_trans k x y e = ground (
    arith,
    w.cotrans k y x,
    w.cotrans x k y,
    w.cotrans y k x,
    w.cotrans k x y,
    w.cotrans y x k,
    w.cotrans x y k,
  )

  -- Advancing at the top, whose value has the key of `x`.
  pub advance-Leaves :
      (x : T) (heap : List (Input T)) (t : Input T)
      → IsHeap lt heap
      → top lt heap ≡ some t
      → same_key lt x t.value ≡ true
      → Leaves x heap (advance lt t.index heap)
  advance-Leaves x heap t h e s = record {
    valid = IsHeap-advance t.index heap h;
    others = λ k n.
        find_input-advance k t.value t.index heap (top-HeadAt lt w heap t h e)
          (sym (same_key_trans k x t.value s) ∙ n);
    shorter = let p = pending-advance heap t h e in omega arith;
  }

  pub Leaves-trans : (x : T) (a b c : List (Input T)) → Leaves x a b → Leaves x b c → Leaves x a c
  Leaves-trans x a b c p q = record {
    valid = q.valid;
    others = λ k n. q.others k n ∙ p.others k n;
    shorter = let i = p.shorter in let j = q.shorter in omega arith;
  }

  -- The loop of a unique merge takes off all values with the key of `x`, and no others.
  pub skip_duplicates-Leaves :
      (fuel : ℕ) (x : T) (heap : List (Input T))
      → pending lt heap ≤ fuel
      → IsHeap lt heap
      → NotBelow lt x heap
      → Leaves x heap (skip_duplicates lt fuel x heap)
        × Beyond lt x (skip_duplicates lt fuel x heap)
  unfolding skip_duplicates
  skip_duplicates-Leaves zero x [] b h a =
      (record { valid = tt; others = λ k n. refl; shorter = omega arith }, tt)
  skip_duplicates-Leaves zero x (e ∷ heap) b h a = absurd (omega arith)
  skip_duplicates-Leaves (suc fuel) x heap b h a = elim (Option-cases (top lt heap)) [
    | inl n ↦
        rw (n, skip_duplicates)
          (
            record { valid = h; others = λ k m. refl; shorter = omega arith },
            rw (top-none lt w heap n) tt,
          )
    | inr (t, n) ↦
        let low = top-All lt w (λ (e : Input T). lt e.value x ≡ false) heap t a n in
        elim (Bool-cases (lt x t.value)) [
          | inl p ↦
              rw (n, p, skip_duplicates)
                (
                  record { valid = h; others = λ k m. refl; shorter = omega arith },
                  beyond t p heap (top-NotBelow lt w heap t n),
                )
          | inr p ↦
              let step = advance-Leaves x heap t h n (ground arith) in
              let less = pending-advance heap t h n in
              let ih =
                skip_duplicates-Leaves fuel x (advance lt t.index heap) (omega arith) step.valid
                  (NotBelow-advance x t.index heap h a) in
              rw (n, p, skip_duplicates) (Leaves-trans x heap _ _ step ih.0, ih.1)
        ]
  ]
    where
      beyond :
          (t : Input T)
          → lt x t.value ≡ true
          → (s : List (Input T)) → NotBelow lt t.value s
          → Beyond lt x s
      beyond t p [] q = tt
      beyond t p (e ∷ s) q =
          let head = q.0 in (ground (arith, w.cotrans x e.value t.value), beyond t p s q.1)
