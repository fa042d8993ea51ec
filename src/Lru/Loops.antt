-- ===== src/Lru/Loops.antt =====
-- What the loops of `flushToSize` and `removeUntil` of src/cc/warp/lru_cache.h keep.
use kdi.Common.{
  ℕ, ◌+◌, ◌^◌, ◌%◌, ◌≤◌, ◌<◌, ◌⊎◌, All, ◌≡◌, refl, ap, ◌∙◌, none, List, [], ◌∷◌, arith, Bool-cases,
  inl, inr, ltb, ◌==◌, ==_iff,
}
use kdi.Lru.{Item, sub64, find, mark_removed, flush, remove_before}
use kdi.Lru.Items.{held, Unique, find-held}

-- Taking back a part of a sum that wraps.
pub sub64_back : (cur a b : ℕ) → cur ≡ (a + b) % 2 ^ 64 → sub64 cur b ≡ a % 2 ^ 64
sub64_back cur a b e = omega arith

module _ {ℓ} {V : Type ℓ} (size_of : V → ℕ) where
  abbrev pub total : List (Item V) → ℕ
  total [] = 0
  total (i ∷ is) = size_of i.value + total is

  -- A list that is left of another, with the size that goes with it: the references held are the
  -- same, no key is new, the keys stay different, and the size stays in step with the items.
  pub record Shrinks (is : List (Item V)) (cur : ℕ) (r : List (Item V) × ℕ) : Type ℓ where
    pub same : (k : ℕ) → held k r.0 ≡ held k is
    pub old : (k : ℕ) → find k is ≡ none → find k r.0 ≡ none
    pub unique : Unique is → Unique r.0
    pub sized : (rest : ℕ) → cur ≡ (rest + total is) % 2 ^ 64 → r.1 ≡ (rest + total r.0) % 2 ^ 64

  pub Shrinks-refl : (is : List (Item V)) (cur : ℕ) → Shrinks is cur (is, cur)
  Shrinks-refl is cur = record {
    same = λ k. refl;
    old = λ k e. e;
    unique = λ u. u;
    sized = λ rest e. e;
  }

  Shrinks-keep :
      (i j : Item V) (is : List (Item V)) (cur : ℕ) (r : List (Item V) × ℕ)
      → i.key ≡ j.key
      → i.ref_count ≡ j.ref_count
      → i.value ≡ j.value
      → Shrinks is cur r
      → Shrinks (i ∷ is) cur (j ∷ r.0, r.1)
  Shrinks-keep i j is cur r key ref value h = record {
    same = λ k.
        rw (← key, ← ref)
          (let e = h.same k in elim (Bool-cases (k == i.key)) [ inl q ↦ rw q | inr q ↦ rw q e ]);
    old = λ k e. rw (← key) (elim (Bool-cases (k == i.key)) [
      | inl q ↦ absurd (let n = rw q at e in ground arith)
      | inr q ↦ rw q (h.old k (rw q at e))
    ]);
    unique = λ u. (rw (← key) (h.old i.key u.0), h.unique u.1);
    sized = λ rest e.
        let b : size_of i.value ≡ size_of j.value = ap size_of value in
        h.sized (rest + size_of i.value) (e ∙ ap (λ x. x % 2 ^ 64) (omega arith))
        ∙ ap (λ x. x % 2 ^ 64) (omega arith);
  }

  Shrinks-drop :
      (i : Item V) (is : List (Item V)) (cur : ℕ) (r : List (Item V) × ℕ)
      → i.ref_count ≡ 0
      → find i.key is ≡ none
      → Shrinks is (sub64 cur (size_of i.value)) r
      → Shrinks (i ∷ is) cur r
  Shrinks-drop i is cur r ref new h = record {
    same = λ k. h.same k ∙ elim (Bool-cases (k == i.key)) [
      | inl q ↦ let at_i = (==_iff k i.key).0 q in rw (q, at_i, ref) (find-held i.key is new)
      | inr q ↦ rw q
    ];
    old = λ k e. h.old k (elim (Bool-cases (k == i.key)) [
      | inl q ↦ absurd (let n = rw q at e in ground arith)
      | inr q ↦ rw q at e
    ]);
    unique = λ u. h.unique u.1;
    sized = λ rest e. h.sized rest (
        sub64_back cur (rest + total is) (size_of i.value)
          (e ∙ ap (λ x. x % 2 ^ 64) (omega arith)));
  }

  pub flush-Shrinks :
      (init : ℕ → V) (target : ℕ) (is : List (Item V)) (cur : ℕ)
      → Unique is
      → Shrinks is cur (flush init size_of target is cur)
  unfolding flush
  flush-Shrinks init target [] cur u = Shrinks-refl [] cur
  flush-Shrinks init target (i ∷ is) cur u = elim (Bool-cases (ltb target cur)) [
    | inr l ↦ rw (l, flush) (Shrinks-refl (i ∷ is) cur)
    | inl l ↦ elim (Bool-cases (i.ref_count == 0)) [
      | inl z ↦
          rw (l, z, flush)
            (Shrinks-drop i is cur _ ((==_iff i.ref_count 0).0 z) u.0
              (flush-Shrinks init target is (sub64 cur (size_of i.value)) u.1))
      | inr z ↦
          rw (l, z, flush)
            (Shrinks-keep i i is cur _ refl refl refl (flush-Shrinks init target is cur u.1))
    ]
  ]

  pub remove_before-Shrinks :
      (init : ℕ → V) (mark : ℕ) (is : List (Item V)) (cur : ℕ)
      → Unique is
      → Shrinks is cur (remove_before init size_of mark is cur)
  unfolding remove_before
  remove_before-Shrinks init mark [] cur u = Shrinks-refl [] cur
  remove_before-Shrinks init mark (i ∷ is) cur u = elim (Bool-cases (i.key == mark)) [
    | inl l ↦ rw (l, remove_before) (Shrinks-refl (i ∷ is) cur)
    | inr l ↦ elim (Bool-cases (i.ref_count == 0)) [
      | inl z ↦
          rw (l, z, remove_before)
            (Shrinks-drop i is cur _ ((==_iff i.ref_count 0).0 z) u.0
              (remove_before-Shrinks init mark is (sub64 cur (size_of i.value)) u.1))
      | inr z ↦
          rw (l, z, remove_before)
            (Shrinks-keep i (mark_removed i) is cur _ refl refl refl
              (remove_before-Shrinks init mark is cur u.1))
    ]
  ]

  -- After a flush the size is within the target, or every item left is held by a client.
  pub flush_budget :
      (init : ℕ → V) (target : ℕ) (is : List (Item V)) (cur : ℕ)
      → ((flush init size_of target is cur).1 ≤ target)
        ⊎ All (λ i. 0 < i.ref_count) (flush init size_of target is cur).0
  unfolding flush
  flush_budget init target [] cur = inr tt
  flush_budget init target (i ∷ is) cur = elim (Bool-cases (ltb target cur)) [
    | inr l ↦ rw (l, flush) (inl (ground arith))
    | inl l ↦ elim (Bool-cases (i.ref_count == 0)) [
      | inl z ↦ rw (l, z, flush) (flush_budget init target is (sub64 cur (size_of i.value)))
      | inr z ↦
          rw (l, z, flush)
            (elim (flush_budget init target is cur) [
              | inl h ↦ inl h
              | inr h ↦ inr (ground arith, h)
            ])
    ]
  ]
