-- ===== src/Lru/Sizes.antt =====
-- The total size of the items of the cache of src/cc/warp/lru_cache.h, and changes of one item.
use kdi.Common.{
  ℕ, ◌+◌, ◌≡◌, refl, ap, false, none, some, List, [], ◌∷◌, ◌++◌, arith, Bool-cases, inl, inr, ◌==◌,
  ==_iff, if◌then◌else◌,
}
use kdi.Lru.{Item, find, drop_key, change_key}
use kdi.Lru.Items.{held, Unique}
use kdi.Lru.Loops.{total}

module _ {ℓ} {V : Type ℓ} (size_of : V → ℕ) where
  total-drop_absent :
      (k : ℕ) (is : List (Item V))
      → find k is ≡ none
      → total size_of (drop_key k is) ≡ total size_of is
  total-drop_absent k [] e = refl
  total-drop_absent k (i ∷ is) e = elim (Bool-cases (k == i.key)) [
    | inl q ↦ absurd (let n = rw q at e in ground arith)
    | inr q ↦ rw q (ap (λ n. size_of i.value + n) (total-drop_absent k is (rw q at e)))
  ]

  pub total-drop_key :
      (k : ℕ) (is : List (Item V)) (i : Item V)
      → Unique is
      → find k is ≡ some i
      → total size_of is ≡ total size_of (drop_key k is) + size_of i.value
  total-drop_key k [] i u e = absurd (ground arith)
  total-drop_key k (j ∷ is) i u e = elim (Bool-cases (k == j.key)) [
    | inl q ↦
        let same : j ≡ i = let r = rw q at e in cc in
        let at_j = (==_iff k j.key).0 q in
        let absent = total-drop_absent k is (rw at_j u.0) in
        let sizes : size_of j.value ≡ size_of i.value = ap (λ x. size_of x.value) same in
        rw q (omega arith)
    | inr q ↦ let ih = total-drop_key k is i u.1 (rw q at e) in rw q (omega arith)
  ]

  pub total-append :
      (is : List (Item V)) (i : Item V)
      → total size_of (is ++ (i ∷ [])) ≡ total size_of is + size_of i.value
  total-append [] i = omega arith
  total-append (j ∷ is) i = let ih = total-append is i in omega arith

  -- A change of one item that keeps its key and its value.
  module _ (f : Item V → Item V) (key : (i : Item V) → (f i).key ≡ i.key)
      (value : (i : Item V) → (f i).value ≡ i.value) where
    pub total-change_key :
        (k : ℕ) (is : List (Item V)) → total size_of (change_key k f is) ≡ total size_of is
    total-change_key k [] = refl
    total-change_key k (i ∷ is) = elim (Bool-cases (k == i.key)) [
      | inl q ↦ rw q (ap (λ v. size_of v + total size_of is) (value i))
      | inr q ↦ rw q (ap (λ n. size_of i.value + n) (total-change_key k is))
    ]

    pub find-change_key :
        (j k : ℕ) (is : List (Item V)) → find j is ≡ none → find j (change_key k f is) ≡ none
    find-change_key j k [] e = refl
    find-change_key j k (i ∷ is) e = elim (Bool-cases (j == i.key)) [
      | inl q ↦ absurd (let n = rw q at e in ground arith)
      | inr q ↦ elim (Bool-cases (k == i.key)) [
        | inl p ↦ rw (p, key i, q) (rw q at e)
        | inr p ↦ rw (p, q) (find-change_key j k is (rw q at e))
      ]
    ]

    pub change_key-Unique : (k : ℕ) (is : List (Item V)) → Unique is → Unique (change_key k f is)
    change_key-Unique k [] u = tt
    change_key-Unique k (i ∷ is) u = elim (Bool-cases (k == i.key)) [
      | inl p ↦ rw (p, key i) u
      | inr p ↦ rw p (find-change_key i.key k is u.0, change_key-Unique k is u.1)
    ]

    pub held-change_key :
        (j k : ℕ) (is : List (Item V)) (i : Item V)
        → find k is ≡ some i
        → held j (change_key k f is) ≡ (if j == k then (f i).ref_count else held j is)
    held-change_key j k [] i e = absurd (ground arith)
    held-change_key j k (h ∷ is) i e = elim (Bool-cases (k == h.key)) [
      | inl p ↦
          let same : h ≡ i = let r = rw p at e in cc in
          let at_h = (==_iff k h.key).0 p in
          rw (p, key h, at_h, same) (elim (Bool-cases (j == i.key)) [ inl q ↦ rw q | inr q ↦ rw q ])
      | inr p ↦
          let ih = held-change_key j k is i (rw p at e) in
          rw p (elim (Bool-cases (j == h.key)) [
            | inl q ↦ let other : (j == k) ≡ false = ground arith in rw (q, other)
            | inr q ↦ rw q ih
          ])
    ]
