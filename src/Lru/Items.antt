-- ===== src/Lru/Items.antt =====
-- The items of the cache of src/cc/warp/lru_cache.h: references held, total size, and what the loops
-- of `flushToSize` and `removeUntil` keep.
use kdi.Common.{
  ℕ, ◌≡◌, refl, sym, ap, ◌∙◌, false, none, some, List, [], ◌∷◌, ◌++◌, arith, Bool-cases, inl, inr,
  ◌==◌, ==_iff, if◌then◌else◌,
}
use kdi.Lru.{Item, find, drop_key}

module _ {ℓ} {V : Type ℓ} where
  -- The number of references to a key's item that clients hold.
  abbrev pub held : ℕ → List (Item V) → ℕ
  held k [] = 0
  held k (i ∷ is) = if k == i.key then i.ref_count else held k is

  -- The keys of the items are different.
  abbrev pub Unique : List (Item V) → Type ℓ
  Unique [] = Unit
  Unique (i ∷ is) = (find i.key is ≡ none) × Unique is

  pub find-held : (k : ℕ) (is : List (Item V)) → find k is ≡ none → held k is ≡ 0
  find-held k [] e = refl
  find-held k (i ∷ is) e = elim (Bool-cases (k == i.key)) [
    | inl q ↦ absurd (let r = rw q at e in ground arith)
    | inr q ↦ rw q (find-held k is (rw q at e))
  ]

  pub find-some :
      (k : ℕ) (is : List (Item V)) (i : Item V)
      → find k is ≡ some i
      → (i.key ≡ k) × (held k is ≡ i.ref_count)
  find-some k [] i e = absurd (ground arith)
  find-some k (j ∷ is) i e = elim (Bool-cases (k == j.key)) [
    | inl q ↦
        let same : j ≡ i = let r = rw q at e in cc in
        (ap (λ x. x.key) (sym same) ∙ sym ((==_iff k j.key).0 q), rw q (ap (λ x. x.ref_count) same))
    | inr q ↦ rw q (find-some k is i (rw q at e))
  ]

  pub held-drop_key :
      (j k : ℕ) (is : List (Item V)) → held j (drop_key k is) ≡ (if j == k then 0 else held j is)
  held-drop_key j k [] = ground arith
  held-drop_key j k (i ∷ is) = let ih = held-drop_key j k is in ground arith

  pub find-drop_key :
      (j k : ℕ) (is : List (Item V)) → find j is ≡ none → find j (drop_key k is) ≡ none
  find-drop_key j k [] e = refl
  find-drop_key j k (i ∷ is) e = elim (Bool-cases (j == i.key)) [
    | inl q ↦ absurd (let r = rw q at e in ground arith)
    | inr q ↦
        let ih = find-drop_key j k is (rw q at e) in
        elim (Bool-cases (k == i.key)) [ inl p ↦ rw p ih | inr p ↦ rw (p, q) ih ]
  ]

  pub find-drop_same : (k : ℕ) (is : List (Item V)) → find k (drop_key k is) ≡ none
  find-drop_same k [] = refl
  find-drop_same k (i ∷ is) =
      let ih = find-drop_same k is in
      elim (Bool-cases (k == i.key)) [ inl p ↦ rw p ih | inr p ↦ rw (p, p) ih ]

  pub drop_key-Unique : (k : ℕ) (is : List (Item V)) → Unique is → Unique (drop_key k is)
  drop_key-Unique k [] u = tt
  drop_key-Unique k (i ∷ is) u =
      let ih = drop_key-Unique k is u.1 in
      elim (Bool-cases (k == i.key)) [
        | inl p ↦ rw p ih
        | inr p ↦ rw p (find-drop_key i.key k is u.0, ih)
      ]

  pub held-append :
      (j : ℕ) (is : List (Item V)) (i : Item V)
      → find i.key is ≡ none
      → held j (is ++ (i ∷ [])) ≡ (if j == i.key then i.ref_count else held j is)
  held-append j [] i e = refl
  held-append j (h ∷ is) i e = elim (Bool-cases (i.key == h.key)) [
    | inl q ↦ absurd (let r = rw q at e in ground arith)
    | inr q ↦ let ih = held-append j is i (rw q at e) in ground arith
  ]

  find-append :
      (j : ℕ) (is : List (Item V)) (i : Item V)
      → (j == i.key) ≡ false
      → find j is ≡ none
      → find j (is ++ (i ∷ [])) ≡ none
  find-append j [] i n e = rw n
  find-append j (h ∷ is) i n e = elim (Bool-cases (j == h.key)) [
    | inl q ↦ absurd (let r = rw q at e in ground arith)
    | inr q ↦ rw q (find-append j is i n (rw q at e))
  ]

  pub append-Unique :
      (is : List (Item V)) (i : Item V) → find i.key is ≡ none → Unique is → Unique (is ++ (i ∷ []))
  append-Unique [] i e u = (refl, tt)
  append-Unique (h ∷ is) i e u = elim (Bool-cases (i.key == h.key)) [
    | inl q ↦ absurd (let r = rw q at e in ground arith)
    | inr q ↦
        let other : (h.key == i.key) ≡ false = ground arith in
        (find-append h.key is i other u.0, append-Unique is i (rw q at e) u.1)
  ]
