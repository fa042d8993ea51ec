-- ===== src/Lru/Holders.antt =====
-- The operations of the cache of src/cc/warp/lru_cache.h against a count of references for each key.
use kdi.Common.{
  ℕ, ◌^◌, ◌%◌, ◌<◌, ◌≤◌, ◌⊎◌, All, ◌≡◌, refl, sym, ap, subst, ◌∙◌, some, List, arith, Bool-cases,
  Option-cases, inl, inr, ◌==◌, ==_iff, if◌then◌else◌,
}
use kdi.Lru.{
  Item, LruCache, find, drop_key, change_key, mark_removed, flush_to_size, remove_item, set_items,
  remove, remove_until,
}
use kdi.Lru.Items.{held, Unique, find-some, held-drop_key, drop_key-Unique}
use kdi.Lru.Loops.{total, Shrinks, flush-Shrinks, remove_before-Shrinks, flush_budget, sub64_back}
use kdi.Lru.Sizes.{total-drop_key, total-change_key, change_key-Unique, held-change_key}

module _ {ℓ} {V : Type ℓ} (init : ℕ → V) (size_of : V → ℕ) where
  -- A cache whose items have different keys and whose current size is that of its items.
  abbrev pub IsValid : LruCache V → Type ℓ
  IsValid c = Unique c.items × (c.cur_size ≡ total size_of c.items % 2 ^ 64)

  -- A valid cache in which each key has the given number of references.
  abbrev pub Holds : LruCache V → (ℕ → ℕ) → Type ℓ
  Holds c count = IsValid c × ((k : ℕ) → held k c.items ≡ count k)

  Shrinks-Holds :
      (c : LruCache V) (r : List (Item V) × ℕ)
      → IsValid c
      → Shrinks size_of c.items c.cur_size r
      → Holds (record { items = r.0; cur_size = r.1; max_size = c.max_size }) (λ k. held k c.items)
  Shrinks-Holds c r v h = (
    (
      h.unique v.0,
      h.sized 0 (v.1 ∙ ap (λ x. x % 2 ^ 64) (omega arith)) ∙ ap (λ x. x % 2 ^ 64) (omega arith),
    ),
    h.same,
  )

  -- Flushing a valid cache to a size keeps it valid and drops no item that a client holds;
  -- afterwards its size is within the target, or clients hold every item that is left.
  pub flush_to_size_lem :
      (target : ℕ) (c : LruCache V)
      → IsValid c
      → Holds (flush_to_size init size_of target c) (λ k. held k c.items)
        × (((flush_to_size init size_of target c).cur_size ≤ target)
            ⊎ All (λ i. 0 < i.ref_count) (flush_to_size init size_of target c).items)
  unfolding flush_to_size
  flush_to_size_lem target c v = (
    Shrinks-Holds c _ v (flush-Shrinks size_of init target c.items c.cur_size v.0),
    flush_budget size_of init target c.items c.cur_size,
  )

  -- Removing until a mark keeps a valid cache valid and drops no item that a client holds.
  pub remove_until-Holds :
      (mark : ℕ) (c : LruCache V)
      → IsValid c
      → Holds (remove_until init size_of mark c) (λ k. held k c.items)
  unfolding remove_until
  remove_until-Holds mark c v =
      Shrinks-Holds c _ v (remove_before-Shrinks size_of init mark c.items c.cur_size v.0)

  pub remove_item-Holds :
      (k : ℕ) (i j : Item V) (c : LruCache V)
      → IsValid c
      → find k c.items ≡ some i
      → j.key ≡ k
      → j.value ≡ i.value
      → Holds (remove_item init size_of j c) (λ m. if m == k then 0 else held m c.items)
  unfolding remove_item
  remove_item-Holds k i j c v e key value =
      rw (key, value)
        (
          (
            drop_key-Unique k c.items v.0,
            sub64_back c.cur_size (total size_of (drop_key k c.items)) (size_of i.value)
                (v.1 ∙ ap (λ x. x % 2 ^ 64) (total-drop_key size_of k c.items i v.0 e)),
          ),
          λ m. held-drop_key m k c.items,
        )

  pub Holds-change : (c : LruCache V) (p q : ℕ → ℕ) → Holds c p → ((k : ℕ) → p k ≡ q k) → Holds c q
  Holds-change c p q h e = (h.0, λ k. h.1 k ∙ e k)

  pub same_count :
      (m k n : ℕ) (is : List (Item V))
      → held k is ≡ n
      → (if m == k then n else held m is) ≡ held m is
  same_count m k n is e = elim (Bool-cases (m == k)) [
    | inl q ↦ let at_k = (==_iff m k).0 q in rw (q, at_k) (sym e)
    | inr q ↦ rw q
  ]

  absent_count :
      (m k : ℕ) (i : Item V) (is : List (Item V))
      → held k is ≡ i.ref_count
      → i.ref_count ≡ 0
      → (if m == k then 0 else held m is) ≡ held m is
  absent_count m k i is e z = same_count m k 0 is (e ∙ z)

  -- A change of one item that keeps its key and its value.
  pub change-Holds :
      (f : Item V → Item V)
      → ((i : Item V) → (f i).key ≡ i.key)
      → ((i : Item V) → (f i).value ≡ i.value)
      → (k : ℕ) (i : Item V) (c : LruCache V) → IsValid c
      → find k c.items ≡ some i
      → Holds
          (set_items init size_of (change_key k f c.items) c)
          (λ m. if m == k then (f i).ref_count else held m c.items)
  unfolding set_items
  change-Holds f key value k i c v e = (
    (
      change_key-Unique size_of f key value k c.items v.0,
      v.1 ∙ ap (λ x. x % 2 ^ 64) (sym (total-change_key size_of f key value k c.items)),
    ),
    λ m. held-change_key size_of f key value m k c.items i e,
  )

  -- Removing a key keeps a valid cache valid and drops no item that a client holds.
  pub remove-Holds :
      (k : ℕ) (c : LruCache V) → IsValid c → Holds (remove init size_of k c) (λ m. held m c.items)
  unfolding remove
  remove-Holds k c v = elim (Option-cases (find k c.items)) [
    | inl e ↦
        let q : remove init size_of k c ≡ c = rw (e, remove) in
        subst (λ x. Holds x (λ m. held m c.items)) (sym q) (v, λ m. refl)
    | inr (i, e) ↦
        let found = find-some k c.items i e in
        elim (Bool-cases (i.ref_count == 0)) [
          | inl z ↦
              let q : remove init size_of k c ≡ remove_item init size_of i c = rw (e, remove, z) in
              subst (λ x. Holds x (λ m. held m c.items)) (sym q)
                (Holds-change (remove_item init size_of i c) _ _
                  (remove_item-Holds k i i c v e found.0 refl)
                  (λ m. absent_count m k i c.items found.1 ((==_iff i.ref_count 0).0 z)))
          | inr z ↦
              let q : remove init size_of k c
                  ≡ set_items init size_of (change_key k mark_removed c.items) c =
                rw (e, remove, z) in
              subst (λ x. Holds x (λ m. held m c.items)) (sym q)
                (Holds-change (set_items init size_of (change_key k mark_removed c.items) c) _ _
                  (change-Holds mark_removed (λ j. refl) (λ j. refl) k i c v e)
                  (λ m. same_count m k i.ref_count c.items found.1))
        ]
  ]
