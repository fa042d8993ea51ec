-- ===== src/Lru/Access.antt =====
-- `get` and `release` of the cache of src/cc/warp/lru_cache.h count the references to a key's item.
use kdi.Common.{
  ℕ, ◌+◌, ◌-◌, ◌^◌, ◌%◌, ◌<◌, ◌≡◌, refl, sym, ap, subst, ◌∙◌, Bool, false, ◌&&◌, ◌||◌, none, some,
  arith, Bool-cases, Option-cases, and-true, inl, inr, ltb, ◌==◌, ==_iff, if◌then◌else◌,
}
use kdi.Lru.{
  Item, LruCache, add64, sub64, find, drop_key, change_key, pin, unpin, flush_to_size, remove_item,
  make_room, push_back, get, set_items, release,
}
use kdi.Lru.Items.{
  held, Unique, find-held, find-some, held-drop_key, find-drop_same, drop_key-Unique, held-append,
  append-Unique,
}
use kdi.Lru.Loops.{total, Shrinks, Shrinks-refl, flush-Shrinks}
use kdi.Lru.Sizes.{total-drop_key, total-append}
use kdi.Lru.Holders.{IsValid, Holds, Holds-change, remove_item-Holds, change-Holds}

add64_total : (cur a t : ℕ) → cur ≡ t % 2 ^ 64 → add64 cur a ≡ (a + t) % 2 ^ 64
add64_total cur a t e = omega arith

module _ {ℓ} {V : Type ℓ} (init : ℕ → V) (size_of : V → ℕ) where
  -- Releasing a key whose item clients hold, fewer than 2 to the 64 times, keeps a valid cache
  -- valid, takes one reference off the
  -- key, and leaves the references to all other keys.
  pub release-Holds :
      (k : ℕ) (b : Bool) (c d : LruCache V)
      → IsValid init size_of c
      → 0 < held k c.items
      → held k c.items < 2 ^ 64
      → release init size_of k b c ≡ some d
      → Holds init size_of d (λ m. if m == k then held k c.items - 1 else held m c.items)
  unfolding release
  release-Holds k b c d v pos bound r = elim (Option-cases (find k c.items)) [
    | inl e ↦ absurd (let n = find-held k c.items e in omega arith)
    | inr (i, e) ↦
        let found = find-some k c.items i e in
        let left : sub64 i.ref_count 1 ≡ held k c.items - 1 = let n = found.1 in omega arith in
        elim (Bool-cases
          ((sub64 i.ref_count 1 == 0) && ((b || i.removed) || ltb c.max_size c.cur_size))) [
            | inl z ↦
                let q : some (remove_item init size_of (unpin b i) c) ≡ some d =
                  let s = rw (e, release, z) at r in s in
                let same : remove_item init size_of (unpin b i) c ≡ d = cc in
                subst
                  (λ x.
                    Holds init size_of x
                      (λ m. if m == k then held k c.items - 1 else held m c.items))
                  same
                  (Holds-change init size_of (remove_item init size_of (unpin b i) c) _ _
                    (remove_item-Holds init size_of k i (unpin b i) c v e found.0 refl)
                    (λ m.
                      let zero_left =
                        (==_iff (sub64 i.ref_count 1) 0).0
                          (and-true (sub64 i.ref_count 1 == 0) _ z).0 in
                      ap (λ n. if m == k then n else held m c.items) (sym zero_left ∙ left)))
            | inr z ↦
                let q : some (set_items init size_of (change_key k (unpin b) c.items) c) ≡ some d =
                  let s = rw (e, release, z) at r in s in
                let same : set_items init size_of (change_key k (unpin b) c.items) c ≡ d = cc in
                subst
                  (λ x.
                    Holds init size_of x
                      (λ m. if m == k then held k c.items - 1 else held m c.items))
                  same
                  (Holds-change init size_of
                    (set_items init size_of (change_key k (unpin b) c.items) c) _ _
                    (change-Holds init size_of (unpin b) (λ j. refl) (λ j. refl) k i c v e)
                    (λ m. ap (λ n. if m == k then n else held m c.items) left))
          ]
  ]

  -- Room for a new value: the items left are old ones, and the size counts the value.
  make_room-Shrinks :
      (v : V) (c : LruCache V)
      → IsValid init size_of c
      → Shrinks size_of c.items
          (add64 c.cur_size (size_of v))
          ((make_room init size_of v c).items, (make_room init size_of v c).cur_size)
  unfolding make_room flush_to_size
  make_room-Shrinks v c h = elim (Bool-cases (ltb (add64 c.cur_size (size_of v)) c.max_size)) [
    | inl l ↦ rw l (Shrinks-refl size_of c.items (add64 c.cur_size (size_of v)))
    | inr l ↦
        rw l (flush-Shrinks size_of init c.max_size c.items (add64 c.cur_size (size_of v)) h.0)
  ]

  push_back-Holds :
      (i : Item V) (k : ℕ) (c : LruCache V)
      → i.key ≡ k
      → Unique c.items
      → find k c.items ≡ none
      → c.cur_size ≡ (size_of i.value + total size_of c.items) % 2 ^ 64
      → Holds init size_of
          (push_back init size_of i c)
          (λ m. if m == k then i.ref_count else held m c.items)
  unfolding push_back
  push_back-Holds i k c key u new sized = rw (← key) (
    (
      append-Unique c.items i (rw key new) u,
      sized ∙ ap (λ x. x % 2 ^ 64) (let t = total-append size_of c.items i in omega arith),
    ),
    λ m. held-append m c.items i (rw key new),
  )

  -- Getting a key keeps a valid cache valid, adds one reference to the key, and leaves the
  -- references to all other keys, whatever is flushed to make room, if the count of references of
  -- the key does not reach 2 to the 64.
  pub get-Holds :
      (k : ℕ) (c : LruCache V)
      → IsValid init size_of c
      → held k c.items + 1 < 2 ^ 64
      → Holds init size_of
          (get init size_of k c)
          (λ m. if m == k then held k c.items + 1 else held m c.items)
  unfolding get push_back
  get-Holds k c v bound = elim (Option-cases (find k c.items)) [
    | inl e ↦
        let s = make_room-Shrinks (init k) c v in
        let fresh : Item V = record { key = k; value = init k; ref_count = 1; removed = false } in
        let q : get init size_of k c
            ≡ push_back init size_of fresh (make_room init size_of (init k) c) =
          rw (e, get) in
        subst
          (λ x. Holds init size_of x (λ m. if m == k then held k c.items + 1 else held m c.items))
          (sym q)
          (Holds-change init size_of
            (push_back init size_of fresh (make_room init size_of (init k) c)) _ _
            (push_back-Holds fresh k (make_room init size_of (init k) c) refl (s.unique v.0)
              (s.old k e)
              (s.sized (size_of (init k))
                (add64_total c.cur_size (size_of (init k)) (total size_of c.items) v.1)))
            (λ m. let first = find-held k c.items e in let same = s.same m in rw (first, same)))
    | inr (i, e) ↦
        let found = find-some k c.items i e in
        let rest : LruCache V = record {
          items = drop_key k c.items;
          cur_size = c.cur_size;
          max_size = c.max_size;
        } in
        let q : get init size_of k c ≡ push_back init size_of (pin i) rest = rw (e, get) in
        let more : add64 i.ref_count 1 ≡ held k c.items + 1 = let n = found.1 in omega arith in
        subst
          (λ x. Holds init size_of x (λ m. if m == k then held k c.items + 1 else held m c.items))
          (sym q)
          (Holds-change init size_of (push_back init size_of (pin i) rest) _ _
            (push_back-Holds (pin i) k rest found.0 (drop_key-Unique k c.items v.0)
              (find-drop_same k c.items)
              (v.1
                ∙ ap (λ x. x % 2 ^ 64)
                    (let t = total-drop_key size_of k c.items i v.0 e in omega arith)))
            (λ m.
              let gone = held-drop_key m k c.items in
              elim (Bool-cases (m == k)) [ inl p ↦ rw p more | inr p ↦ rw p (gone ∙ rw p) ]))
  ]
