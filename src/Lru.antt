-- ===== src/Lru.antt =====
-- The cache of src/cc/warp/lru_cache.h. A key is a number; the value's initialisation and size are
-- parameters. An item stands in the index exactly when it is in the usage list, so both are one
-- list of items, the least recently used first; a value's address is the key of its item.
pub mod Items
pub mod Loops
pub mod Sizes
pub mod Holders
pub mod Access
mod Examples
use kdi.Common.{
  ℕ, ◌+◌, ◌-◌, ◌^◌, ◌%◌, Bool, true, false, ◌||◌, ◌&&◌, Option, none, some, List, [], ◌∷◌, ◌++◌,
  ltb, ◌==◌, if◌then◌else◌, length,
}

pub record Item {ℓ} (V : Type ℓ) : Type ℓ where
  pub key : ℕ
  pub value : V
  pub ref_count : ℕ
  pub removed : Bool

pub record LruCache {ℓ} (V : Type ℓ) : Type ℓ where
  pub items : List (Item V)
  pub cur_size : ℕ
  pub max_size : ℕ

-- `size_t` arithmetic.
abbrev pub add64 : ℕ → ℕ → ℕ
add64 a b = (a + b) % 2 ^ 64

abbrev pub sub64 : ℕ → ℕ → ℕ
sub64 a b = (a + (2 ^ 64 - b % 2 ^ 64)) % 2 ^ 64

module _ {ℓ} {V : Type ℓ} where
  abbrev pub find : ℕ → List (Item V) → Option (Item V)
  find k [] = none
  find k (i ∷ is) = if k == i.key then some i else find k is

  -- The list without the item of a key.
  abbrev pub drop_key : ℕ → List (Item V) → List (Item V)
  drop_key k [] = []
  drop_key k (i ∷ is) = let rest = drop_key k is in if k == i.key then rest else i ∷ rest

  -- The list with the item of a key changed in place.
  abbrev pub change_key : ℕ → (Item V → Item V) → List (Item V) → List (Item V)
  change_key k f [] = []
  change_key k f (i ∷ is) =
      let rest = change_key k f is in if k == i.key then f i ∷ is else i ∷ rest

  abbrev pub mark_removed : Item V → Item V
  mark_removed i = record { key = i.key; value = i.value; ref_count = i.ref_count; removed = true }

  abbrev pub pin : Item V → Item V
  pin i = record { key = i.key; value = i.value; ref_count = add64 i.ref_count 1; removed = false }

  abbrev pub unpin : Bool → Item V → Item V
  unpin remove i = record {
    key = i.key;
    value = i.value;
    ref_count = sub64 i.ref_count 1;
    removed = remove || i.removed;
  }

  unfoldable pub contains : ℕ → LruCache V → Bool
  contains k c = elim (find k c.items) [ none ↦ false | some i ↦ true ]

  unfoldable pub size : LruCache V → ℕ
  size c = c.cur_size

  unfoldable pub count : LruCache V → ℕ
  count c = length c.items

module _ {ℓ} {V : Type ℓ} (init : ℕ → V) (size_of : V → ℕ) where
  -- The loop of `flushToSize` over the usage list, with the current size.
  unfoldable pub flush : ℕ → List (Item V) → ℕ → List (Item V) × ℕ
  flush target [] cur = ([], cur)
  flush target (i ∷ is) cur = elim (ltb target cur) [
    | false ↦ (i ∷ is, cur)
    | true ↦ elim (i.ref_count == 0) [
      | true ↦ flush target is (sub64 cur (size_of i.value))
      | false ↦ let r = flush target is cur in (i ∷ r.0, r.1)
    ]
  ]

  unfoldable pub flush_to_size : ℕ → LruCache V → LruCache V
  unfolding flush
  flush_to_size target c =
      let r = flush target c.items c.cur_size in
      record { items = r.0; cur_size = r.1; max_size = c.max_size }

  unfoldable pub remove_item : Item V → LruCache V → LruCache V
  remove_item i c = record {
    items = drop_key i.key c.items;
    cur_size = sub64 c.cur_size (size_of i.value);
    max_size = c.max_size;
  }

  -- The new item is not in the usage list before its `moveToBack`, so that the flush passes it.
  unfoldable pub make_room : V → LruCache V → LruCache V
  make_room v c =
      let grown : LruCache V = record {
        items = c.items;
        cur_size = add64 c.cur_size (size_of v);
        max_size = c.max_size;
      } in
      if ltb grown.cur_size c.max_size then grown else flush_to_size c.max_size grown

  unfoldable pub push_back : Item V → LruCache V → LruCache V
  push_back i c = record {
    items = c.items ++ (i ∷ []);
    cur_size = c.cur_size;
    max_size = c.max_size;
  }

  unfoldable pub get : ℕ → LruCache V → LruCache V
  unfolding make_room push_back
  get k c = elim (find k c.items) [
    | none ↦
        push_back (record { key = k; value = init k; ref_count = 1; removed = false })
          (make_room (init k) c)
    | some i ↦
        push_back (pin i)
          (record { items = drop_key k c.items; cur_size = c.cur_size; max_size = c.max_size })
  ]

  unfoldable pub set_items : List (Item V) → LruCache V → LruCache V
  set_items is c = record { items = is; cur_size = c.cur_size; max_size = c.max_size }

  unfoldable pub remove : ℕ → LruCache V → LruCache V
  unfolding set_items
  remove k c = elim (find k c.items) [
    | none ↦ c
    | some i ↦
        if i.ref_count == 0
        then remove_item i c
        else set_items (change_key k mark_removed c.items) c
  ]

  -- Releasing a value that is not in the cache is undefined.
  unfoldable pub release : ℕ → Bool → LruCache V → Option (LruCache V)
  unfolding set_items
  release k remove c = elim (find k c.items) [
    | none ↦ none
    | some i ↦
        let j = unpin remove i in
        if (j.ref_count == 0) && (j.removed || ltb c.max_size c.cur_size)
        then some (remove_item j c)
        else some (set_items (change_key k (unpin remove) c.items) c)
  ]

  unfoldable pub remove_all : LruCache V → LruCache V
  remove_all c = flush_to_size 0 c

  unfoldable pub remove_before : ℕ → List (Item V) → ℕ → List (Item V) × ℕ
  remove_before mark [] cur = ([], cur)
  remove_before mark (i ∷ is) cur = elim (i.key == mark) [
    | true ↦ (i ∷ is, cur)
    | false ↦ elim (i.ref_count == 0) [
      | true ↦ remove_before mark is (sub64 cur (size_of i.value))
      | false ↦ let r = remove_before mark is cur in (mark_removed i ∷ r.0, r.1)
    ]
  ]

  unfoldable pub remove_until : ℕ → LruCache V → LruCache V
  unfolding remove_before
  remove_until mark c =
      let r = remove_before mark c.items c.cur_size in
      record { items = r.0; cur_size = r.1; max_size = c.max_size }
