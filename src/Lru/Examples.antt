-- ===== src/Lru/Examples.antt =====
-- A cache of two numbers: tests, and the theorems at concrete inputs.
use kdi.Common.{ℕ, ◌+◌, ◌-◌, ◌≡◌, refl, Bool, false, some, [], ◌∷◌, ◌==◌, if◌then◌else◌, arith}
use kdi.Lru.{Item, LruCache, get, release, remove, remove_all, flush_to_size, remove_item}
use kdi.Lru.Items.{held}
use kdi.Lru.Holders.{IsValid, Holds}
use kdi.Lru.Access.{get-Holds, release-Holds}

abbrev number : ℕ → ℕ
number k = k

abbrev one : ℕ → ℕ
one v = 1

abbrev item : ℕ → ℕ → Bool → Item ℕ
item k n r = record { key = k; value = k; ref_count = n; removed = r }

-- Key 4 is held once, key 5 is not.
abbrev cache : LruCache ℕ
cache = record { items = item 4 1 false ∷ item 5 0 false ∷ []; cur_size = 2; max_size = 2 }

abbrev released : LruCache ℕ
released = record { items = item 4 0 false ∷ item 5 0 false ∷ []; cur_size = 2; max_size = 2 }

cache-IsValid : IsValid number one cache
cache-IsValid = ((refl, (refl, tt)), refl)

flushes_the_free_item :
    get number one 6 (record { items = cache.items; cur_size = 2; max_size = 2 })
    ≡ record { items = item 4 1 false ∷ item 6 1 false ∷ []; cur_size = 2; max_size = 2 }
unfolding get flush_to_size
flushes_the_free_item = refl

releases_an_item : release number one 4 false cache ≡ some released
unfolding release
releases_an_item = refl

-- `removeAll` leaves the removal flag of a held item clear, so that its release keeps it, and
-- `remove` sets the flag, so that its release removes the item.
keeps_a_held_item :
    (release number one 4 false (remove_all number one cache)
      ≡ some (record { items = item 4 0 false ∷ []; cur_size = 1; max_size = 2 }))
    × (release number one 4 false (remove number one 5 (remove number one 4 cache))
        ≡ some (record { items = []; cur_size = 0; max_size = 2 }))
unfolding release remove remove_all flush_to_size remove_item
keeps_a_held_item = (refl, refl)

get-Holds_example :
    Holds number one (get number one 6 cache) (λ m. if m == 6 then 0 + 1 else held m cache.items)
get-Holds_example = get-Holds number one 6 cache cache-IsValid (omega arith)

release-Holds_example :
    Holds number one released (λ m. if m == 4 then 1 - 1 else held m cache.items)
release-Holds_example =
    release-Holds number one 4 false cache released cache-IsValid (omega arith) (omega arith)
      releases_an_item
