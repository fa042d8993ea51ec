-- ===== src/Common/Maps.antt =====
-- `std::set` and `std::map` over numbers: sorted lists and sorted association lists.
use Prim.Native.Nat.{ℕ}
use mathlib.Core.Path.{◌≡◌, refl}
use mathlib.Core.Bool.{Bool, false, not, ◌&&◌, ◌||◌}
use mathlib.Core.List.{List, [], ◌∷◌}
use mathlib.Core.Option.{Option, none, some}
use native.Mathlib.Omega.{arith}
use kdi.Common.Tests.{ltb, ◌==◌, if◌then◌else◌}

abbrev pub member : ℕ → List ℕ → Bool
member x [] = false
member x (y ∷ s) = (x == y) || member x s

abbrev pub insert : ℕ → List ℕ → List ℕ
insert x [] = x ∷ []
insert x (y ∷ s) =
    let rest = insert x s in if x == y then y ∷ s else if ltb x y then x ∷ y ∷ s else y ∷ rest

abbrev pub erase : ℕ → List ℕ → List ℕ
erase x [] = []
erase x (y ∷ s) = let rest = erase x s in if x == y then rest else y ∷ rest

pub member-insert : (x y : ℕ) (s : List ℕ) → member y (insert x s) ≡ ((y == x) || member y s)
member-insert x y [] = refl
member-insert x y (z ∷ s) = let ih = member-insert x y s in ground arith

pub member-erase : (x y : ℕ) (s : List ℕ) → member y (erase x s) ≡ (not (y == x) && member y s)
member-erase x y [] = ground arith
member-erase x y (z ∷ s) = let ih = member-erase x y s in ground arith

module _ {ℓ} {V : Type ℓ} where
  abbrev pub lookup : ℕ → List (ℕ × V) → Option V
  lookup k [] = none
  lookup k ((j, v) ∷ m) = if k == j then some v else lookup k m

  -- `m[k] = v`
  abbrev pub assign : ℕ → V → List (ℕ × V) → List (ℕ × V)
  assign k v [] = (k, v) ∷ []
  assign k v ((j, w) ∷ m) =
      let rest = assign k v m in
      if k == j then (k, v) ∷ m else if ltb k j then (k, v) ∷ (j, w) ∷ m else (j, w) ∷ rest

  -- `m.erase(k)`
  abbrev pub remove : ℕ → List (ℕ × V) → List (ℕ × V)
  remove k [] = []
  remove k ((j, w) ∷ m) = let rest = remove k m in if k == j then rest else (j, w) ∷ rest

  pub lookup-assign :
      (k j : ℕ) (v : V) (m : List (ℕ × V))
      → lookup j (assign k v m) ≡ (if j == k then some v else lookup j m)
  lookup-assign k j v [] = refl
  lookup-assign k j v ((i, w) ∷ m) = let ih = lookup-assign k j v m in ground arith

  pub lookup-remove :
      (k j : ℕ) (m : List (ℕ × V)) → lookup j (remove k m) ≡ (if j == k then none else lookup j m)
  lookup-remove k j [] = ground arith
  lookup-remove k j ((i, w) ∷ m) = let ih = lookup-remove k j m in ground arith

-- No number occurs twice.
abbrev pub Distinct : List ℕ → Type 0
Distinct [] = Unit
Distinct (x ∷ s) = (member x s ≡ false) × Distinct s
