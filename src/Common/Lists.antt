-- ===== src/Common/Lists.antt =====
-- Lists measured and indexed by native numbers, under the library's names.
use Prim.Native.Nat.{ℕ, zero, suc, ◌+◌}
use mathlib.Core.Path.{◌≡◌, refl, ap}
use mathlib.Core.List.{List, [], ◌∷◌, ◌++◌}
use mathlib.Core.Option.{Option, none, some}
use native.Mathlib.Omega.{arith}

-- A predicate of every element; it computes to tuples, which the tactics read and build.
abbrev pub All {ℓ κ} : {A : Type ℓ} → (A → Type κ) → List A → Type κ
All P [] = Unit
All P (x ∷ xs) = P x × All P xs

module _ {ℓ} {A : Type ℓ} where
  abbrev pub length : List A → ℕ
  length [] = 0
  length (x ∷ xs) = suc (length xs)

  abbrev pub get_elem? : List A → ℕ → Option A
  get_elem? [] i = none
  get_elem? (x ∷ xs) zero = some x
  get_elem? (x ∷ xs) (suc i) = get_elem? xs i

  abbrev pub take : ℕ → List A → List A
  take zero xs = []
  take (suc n) [] = []
  take (suc n) (x ∷ xs) = x ∷ take n xs

  abbrev pub drop : ℕ → List A → List A
  drop zero xs = xs
  drop (suc n) [] = []
  drop (suc n) (x ∷ xs) = drop n xs

  abbrev pub replicate : ℕ → A → List A
  replicate zero a = []
  replicate (suc n) a = a ∷ replicate n a

  pub length-append : (xs ys : List A) → length (xs ++ ys) ≡ length xs + length ys
  length-append [] ys = omega arith
  length-append (x ∷ xs) ys = omega (arith, length-append xs ys)

  pub take-append : (xs ys : List A) → take (length xs) (xs ++ ys) ≡ xs
  take-append [] ys = refl
  take-append (x ∷ xs) ys = ap (◌∷◌ x) (take-append xs ys)

  pub drop-append : (xs ys : List A) → drop (length xs) (xs ++ ys) ≡ ys
  drop-append [] ys = refl
  drop-append (x ∷ xs) ys = drop-append xs ys

  pub get_elem?-append : (xs ys : List A) → get_elem? (xs ++ ys) (length xs) ≡ get_elem? ys 0
  get_elem?-append [] ys = refl
  get_elem?-append (x ∷ xs) ys = get_elem?-append xs ys

  pub All-append {κ} : (P : A → Type κ) (xs ys : List A) → All P xs → All P ys → All P (xs ++ ys)
  All-append P [] ys hx hy = hy
  All-append P (x ∷ xs) ys hx hy = (hx.0, All-append P xs ys hx.1 hy)

  abbrev pub set_elem : ℕ → A → List A → List A
  set_elem i x [] = []
  set_elem zero x (y ∷ xs) = x ∷ xs
  set_elem (suc i) x (y ∷ xs) = y ∷ set_elem i x xs

  -- The sum of the weights of a list's elements.
  abbrev pub total : (A → ℕ) → List A → ℕ
  total weight [] = 0
  total weight (x ∷ xs) = weight x + total weight xs

  pub total-set_elem :
      (weight : A → ℕ) (i : ℕ) (x y : A) (xs : List A)
      → get_elem? xs i ≡ some y
      → total weight (set_elem i x xs) + weight y ≡ total weight xs + weight x
  total-set_elem weight i x y [] e = absurd (ground arith)
  total-set_elem weight zero x y (z ∷ xs) e =
      let same : z ≡ y = cc in let weights = ap weight same in omega arith
  total-set_elem weight (suc i) x y (z ∷ xs) e =
      let ih = total-set_elem weight i x y xs e in omega arith

  pub length-set_elem : (i : ℕ) (x : A) (xs : List A) → length (set_elem i x xs) ≡ length xs
  length-set_elem i x [] = refl
  length-set_elem zero x (y ∷ xs) = refl
  length-set_elem (suc i) x (y ∷ xs) = ap suc (length-set_elem i x xs)

  pub get_elem?-set_elem :
      (i : ℕ) (x y : A) (xs : List A)
      → get_elem? xs i ≡ some y
      → get_elem? (set_elem i x xs) i ≡ some x
  get_elem?-set_elem i x y [] e = absurd (ground arith)
  get_elem?-set_elem zero x y (z ∷ xs) e = refl
  get_elem?-set_elem (suc i) x y (z ∷ xs) e = get_elem?-set_elem i x y xs e

  -- A list whose total is not zero has an element whose weight is not.
  pub find_weight :
      (weight : A → ℕ) (n : ℕ) (xs : List A)
      → total weight xs ≡ suc n
      → (i : ℕ) × (x : A) × (k : ℕ) × (get_elem? xs i ≡ some x) × (weight x ≡ suc k)
  find_weight weight n [] e = absurd (omega arith)
  find_weight weight n (x ∷ xs) e =
      head (weight x) refl (λ h. find_weight weight n xs (omega arith))
    where
      head :
          (k : ℕ)
          → weight x ≡ k
          → (weight x ≡ 0
              → (i : ℕ) × (y : A) × (k : ℕ) × (get_elem? xs i ≡ some y) × (weight y ≡ suc k))
          → (i : ℕ) × (y : A) × (k : ℕ) × (get_elem? (x ∷ xs) i ≡ some y) × (weight y ≡ suc k)
      head (suc k) h later = (0, x, k, refl, h)
      head zero h later = let (i, y, k, found, w) = later h in (suc i, y, k, found, w)

  pub All-zip {κ μ ν} :
      (P : A → Type κ) (Q : A → Type μ) (R : A → Type ν)
      → ((x : A) → P x → Q x → R x)
      → (xs : List A) → All P xs
      → All Q xs
      → All R xs
  All-zip P Q R f [] p q = tt
  All-zip P Q R f (x ∷ xs) p q = (f x p.0 q.0, All-zip P Q R f xs p.1 q.1)

  pub All-always {κ} : (P : A → Type κ) → ((x : A) → P x) → (xs : List A) → All P xs
  All-always P f [] = tt
  All-always P f (x ∷ xs) = (f x, All-always P f xs)
