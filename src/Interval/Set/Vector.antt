-- ===== src/Interval/Set/Vector.antt =====
-- `vector::insert` and `vector::erase`, by what stands before and after the iterator.
use kdi.Common.{
  ℕ, suc, zero, ◌+◌, ◌≤◌, ◌≡◌, refl, ap, List, [], ◌∷◌, ◌++◌, arith, length, take, drop, get_elem?,
  some,
}
use kdi.Interval.Set.{insert}

module _ {ℓ} {A : Type ℓ} where
  pub drop-insert :
      (ps : List A) (i : ℕ) (x : A) → i ≤ length ps → drop i (insert ps i x) ≡ x ∷ drop i ps
  unfolding insert
  drop-insert ps zero x h = refl
  drop-insert (p ∷ ps) (suc i) x h = drop-insert ps i x (omega arith)
  drop-insert [] (suc i) x h = absurd (omega arith)

  pub drop-insert_after :
      (ps : List A) (i k : ℕ) (x : A)
      → i ≤ length ps
      → drop (i + suc k) (insert ps i x) ≡ drop k (drop i ps)
  unfolding insert
  drop-insert_after ps zero k x h = let e : 0 + suc k ≡ suc k = omega arith in rw e
  drop-insert_after (p ∷ ps) (suc i) k x h =
      let e : suc i + suc k ≡ suc (i + suc k) = omega arith in
      rw e (drop-insert_after ps i k x (omega arith))
  drop-insert_after [] (suc i) k x h = absurd (omega arith)

  pub get_elem?-insert :
      (ps : List A) (i : ℕ) (x : A) → i ≤ length ps → get_elem? (insert ps i x) i ≡ some x
  unfolding insert
  get_elem?-insert ps zero x h = refl
  get_elem?-insert (p ∷ ps) (suc i) x h = get_elem?-insert ps i x (omega arith)
  get_elem?-insert [] (suc i) x h = absurd (omega arith)

  pub get_elem?-insert_next :
      (ps : List A) (i : ℕ) (x : A)
      → i ≤ length ps
      → get_elem? (insert ps i x) (i + 1) ≡ get_elem? ps i
  unfolding insert
  get_elem?-insert_next [] zero x h = refl
  get_elem?-insert_next (p ∷ ps) zero x h = refl
  get_elem?-insert_next (p ∷ ps) (suc i) x h =
      let e : suc i + 1 ≡ suc (i + 1) = omega arith in
      rw e (get_elem?-insert_next ps i x (omega arith))
  get_elem?-insert_next [] (suc i) x h = absurd (omega arith)

  pub take-insert :
      (ps : List A) (i : ℕ) (x : A)
      → i ≤ length ps
      → take (i + 1) (insert ps i x) ≡ take i ps ++ (x ∷ [])
  unfolding insert
  take-insert ps zero x h = refl
  take-insert (p ∷ ps) (suc i) x h =
      let e : suc i + 1 ≡ suc (i + 1) = omega arith in
      rw e (ap (◌∷◌ p) (take-insert ps i x (omega arith)))
  take-insert [] (suc i) x h = absurd (omega arith)

  pub take-insert_before :
      (ps : List A) (i n : ℕ) (x : A) → n ≤ i → i ≤ length ps → take n (insert ps i x) ≡ take n ps
  unfolding insert
  take-insert_before ps i zero x h k = refl
  take-insert_before (p ∷ ps) (suc i) (suc n) x h k =
      ap (◌∷◌ p) (take-insert_before ps i n x (omega arith) (omega arith))
  take-insert_before [] (suc i) (suc n) x h k = absurd (omega arith)
  take-insert_before ps zero (suc n) x h k = absurd (omega arith)

  pub drop-length : (ps : List A) → drop (length ps) ps ≡ []
  drop-length [] = refl
  drop-length (p ∷ ps) = drop-length ps

  pub get_elem?-drop : (ps : List A) (i : ℕ) → get_elem? ps i ≡ get_elem? (drop i ps) 0
  get_elem?-drop [] zero = refl
  get_elem?-drop [] (suc i) = refl
  get_elem?-drop (p ∷ ps) zero = refl
  get_elem?-drop (p ∷ ps) (suc i) = get_elem?-drop ps i

  pub take-append-drop : (n : ℕ) (xs : List A) → take n xs ++ drop n xs ≡ xs
  take-append-drop zero xs = refl
  take-append-drop (suc n) [] = refl
  take-append-drop (suc n) (x ∷ xs) = ap (◌∷◌ x) (take-append-drop n xs)
