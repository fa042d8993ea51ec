-- ===== src/Chain/Search.antt =====
-- `getFragmentParent` and `getFragmentChild` on a chain.
use kdi.Common.{
  ℕ, ◌≡◌, ap, ◌↔◌, true, false, Option, some, List, [], ◌∷◌, arith, Bool-cases, inl, inr, ◌==◌,
  ==_iff, member, Distinct,
}
use kdi.Chain.{parent_from, get_fragment_parent, get_fragment_child}

child-member :
    (s : List ℕ) (f : ℕ) (r : Option ℕ) → get_fragment_child s f ≡ some r → member f s ≡ true
unfolding get_fragment_child
child-member [] f r h = absurd (ground arith)
child-member (g ∷ s) f r h = elim (Bool-cases (f == g)) [
  | inl e ↦ rw e
  | inr e ↦ rw e (child-member s f r (rw e at h))
]

parent-member :
    (last : Option ℕ) (s : List ℕ) (f : ℕ) (r : Option ℕ)
    → parent_from last f s ≡ some r
    → member f s ≡ true
parent-member last [] f r h = absurd (ground arith)
parent-member last (g ∷ s) f r h = elim (Bool-cases (f == g)) [
  | inl e ↦ rw e
  | inr e ↦ rw e (parent-member (some g) s f r (rw e at h))
]

-- A member of the rest is not the first element.
Distinct-other : (g f : ℕ) (s : List ℕ) → Distinct (g ∷ s) → member f s ≡ true → (f == g) ≡ false
Distinct-other g f s d m = elim (Bool-cases (f == g)) [
  | inl e ↦ absurd (
      let same = (==_iff f g).0 e in
      let q : member g s ≡ true = rw (← same) m in let n = d.0 in ground arith)
  | inr e ↦ e
]

parent→child :
    (g f c : ℕ) (s : List ℕ)
    → Distinct (g ∷ s)
    → parent_from (some g) c s ≡ some (some f)
    → get_fragment_child (g ∷ s) f ≡ some (some c)
unfolding get_fragment_child
parent→child g f c [] d h = absurd (ground arith)
parent→child g f c (h ∷ s) d p = elim (Bool-cases (c == h)) [
  | inl e ↦
      let same = (==_iff c h).0 e in
      let q = rw e at p in
      let at_g : (f == g) ≡ true = ground arith in
      rw at_g (ap (λ x. some (some x)) (let r : h ≡ c = cc in r))
  | inr e ↦
      let ih = parent→child h f c s d.1 (rw e at p) in
      rw (Distinct-other g f (h ∷ s) d (child-member (h ∷ s) f (some c) ih)) ih
]

child→parent :
    (g f c : ℕ) (s : List ℕ)
    → Distinct (g ∷ s)
    → get_fragment_child (g ∷ s) f ≡ some (some c)
    → parent_from (some g) c s ≡ some (some f)
unfolding get_fragment_child
child→parent g f c [] d h = absurd (elim (Bool-cases (f == g)) [
  | inl e ↦ let q = rw e at h in ground arith
  | inr e ↦ let q = rw e at h in ground arith
])
child→parent g f c (h ∷ s) d p = elim (Bool-cases (f == g)) [
  | inl e ↦
      let same = (==_iff f g).0 e in
      let q = rw e at p in
      let at_h : (c == h) ≡ true = ground arith in
      rw at_h (ap (λ x. some (some x)) (let r : g ≡ f = cc in r))
  | inr e ↦
      let ih = child→parent h f c s d.1 (rw e at p) in
      rw (Distinct-other h c s d.1 (parent-member (some h) s c (some f) ih)) ih
]

-- In a chain of distinct fragments one fragment is the parent of another exactly when the other is
-- its child.
pub parent_iff_child :
    (fragments : List ℕ) (f c : ℕ)
    → Distinct fragments
    → (get_fragment_parent fragments c ≡ some (some f))
      ↔ (get_fragment_child fragments f ≡ some (some c))
unfolding get_fragment_parent
parent_iff_child [] f c d =
    (λ h. absurd (ground arith), λ h. absurd (let m = child-member [] f (some c) h in ground arith))
parent_iff_child (g ∷ s) f c d = (
  λ h. elim (Bool-cases (c == g)) [
    | inl e ↦ absurd (let q = rw e at h in ground arith)
    | inr e ↦ parent→child g f c s d (rw e at h)
  ],
  λ h.
      let k = child→parent g f c s d h in
      rw (Distinct-other g c s d (parent-member (some g) s c (some f) k)) k,
)
