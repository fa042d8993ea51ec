-- ===== src/FragDag/Compaction/Run.antt =====
-- The list around a fragment is a row of adjacent fragments, bounded by the width.
use kdi.Common.{
  ℕ, zero, suc, ◌+◌, ◌-◌, ◌≤◌, ◌<◌, ◌≡◌, refl, sym, ap, subst, ◌∙◌, true, some, List, [], ◌∷◌, ◌++◌,
  arith, Bool-cases, Option-cases, inl, inr, ◌==◌, ==_iff, length, take, drop, append_assoc, member,
  lookup, Distinct,
}
use kdi.FragDag.{Dag}
use kdi.FragDag.Compaction.{grow}
use kdi.FragDag.Compaction.Grow.{below, known, grow_lem}

take-drop : (n : ℕ) (s : List ℕ) → take n s ++ drop n s ≡ s
take-drop zero s = refl
take-drop (suc n) [] = refl
take-drop (suc n) (f ∷ s) = ap (◌∷◌ f) (take-drop n s)

length-take : (n : ℕ) (s : List ℕ) → length (take n s) ≤ n
length-take zero s = omega arith
length-take (suc n) [] = omega arith
length-take (suc n) (f ∷ s) = omega (arith, length-take n s)

length-below : (above s : List ℕ) → length (below above s) ≡ length above + length s
length-below [] s = omega arith
length-below (f ∷ above) s = omega (arith, length-below above (f ∷ s))

below_append : (a b s : List ℕ) → below (a ++ b) s ≡ below b (below a s)
below_append [] b s = refl
below_append (f ∷ a) b s = below_append a b (f ∷ s)

append-below : (above s t : List ℕ) → below above (s ++ t) ≡ below above s ++ t
append-below [] s t = refl
append-below (f ∷ above) s t = append-below above (f ∷ s) t

known_rest : (d : Dag) (s : List ℕ) → (after : List ℕ) × (s ≡ known d s ++ after)
known_rest d [] = ([], refl)
known_rest d (f ∷ s) =
    let (after, e) = known_rest d s in
    elim (Option-cases (lookup f d.active_tablets)) [
      | inl n ↦ (f ∷ s, rw (n, known) refl)
      | inr (ts, n) ↦ (after, rw (n, known) (ap (◌∷◌ f) e))
    ]

member-below : (f : ℕ) (above s : List ℕ) → member f s ≡ true → member f (below above s) ≡ true
member-below f [] s m = m
member-below f (g ∷ above) s m = member-below f above (g ∷ s) (ground arith)

-- Where a member of a chain stands in it.
place :
    (f : ℕ) (above s : List ℕ)
    → member f s ≡ true
    → (over : List ℕ) × (under : List ℕ) × (below above s ≡ below over (f ∷ under))
place f above [] m = absurd (ground arith)
place f above (g ∷ s) m = elim (Bool-cases (f == g)) [
  | inl e ↦ let same = (==_iff f g).0 e in (above, s, rw same refl)
  | inr e ↦ place f (g ∷ above) s (rw e at m)
]

-- A list of adjacent fragments of a chain with the fragment `f` in it.
pub record IsAround (width : ℕ) (chain : List ℕ) (f : ℕ) (list : List ℕ) : Type 0 where
  pub before : List ℕ
  pub after : List ℕ
  pub split : chain ≡ before ++ (list ++ after)
  pub inside : member f list ≡ true
  pub bound : 1 < length list → length list ≤ width

around :
    (n : ℕ) (above children after : List ℕ) (f : ℕ)
    → below above (f ∷ (children ++ after))
      ≡ below (drop n above) [] ++ (below (take n above) (f ∷ children) ++ after)
around n above children after f =
    let split = take-drop n above in
    sym (ap (λ a. below a (f ∷ (children ++ after))) split)
    ∙ below_append (take n above) (drop n above) (f ∷ (children ++ after))
    ∙ append-below (drop n above) [] (below (take n above) (f ∷ (children ++ after)))
    ∙ ap (λ s. below (drop n above) [] ++ s) (append-below (take n above) (f ∷ children) after)

pub grow-IsAround :
    (width : ℕ) (d : Dag) (chain : List ℕ) (f : ℕ)
    → Distinct chain
    → member f chain ≡ true
    → (list : List ℕ) × (grow width d chain f ≡ some list) × IsAround width chain f list
grow-IsAround width d chain f h m =
    let (above, s, e) = place f [] chain m in
    let (after, k) = known_rest d s in
    let children = take (width - 1) (known d s) in
    let n = width - suc (length children) in
    let small = length-take (width - 1) (known d s) in
    let few = length-take n above in
    let size = length-below (take n above) (f ∷ children) in
    let rest = drop (width - 1) (known d s) ++ after in
    let halves = ap (λ t. t ++ after) (take-drop (width - 1) (known d s)) in
    let split : s ≡ children ++ rest =
      k ∙ sym halves ∙ append_assoc children (drop (width - 1) (known d s)) after in
    (
      below (take n above) (f ∷ children),
      subst (λ c. grow width d c f ≡ some (below (take n above) (f ∷ children))) (sym e)
          (grow_lem width d f above s (subst Distinct e h)),
      record {
        before = below (drop n above) [];
        after = rest;
        split = e ∙ ap (λ t. below above (f ∷ t)) split ∙ around n above children rest f;
        inside = member-below f (take n above) (f ∷ children) (ground arith);
        bound = λ l. omega arith;
      },
    )
