-- ===== src/FragDag/Compaction/Grow.antt =====
-- The list of `chooseCompactionSet` around a fragment, src/cc/kdi/tablet/FragDag.cc, in closed form.
use mathlib.Core.Option
use kdi.Common.{
  ℕ, zero, suc, ◌+◌, ◌-◌, ◌≤◌, ◌≡◌, refl, sym, ap, ◌∙◌, true, false, Option, none, some, List, [],
  ◌∷◌, ◌++◌, arith, Bool-cases, Option-cases, inl, inr, ltb, ◌==◌, length, take, length-append,
  append_assoc, append-nil, member, lookup, All, Distinct,
}
use kdi.Chain.{parent_from, first, get_fragment_parent, get_fragment_child}
use kdi.FragDag.{Dag}
use kdi.FragDag.Compaction.{known_child, get_child, add_children, add_parents, grow}

-- A chain, seen from one place in it: what stands above, the nearest first, and the rest.
abbrev pub below : List ℕ → List ℕ → List ℕ
below [] s = s
below (f ∷ above) s = below above (f ∷ s)

-- The fragments that stand first in a list and that the graph knows.
abbrev pub known : Dag → List ℕ → List ℕ
known d [] = []
known d (f ∷ s) =
    let rest = known d s in elim (lookup f d.active_tablets) [ none ↦ [] | some tablets ↦ f ∷ rest ]

Distinct-below :
    (above s : List ℕ) → Distinct (below above s) → Distinct s × All (λ f. member f s ≡ false) above
Distinct-below [] s h = (h, tt)
Distinct-below (f ∷ above) s h =
    let ih = Distinct-below above (f ∷ s) h in (ih.0.1, (ih.0.0, other above ih.1))
  where
    other :
        (fs : List ℕ) → All (λ g. member g (f ∷ s) ≡ false) fs → All (λ g. member g s ≡ false) fs
    other [] a = tt
    other (g ∷ fs) a = (let head = a.0 in ground arith, other fs a.1)

child-below :
    (f : ℕ) (above s : List ℕ)
    → Distinct (below above (f ∷ s))
    → get_fragment_child (below above (f ∷ s)) f ≡ some (first s)
unfolding get_fragment_child
child-below f above s h =
    skip above (f ∷ s) (Distinct-below above (f ∷ s) h).1
    ∙ (let same : (f == f) ≡ true = ground arith in rw same refl)
  where
    skip :
        (fs t : List ℕ)
        → All (λ g. member g (f ∷ s) ≡ false) fs
        → get_fragment_child (below fs t) f ≡ get_fragment_child t f
    skip [] t a = refl
    skip (g ∷ fs) t a =
        let head = a.0 in
        let other : (f == g) ≡ false = ground arith in skip fs (g ∷ t) a.1 ∙ rw other refl

nearest : Option ℕ → List ℕ → Option ℕ
nearest last [] = last
nearest last (f ∷ above) = some f

parent-below :
    (f : ℕ) (above s : List ℕ)
    → Distinct (below above (f ∷ s))
    → get_fragment_parent (below above (f ∷ s)) f ≡ some (first above)
unfolding get_fragment_parent nearest
parent-below f above s h =
    skip above (f ∷ s) (Distinct-below above (f ∷ s) h).1
    ∙ (let same : (f == f) ≡ true = ground arith in rw same (ap some (of_first above)))
  where
    of_first : (fs : List ℕ) → nearest none fs ≡ first fs
    of_first [] = refl
    of_first (g ∷ fs) = refl

    skip :
        (fs t : List ℕ)
        → All (λ g. member g (f ∷ s) ≡ false) fs
        → parent_from none f (below fs t) ≡ parent_from (nearest none fs) f t
    skip [] t a = refl
    skip (g ∷ fs) t a =
        let head = a.0 in
        let other : (f == g) ≡ false = ground arith in skip fs (g ∷ t) a.1 ∙ rw other refl

get_child_lem :
    (d : Dag) (f : ℕ) (above s : List ℕ)
    → Distinct (below above (f ∷ s))
    → get_child d (below above (f ∷ s)) f ≡ some (first (known d s))
unfolding get_child
get_child_lem d f above s h =
    ap (Option.map (known_child d)) (child-below f above s h) ∙ ap some (known_first s)
  where
    known_first : (t : List ℕ) → known_child d (first t) ≡ first (known d t)
    known_first [] = refl
    known_first (g ∷ t) = elim (Option-cases (lookup g d.active_tablets)) [
      | inl e ↦ rw (e, known_child, known) refl
      | inr (ts, e) ↦ rw (e, known_child, known) refl
    ]

take_nil : (n : ℕ) → take {A = ℕ} n [] ≡ []
take_nil zero = refl
take_nil (suc n) = refl

take_none : (n : ℕ) (list : List ℕ) → list ++ take n [] ≡ list
take_none zero list = append-nil list
take_none (suc n) list = append-nil list

add_children_lem :
    (fuel width : ℕ) (d : Dag) (f : ℕ) (above s list : List ℕ)
    → Distinct (below above (f ∷ s))
    → width ≤ length list + fuel
    → add_children fuel width d (below above (f ∷ s)) f list
      ≡ some (list ++ take (width - length list) (known d s))
unfolding add_children
add_children_lem zero width d f above s list h b =
    let full : width - length list ≡ 0 = omega arith in rw full (ap some (sym (append-nil list)))
add_children_lem (suc fuel) width d f above [] list h b =
    elim (Bool-cases (ltb (length list) width)) [
      | inl l ↦
          rw (l, get_child_lem d f above [] h, add_children, take_none (width - length list) list)
            refl
      | inr l ↦ rw (l, add_children, take_none (width - length list) list) refl
    ]
add_children_lem (suc fuel) width d f above (g ∷ s) list h b =
    elim (Bool-cases (ltb (length list) width)) [
      | inl l ↦ elim (Option-cases (lookup g d.active_tablets)) [
        | inl e ↦
            let none_known : known d (g ∷ s) ≡ [] = rw (e, known) refl in
            rw
              (
                l,
                get_child_lem d f above (g ∷ s) h,
                none_known,
                add_children,
                take_none (width - length list) list,
              )
              refl
        | inr (ts, e) ↦
            let more : known d (g ∷ s) ≡ g ∷ known d s = rw (e, known) refl in
            let size = length-append list (g ∷ []) in
            let ih =
              add_children_lem fuel width d g (f ∷ above) s (list ++ (g ∷ [])) h (omega arith) in
            let room : width - length list ≡ suc (width - length (list ++ (g ∷ []))) =
              ground arith in
            rw (l, get_child_lem d f above (g ∷ s) h, more, add_children, room)
              (ih
                ∙ ap some (
                    append_assoc list (g ∷ [])
                      (take (width - length (list ++ (g ∷ []))) (known d s))))
      ]
      | inr l ↦
          let full : width - length list ≡ 0 = ground arith in
          rw (l, add_children, full) (ap some (sym (append-nil list)))
    ]

add_parents_lem :
    (fuel width : ℕ) (f : ℕ) (above s list : List ℕ)
    → Distinct (below above (f ∷ s))
    → width ≤ length list + fuel
    → add_parents fuel width (below above (f ∷ s)) f list
      ≡ some (below (take (width - length list) above) list)
unfolding add_parents
add_parents_lem zero width f above s list h b =
    let full : width - length list ≡ 0 = omega arith in rw full refl
add_parents_lem (suc fuel) width f [] s list h b = elim (Bool-cases (ltb (length list) width)) [
  | inl l ↦ rw (l, parent-below f [] s h, add_parents, take_nil (width - length list)) refl
  | inr l ↦ rw (l, add_parents, take_nil (width - length list)) refl
]
add_parents_lem (suc fuel) width f (g ∷ above) s list h b =
    elim (Bool-cases (ltb (length list) width)) [
      | inl l ↦
          let room : width - length list ≡ suc (width - suc (length list)) = ground arith in
          rw (l, parent-below f (g ∷ above) s h, add_parents, room)
            (add_parents_lem fuel width g above (f ∷ s) (g ∷ list) h (omega arith))
      | inr l ↦ let full : width - length list ≡ 0 = ground arith in rw (l, add_parents, full) refl
    ]

-- The list around a fragment of a chain without repetition is never refused. It has the fragment,
-- as many of the known fragments under it as fit the width, and then as many of those over it as fit.
pub grow_lem :
    (width : ℕ) (d : Dag) (f : ℕ) (above s : List ℕ)
    → Distinct (below above (f ∷ s))
    → let children = take (width - 1) (known d s) in
      grow width d (below above (f ∷ s)) f
      ≡ some (below (take (width - suc (length children)) above) (f ∷ children))
unfolding grow
grow_lem width d f above s h =
    rw (add_children_lem width width d f above s (f ∷ []) h (omega arith))
      (add_parents_lem width width f above s (f ∷ take (width - 1) (known d s)) h (omega arith))
