-- ===== src/FragDag/Intersection.antt =====
-- `getActiveTabletIntersection` and `getActiveTablets` in terms of the edges.

use kdi.Common.{
  ℕ, ◌≡◌, ◌∙◌, Bool, true, false, ◌&&◌, ◌||◌, List, [], ◌∷◌, arith, Bool-cases, Option-cases, inl,
  inr, ◌==◌, ==_iff, member, lookup,
}
use kdi.FragDag.{Dag, tablets_of, erase_absent, intersect_from, get_active_tablet_intersection}

-- Whether a tablet is active in every fragment of a list, and in one of them.
abbrev pub in_all : ℕ → List ℕ → Dag → Bool
in_all t [] d = true
in_all t (f ∷ fs) d = member t (tablets_of f d) && in_all t fs d

abbrev pub in_one : ℕ → List ℕ → Dag → Bool
in_one t [] d = false
in_one t (f ∷ fs) d = member t (tablets_of f d) || in_one t fs d

member-erase_absent :
    (t : ℕ) (tablets active : List ℕ)
    → member t (erase_absent tablets active) ≡ (member t tablets && member t active)
unfolding erase_absent
member-erase_absent t tablets [] = ground arith
member-erase_absent t tablets (s ∷ active) =
    let ih = member-erase_absent t tablets active in
    elim (Bool-cases (member s tablets)) [
      | inl m ↦ rw m (elim (Bool-cases (t == s)) [
        | inl q ↦ let same = (==_iff t s).0 q in rw (q, same, m)
        | inr q ↦ rw q ih
      ])
      | inr m ↦ rw m (elim (Bool-cases (t == s)) [
        | inl q ↦ let same = (==_iff t s).0 q in ih ∙ rw (q, same, m)
        | inr q ↦ rw q ih
      ])
    ]

member-intersect_from :
    (t : ℕ) (active fs : List ℕ) (d : Dag)
    → member t (intersect_from active fs d) ≡ (member t active && in_all t fs d)
unfolding intersect_from
member-intersect_from t active [] d = ground arith
member-intersect_from t active (f ∷ fs) d = elim (Option-cases (lookup f d.active_tablets)) [
  | inl e ↦ rw (e, intersect_from) (ground arith)
  | inr (tablets, e) ↦
      rw (e, intersect_from)
        (member-intersect_from t (erase_absent tablets active) fs d
          ∙ rw (member-erase_absent t tablets active) (ground arith))
]

-- A tablet is in the intersection of a sequence of fragments that is not empty exactly when it is
-- active in every one of them; a fragment that the graph does not know has no active tablet.
pub member-get_active_tablet_intersection :
    (t f : ℕ) (fs : List ℕ) (d : Dag)
    → member t (get_active_tablet_intersection (f ∷ fs) d) ≡ in_all t (f ∷ fs) d
unfolding get_active_tablet_intersection
member-get_active_tablet_intersection t f fs d = elim (Option-cases (lookup f d.active_tablets)) [
  | inl e ↦ rw (e, get_active_tablet_intersection)
  | inr (tablets, e) ↦ rw (e, get_active_tablet_intersection) (member-intersect_from t tablets fs d)
]
