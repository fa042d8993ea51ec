-- ===== src/FragDag/Edges.antt =====
-- The edges of the graph of src/cc/kdi/tablet/FragDag.cc, and that adding and removing keep the two
-- maps in agreement.
use kdi.Common.{
  ℕ, ◌≡◌, refl, subst, sym, ◌∙◌, true, false, not, ◌&&◌, ◌||◌, none, some, List, [], ◌∷◌, arith,
  Bool-cases, Option-cases, inl, inr, ◌==◌, ==_iff, if◌then◌else◌, member, insert, erase,
  member-insert, member-erase, lookup, assign, remove, lookup-assign, lookup-remove,
}
use kdi.FragDag.{
  Dag, or_empty, tablets_of, fragments_of, is_nil, add_fragment, remove_inactive_fragment,
  set_tablets, drop_tablet, drop_from_all, erase_tablet, remove_tablet,
}

-- The two maps agree: a tablet is in a fragment's set exactly when the fragment is in the tablet's.
abbrev pub Consistent : Dag → Type 0
Consistent d = (f t : ℕ) → member t (tablets_of f d) ≡ member f (fragments_of t d)

pub or_empty-assign :
    (f g t : ℕ) (s : List ℕ) (m : List (ℕ × List ℕ))
    → member t (or_empty (lookup g (assign f s m)))
      ≡ (if g == f then member t s else member t (or_empty (lookup g m)))
or_empty-assign f g t s m =
    rw (lookup-assign f g s m) (elim (Bool-cases (g == f)) [ inl e ↦ rw e | inr e ↦ rw e ])

pub or_empty-remove :
    (f g t : ℕ) (m : List (ℕ × List ℕ))
    → member t (or_empty (lookup g (remove f m)))
      ≡ (not (g == f) && member t (or_empty (lookup g m)))
or_empty-remove f g t m =
    rw (lookup-remove f g m) (elim (Bool-cases (g == f)) [ inl e ↦ rw e | inr e ↦ rw e ])

insert_entry :
    (f g t s : ℕ) (m : List (ℕ × List ℕ))
    → member s (or_empty (lookup g (assign f (insert t (or_empty (lookup f m))) m)))
      ≡ (((s == t) && (g == f)) || member s (or_empty (lookup g m)))
insert_entry f g t s m =
    or_empty-assign f g s (insert t (or_empty (lookup f m))) m ∙ elim (Bool-cases (g == f)) [
      | inl e ↦
          let same : f ≡ g = sym ((==_iff g f).0 e) in
          rw (e, same) (member-insert t s (or_empty (lookup g m)) ∙ ground arith)
      | inr e ↦ rw e (ground arith)
    ]

pub erase_entry :
    (f g t s : ℕ) (m : List (ℕ × List ℕ))
    → member s (or_empty (lookup g (assign f (erase t (or_empty (lookup f m))) m)))
      ≡ (not ((s == t) && (g == f)) && member s (or_empty (lookup g m)))
erase_entry f g t s m =
    or_empty-assign f g s (erase t (or_empty (lookup f m))) m ∙ elim (Bool-cases (g == f)) [
      | inl e ↦
          let same : f ≡ g = sym ((==_iff g f).0 e) in
          rw (e, same) (member-erase t s (or_empty (lookup g m)) ∙ ground arith)
      | inr e ↦ rw e (ground arith)
    ]

-- After a fragment is added to a tablet the maps hold the edge and all those that they held before.
pub member-add_fragment :
    (t f s g : ℕ) (d : Dag)
    → (member s (tablets_of g (add_fragment t f d))
        ≡ (((s == t) && (g == f)) || member s (tablets_of g d)))
      × (member g (fragments_of s (add_fragment t f d))
          ≡ (((s == t) && (g == f)) || member g (fragments_of s d)))
unfolding add_fragment
member-add_fragment t f s g d =
    (insert_entry f g t s d.active_tablets, insert_entry t s f g d.active_fragments ∙ ground arith)

is_nil-member : (s : List ℕ) (x : ℕ) → is_nil s ≡ true → member x s ≡ false
is_nil-member [] x e = refl
is_nil-member (y ∷ s) x e = absurd (ground arith)

-- The tablets of each fragment after a tablet is dropped from one, or from each of a list.
member-drop_tablet :
    (t f s g : ℕ) (d : Dag)
    → member s (tablets_of g (drop_tablet t f d))
      ≡ (not ((s == t) && (g == f)) && member s (tablets_of g d))
unfolding drop_tablet set_tablets remove_inactive_fragment
member-drop_tablet t f s g d = elim (Bool-cases (is_nil (erase t (tablets_of f d)))) [
  | inl e ↦ rw e (
      or_empty-remove f g s (assign f (erase t (tablets_of f d)) d.active_tablets)
      ∙ elim (Bool-cases (g == f)) [
        | inl q ↦
            let same = (==_iff g f).0 q in
            let none_left = is_nil-member (erase t (tablets_of f d)) s e in
            let left = member-erase t s (tablets_of f d) in rw (q, same) (ground arith)
        | inr q ↦ let entry = erase_entry f g t s d.active_tablets in ground arith
      ])
  | inr e ↦ rw e (erase_entry f g t s d.active_tablets)
]

member-drop_from_all :
    (t s g : ℕ) (fs : List ℕ) (d : Dag)
    → member s (tablets_of g (drop_from_all t fs d))
      ≡ (not ((s == t) && member g fs) && member s (tablets_of g d))
unfolding drop_from_all
member-drop_from_all t s g [] d = ground arith
member-drop_from_all t s g (f ∷ fs) d =
    member-drop_from_all t s g fs (drop_tablet t f d)
    ∙ (let e = member-drop_tablet t f s g d in ground arith)

fragments-drop_tablet :
    (t f : ℕ) (d : Dag) → (drop_tablet t f d).active_fragments ≡ d.active_fragments
unfolding drop_tablet set_tablets remove_inactive_fragment
fragments-drop_tablet t f d = elim (Bool-cases (is_nil (erase t (tablets_of f d)))) [
  | inl e ↦ rw e
  | inr e ↦ rw e
]

fragments-drop_from_all :
    (t : ℕ) (fs : List ℕ) (d : Dag) → (drop_from_all t fs d).active_fragments ≡ d.active_fragments
unfolding drop_from_all
fragments-drop_from_all t [] d = refl
fragments-drop_from_all t (f ∷ fs) d =
    fragments-drop_from_all t fs (drop_tablet t f d) ∙ fragments-drop_tablet t f d

-- What a removal of a tablet leaves.
abbrev pub Removed : ℕ → Dag → Dag → Type 0
Removed t d e =
    (s g : ℕ)
    → (member s (tablets_of g e) ≡ (not (s == t) && member s (tablets_of g d)))
      × (member g (fragments_of s e) ≡ (not (s == t) && member g (fragments_of s d)))

remove-none : (t : ℕ) (d : Dag) → Consistent d → lookup t d.active_fragments ≡ none → Removed t d d
remove-none t d c e s g = elim (Bool-cases (s == t)) [
  | inl q ↦ let same = (==_iff s t).0 q in let agree = c g t in rw (q, same, agree, e) (refl, refl)
  | inr q ↦ rw q (refl, refl)
]

remove-some :
    (t : ℕ) (d : Dag) (fs : List ℕ)
    → Consistent d
    → lookup t d.active_fragments ≡ some fs
    → Removed t d (erase_tablet t (drop_from_all t fs d))
unfolding erase_tablet
remove-some t d fs c e s g =
    let dropped = member-drop_from_all t s g fs d in
    let agree : member t (tablets_of g d) ≡ member g fs = c g t ∙ rw e in
    (
      dropped ∙ elim (Bool-cases (s == t)) [
        | inl q ↦ let same = (==_iff s t).0 q in rw (q, same, agree) (ground arith)
        | inr q ↦ rw q
      ],
      or_empty-remove t s g (drop_from_all t fs d).active_fragments
          ∙ rw (fragments-drop_from_all t fs d),
    )

-- After a tablet is removed the maps hold the edges of the other tablets and no others.
pub member-remove_tablet : (t : ℕ) (d : Dag) → Consistent d → Removed t d (remove_tablet t d)
unfolding remove_tablet
member-remove_tablet t d c = elim (Option-cases (lookup t d.active_fragments)) [
  | inl e ↦
      let q : remove_tablet t d ≡ d = rw (e, remove_tablet) in
      subst (Removed t d) (sym q) (remove-none t d c e)
  | inr (fs, e) ↦
      let q : remove_tablet t d ≡ erase_tablet t (drop_from_all t fs d) = rw (e, remove_tablet) in
      subst (Removed t d) (sym q) (remove-some t d fs c e)
]
