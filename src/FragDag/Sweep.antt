-- ===== src/FragDag/Sweep.antt =====
-- `sweepGraph` removes exactly the entries without edges.
use kdi.Common.{
  ℕ, ◌≡◌, ◌≢◌, refl, subst, sym, ap, ◌∙◌, ◌⊎◌, inl, inr, true, not, ◌&&◌, none, some, List, [], ◌∷◌,
  arith, Bool-cases, Option-cases, ◌==◌, ==_iff, if◌then◌else◌, or-true, member, lookup,
  lookup-remove,
}
use kdi.FragDag.{
  Dag, tablets_of, fragments_of, is_nil, remove_inactive_fragment, remove_tablet, keys,
  sweep_tablet, sweep_tablets, sweep_fragment, sweep_fragments, sweep_graph,
}
use kdi.FragDag.Edges.{Consistent, member-remove_tablet, or_empty-remove}

-- Two graphs with the same edges, each with maps that agree.
abbrev pub SameEdges : Dag → Dag → Type 0
SameEdges d e = Consistent e × ((g s : ℕ) → member s (tablets_of g e) ≡ member s (tablets_of g d))

is_nil→nil : (s : List ℕ) → is_nil s ≡ true → s ≡ []
is_nil→nil [] e = refl
is_nil→nil (x ∷ s) e = absurd (ground arith)

remove_tablet-SameEdges :
    (t : ℕ) (d : Dag)
    → Consistent d
    → is_nil (fragments_of t d) ≡ true
    → SameEdges d (remove_tablet t d)
remove_tablet-SameEdges t d c e =
    let nil = is_nil→nil (fragments_of t d) e in
    let same : (g s : ℕ) → member s (tablets_of g (remove_tablet t d)) ≡ member s (tablets_of g d) =
      λ g s. (member-remove_tablet t d c s g).0 ∙ elim (Bool-cases (s == t)) [
        | inl q ↦ let at_t = (==_iff s t).0 q in let agree = c g t in rw (q, at_t, agree, nil)
        | inr q ↦ rw q
      ] in
    (
      λ g s.
          let m = member-remove_tablet t d c s g in
          m.0 ∙ ap (λ b. not (s == t) && b) (c g s) ∙ sym m.1,
      same,
    )

remove_inactive-SameEdges :
    (f : ℕ) (d : Dag)
    → Consistent d
    → is_nil (tablets_of f d) ≡ true
    → SameEdges d (remove_inactive_fragment f d)
unfolding remove_inactive_fragment
remove_inactive-SameEdges f d c e =
    let nil = is_nil→nil (tablets_of f d) e in
    let same : (g s : ℕ)
        → member s (tablets_of g (remove_inactive_fragment f d)) ≡ member s (tablets_of g d) =
      λ g s. or_empty-remove f g s d.active_tablets ∙ elim (Bool-cases (g == f)) [
        | inl q ↦ let at_f = (==_iff g f).0 q in rw (q, at_f, nil)
        | inr q ↦ rw q
      ] in
    (λ g s. same g s ∙ c g s, same)

sweep_tablet-SameEdges : (t : ℕ) (d : Dag) → Consistent d → SameEdges d (sweep_tablet t d)
unfolding sweep_tablet
sweep_tablet-SameEdges t d c = elim (Bool-cases (is_nil (fragments_of t d))) [
  | inl e ↦
      let q : sweep_tablet t d ≡ remove_tablet t d = rw (e, sweep_tablet) in
      subst (SameEdges d) (sym q) (remove_tablet-SameEdges t d c e)
  | inr e ↦
      let q : sweep_tablet t d ≡ d = rw (e, sweep_tablet) in
      subst (SameEdges d) (sym q) (c, λ g s. refl)
]

sweep_fragment-SameEdges : (f : ℕ) (d : Dag) → Consistent d → SameEdges d (sweep_fragment f d)
unfolding sweep_fragment
sweep_fragment-SameEdges f d c = elim (Bool-cases (is_nil (tablets_of f d))) [
  | inl e ↦
      let q : sweep_fragment f d ≡ remove_inactive_fragment f d = rw (e, sweep_fragment) in
      subst (SameEdges d) (sym q) (remove_inactive-SameEdges f d c e)
  | inr e ↦
      let q : sweep_fragment f d ≡ d = rw (e, sweep_fragment) in
      subst (SameEdges d) (sym q) (c, λ g s. refl)
]

sweep_tablets-SameEdges : (ts : List ℕ) (d : Dag) → Consistent d → SameEdges d (sweep_tablets ts d)
unfolding sweep_tablets
sweep_tablets-SameEdges [] d c = (c, λ g s. refl)
sweep_tablets-SameEdges (t ∷ ts) d c =
    let step = sweep_tablet-SameEdges t d c in
    let ih = sweep_tablets-SameEdges ts (sweep_tablet t d) step.0 in
    (ih.0, λ g s. ih.1 g s ∙ step.1 g s)

sweep_fragments-SameEdges :
    (fs : List ℕ) (d : Dag) → Consistent d → SameEdges d (sweep_fragments fs d)
unfolding sweep_fragments
sweep_fragments-SameEdges [] d c = (c, λ g s. refl)
sweep_fragments-SameEdges (f ∷ fs) d c =
    let step = sweep_fragment-SameEdges f d c in
    let ih = sweep_fragments-SameEdges fs (sweep_fragment f d) step.0 in
    (ih.0, λ g s. ih.1 g s ∙ step.1 g s)

-- No empty entry stands at a fragment.
Filled : ℕ → Dag → Type 0
Filled f d = lookup f d.active_tablets ≢ some []

lookup-sweep_fragment :
    (g f : ℕ) (d : Dag)
    → lookup f (sweep_fragment g d).active_tablets
      ≡ (if (f == g) && is_nil (tablets_of g d) then none else lookup f d.active_tablets)
unfolding sweep_fragment remove_inactive_fragment
lookup-sweep_fragment g f d = elim (Bool-cases (is_nil (tablets_of g d))) [
  | inl e ↦ rw e (
      lookup-remove g f d.active_tablets
      ∙ elim (Bool-cases (f == g)) [ inl q ↦ rw q | inr q ↦ rw q ])
  | inr e ↦ rw e (elim (Bool-cases (f == g)) [ inl q ↦ rw q | inr q ↦ rw q ])
]

sweep_fragment-Filled : (g f : ℕ) (d : Dag) → (f ≡ g) ⊎ Filled f d → Filled f (sweep_fragment g d)
unfolding Filled
sweep_fragment-Filled g f d (inl same) h =
    let k = sym (lookup-sweep_fragment g f d) ∙ h in
    elim (Bool-cases ((f == g) && is_nil (tablets_of g d))) [
      | inl q ↦ let left = rw q at k in ground arith
      | inr q ↦
          let left : lookup f d.active_tablets ≡ some [] = rw q at k in
          let nil : is_nil (tablets_of g d) ≡ true = rw (← same, left) in ground arith
    ]
sweep_fragment-Filled g f d (inr full) h =
    let k = sym (lookup-sweep_fragment g f d) ∙ h in
    elim (Bool-cases ((f == g) && is_nil (tablets_of g d))) [
      | inl q ↦ let left = rw q at k in ground arith
      | inr q ↦ full (rw q at k)
    ]

sweep_fragments-Filled :
    (fs : List ℕ) (f : ℕ) (d : Dag)
    → (member f fs ≡ true) ⊎ Filled f d
    → Filled f (sweep_fragments fs d)
unfolding sweep_fragments
sweep_fragments-Filled [] f d (inl m) = absurd (ground arith)
sweep_fragments-Filled [] f d (inr h) = h
sweep_fragments-Filled (g ∷ fs) f d (inl m) = elim (or-true (f == g) (member f fs) m) [
  | inl e ↦
      sweep_fragments-Filled fs f (sweep_fragment g d)
        (inr (sweep_fragment-Filled g f d (inl ((==_iff f g).0 e))))
  | inr later ↦ sweep_fragments-Filled fs f (sweep_fragment g d) (inl later)
]
sweep_fragments-Filled (g ∷ fs) f d (inr h) =
    sweep_fragments-Filled fs f (sweep_fragment g d) (inr (sweep_fragment-Filled g f d (inr h)))

keys-member :
    {V : Type 0} (f : ℕ) (v : V) (m : List (ℕ × V)) → lookup f m ≡ some v → member f (keys m) ≡ true
unfolding keys
keys-member f v [] e = absurd (ground arith)
keys-member f v ((k, w) ∷ m) e = elim (Bool-cases (f == k)) [
  | inl q ↦ rw q
  | inr q ↦ rw q (keys-member f v m (rw q at e))
]

keys-Filled : (f : ℕ) (d : Dag) → (member f (keys d.active_tablets) ≡ true) ⊎ Filled f d
unfolding Filled
keys-Filled f d = elim (Option-cases (lookup f d.active_tablets)) [
  | inl e ↦ inr (λ h. ground arith)
  | inr (v, e) ↦ inl (keys-member f v d.active_tablets e)
]

-- Sweeping a graph whose two maps agree keeps every edge and leaves the maps in agreement, and
-- afterwards no fragment has an entry without tablets.
pub sweep_graph_lem :
    (d : Dag)
    → Consistent d
    → Consistent (sweep_graph d)
      × ((g s : ℕ) → member s (tablets_of g (sweep_graph d)) ≡ member s (tablets_of g d))
      × ((f : ℕ) → lookup f (sweep_graph d).active_tablets ≢ some [])
unfolding sweep_graph Filled
sweep_graph_lem d c =
    let first = sweep_tablets-SameEdges (keys d.active_fragments) d c in
    let e = sweep_tablets (keys d.active_fragments) d in
    let second = sweep_fragments-SameEdges (keys e.active_tablets) e first.0 in
    (
      second.0,
      λ g s. second.1 g s ∙ first.1 g s,
      λ f. sweep_fragments-Filled (keys e.active_tablets) f e (keys-Filled f e),
    )
