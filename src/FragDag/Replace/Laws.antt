-- ===== src/FragDag/Replace/Laws.antt =====
-- `replaceFragments` moves the edges of the tablets that it touches, and of no others.

use kdi.Common.{
  ℕ, ◌≡◌, ◌≢◌, refl, subst, sym, ap, ◌∙◌, Bool, true, false, not, ◌&&◌, ◌||◌, Option, none, some,
  List, [], ◌∷◌, arith, Bool-cases, bind-some, inl, inr, ◌==◌, ==_iff, if◌then◌else◌, member,
  lookup,
}
use kdi.Interval.Range.{Interval, contains_interval}
use kdi.Chain.{replace_fragments_internal}
use kdi.FragDag.{Dag, tablets_of, fragments_of, get_active_tablet_intersection}
use kdi.FragDag.Edges.{Consistent, erase_entry, member-add_fragment}
use kdi.FragDag.Replace.{
  Store, get_active_size, set_stats, unlink, detach, detach_all, attach, set_tablet,
  replace_internal, replace_each, replace_fragments,
}

-- The edges of a graph given as a test on a tablet and a fragment, and maps that agree.
abbrev pub HasEdges : Dag → (ℕ → ℕ → Bool) → Type 0
HasEdges d edge =
    (t f : ℕ) → (member t (tablets_of f d) ≡ edge t f) × (member f (fragments_of t d) ≡ edge t f)

unlink-HasEdges :
    (t f : ℕ) (d : Dag) (edge : ℕ → ℕ → Bool)
    → HasEdges d edge
    → HasEdges (unlink t f d) (λ s g. not ((s == t) && (g == f)) && edge s g)
unfolding unlink
unlink-HasEdges t f d edge h s g =
    let e = h s g in
    (
      erase_entry f g t s d.active_tablets ∙ ap (λ b. not ((s == t) && (g == f)) && b) e.0,
      erase_entry t s f g d.active_fragments ∙ (let p = e.1 in ground arith),
    )

abbrev pub is_new : Option ℕ → ℕ → Bool
is_new none f = false
is_new (some g) f = f == g

attach-HasEdges :
    (t : ℕ) (new : Option ℕ) (d : Dag) (edge : ℕ → ℕ → Bool)
    → HasEdges d edge
    → HasEdges (attach t new d) (λ s g. ((s == t) && is_new new g) || edge s g)
unfolding attach
attach-HasEdges t none d edge h s g = let e = h s g in (e.0 ∙ ground arith, e.1 ∙ ground arith)
attach-HasEdges t (some f) d edge h s g =
    let m = member-add_fragment t f s g d in
    let e = h s g in
    (
      m.0 ∙ ap (λ b. ((s == t) && (g == f)) || b) e.0,
      m.1 ∙ ap (λ b. ((s == t) && (g == f)) || b) e.1,
    )

HasEdges-change :
    (d : Dag) (p q : ℕ → ℕ → Bool) → HasEdges d p → ((s g : ℕ) → p s g ≡ q s g) → HasEdges d q
HasEdges-change d p q h e s g = ((h s g).0 ∙ e s g, (h s g).1 ∙ e s g)

some-injective : {A : Type 0} (a b : A) → some a ≡ some b → a ≡ b
some-injective a b e = cc

-- The edges after the fragments `old` of a tablet are replaced by a new one, or by nothing.
abbrev pub replaced : ℕ → List ℕ → Option ℕ → (ℕ → ℕ → Bool) → ℕ → ℕ → Bool
replaced t old new edge s g =
    ((s == t) && is_new new g) || (not ((s == t) && member g old) && edge s g)

module _ {ℓ} {T : Type ℓ} (store : Store T) where
  detach-HasEdges :
      (t f : ℕ) (d e : Dag) (edge : ℕ → ℕ → Bool)
      → HasEdges d edge
      → detach store t f d ≡ some e
      → HasEdges e (λ s g. not ((s == t) && (g == f)) && edge s g)
  unfolding detach set_stats
  detach-HasEdges t f d e edge h r =
      let (stats, found, r₁) = bind-some (lookup f d.active_frag_stats) _ e r in
      let (size, sized, r₂) = bind-some (get_active_size store f (unlink t f d)) _ e r₁ in
      subst (λ x. HasEdges x (λ s g. not ((s == t) && (g == f)) && edge s g))
        (some-injective _ e r₂) (unlink-HasEdges t f d edge h)

  detach_all-HasEdges :
      (t : ℕ) (fs : List ℕ) (d e : Dag) (edge : ℕ → ℕ → Bool)
      → HasEdges d edge
      → detach_all store t fs d ≡ some e
      → HasEdges e (λ s g. not ((s == t) && member g fs) && edge s g)
  unfolding detach_all
  detach_all-HasEdges t [] d e edge h r =
      subst (λ x. HasEdges x (λ s g. not ((s == t) && false) && edge s g)) (some-injective d e r)
        (HasEdges-change d edge _ h (λ s g. ground arith))
  detach_all-HasEdges t (f ∷ fs) d e edge h r =
      let (c, first, r₁) = bind-some (detach store t f d) _ e r in
      HasEdges-change e _ _
        (detach_all-HasEdges t fs c e (λ s g. not ((s == t) && (g == f)) && edge s g)
          (detach-HasEdges t f d c edge h first) r₁)
        (λ s g. ground arith)

  replace_internal-HasEdges :
      (t : ℕ) (old : List ℕ) (new : Option ℕ) (d e : Dag) (edge : ℕ → ℕ → Bool)
      → HasEdges d edge
      → replace_internal store t old new d ≡ some e
      → HasEdges e (replaced t old new edge)
  unfolding replace_internal set_tablet
  replace_internal-HasEdges t old new d e edge h r =
      let (c, detached, r₁) = bind-some (detach_all store t old d) _ e r in
      let (tablet, found, r₂) = bind-some (lookup t (attach t new c).tablets) _ e r₁ in
      let (changed, spliced, r₃) = bind-some (replace_fragments_internal tablet old new) _ e r₂ in
      subst (λ x. HasEdges x (replaced t old new edge)) (some-injective _ e r₃)
        (attach-HasEdges t new c (λ s g. not ((s == t) && member g old) && edge s g)
          (detach_all-HasEdges t old d c edge h detached))

  -- The edges after the same for those tablets of a list whose rows the range contains.
  abbrev pub moved : Interval T → List ℕ → List ℕ → Option ℕ → (ℕ → ℕ → Bool) → ℕ → ℕ → Bool
  moved range ts old new edge s g =
      if member s ts && contains_interval store.lt range (store.rows s)
      then is_new new g || (not (member g old) && edge s g)
      else edge s g

  moved-replaced :
      (range : Interval T) (t : ℕ) (ts old : List ℕ) (new : Option ℕ) (edge : ℕ → ℕ → Bool)
      → contains_interval store.lt range (store.rows t) ≡ true
      → (s g : ℕ)
      → moved range ts old new (replaced t old new edge) s g ≡ moved range (t ∷ ts) old new edge s g
  moved-replaced range t ts old new edge c s g = elim (Bool-cases (s == t)) [
    | inl q ↦ let same = (==_iff s t).0 q in rw (q, same, c) (ground arith)
    | inr q ↦ rw q
  ]

  moved-skipped :
      (range : Interval T) (t : ℕ) (ts old : List ℕ) (new : Option ℕ) (edge : ℕ → ℕ → Bool)
      → contains_interval store.lt range (store.rows t) ≡ false
      → (s g : ℕ) → moved range ts old new edge s g ≡ moved range (t ∷ ts) old new edge s g
  moved-skipped range t ts old new edge c s g = elim (Bool-cases (s == t)) [
    | inl q ↦ let same = (==_iff s t).0 q in rw (q, same, c) (ground arith)
    | inr q ↦ rw q
  ]

  replace_each-HasEdges :
      (range : Interval T) (old : List ℕ) (new : Option ℕ) (ts : List ℕ) (d e : Dag)
      (edge : ℕ → ℕ → Bool)
      → HasEdges d edge
      → replace_each store range old new ts d ≡ some e
      → HasEdges e (moved range ts old new edge)
  unfolding replace_each
  replace_each-HasEdges range old new [] d e edge h r =
      subst (λ x. HasEdges x (moved range [] old new edge)) (some-injective d e r) h
  replace_each-HasEdges range old new (t ∷ ts) d e edge h r =
      let (c, step, r₁) =
        bind-some
          (if contains_interval store.lt range (store.rows t)
            then replace_internal store t old new d
            else some d)
          _ e r in
      elim (Bool-cases (contains_interval store.lt range (store.rows t))) [
        | inl q ↦
            HasEdges-change e _ _
              (replace_each-HasEdges range old new ts c e (replaced t old new edge)
                (replace_internal-HasEdges t old new d c edge h (rw q at step)) r₁)
              (moved-replaced range t ts old new edge q)
        | inr q ↦
            HasEdges-change e _ _
              (replace_each-HasEdges range old new ts c e edge
                (subst (λ x. HasEdges x edge) (some-injective d c (rw q at step)) h) r₁)
              (moved-skipped range t ts old new edge q)
      ]

  -- If replacing a sequence of fragments by a new one succeeds in a graph whose two maps agree, the
  -- maps agree afterwards: each tablet that is active in all the fragments of the sequence and whose
  -- rows the range contains has the new fragment in place of the sequence, and no other edge has
  -- changed. The replacement of an empty sequence raises an error.
  pub replace_fragments_lem :
      (range : Interval T) (old : List ℕ) (new : ℕ) (d e : Dag)
      → Consistent d
      → replace_fragments store range old new d ≡ some e
      → Consistent e
        × ((g s : ℕ)
            → member s (tablets_of g e)
              ≡ moved range
                  (get_active_tablet_intersection old d)
                  old
                  (some new)
                  (λ t f. member t (tablets_of f d))
                  s
                  g)
        × (old ≢ [])
  unfolding replace_fragments
  replace_fragments_lem range [] new d e c r = absurd (ground arith)
  replace_fragments_lem range (f ∷ old) new d e c r =
      let h =
        replace_each-HasEdges range (f ∷ old) (some new)
          (get_active_tablet_intersection (f ∷ old) d) d e (λ t g. member t (tablets_of g d))
          (λ t g. (refl, sym (c g t))) r in
      (λ g s. (h s g).0 ∙ sym (h s g).1, λ g s. (h s g).0, λ n. absurd (ground arith))
