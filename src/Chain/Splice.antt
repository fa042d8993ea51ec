-- ===== src/Chain/Splice.antt =====
-- `replaceFragmentsInternal` replaces the sequence where it is first found.

use kdi.Common.{
  ℕ, suc, ◌-◌, ◌≡◌, ◌≢◌, refl, subst, ap, sym, ◌∙◌, inl, inr, true, Option, none, some, List, [],
  ◌∷◌, ◌++◌, arith, Bool-cases, Option-cases, ◌==◌, ==_iff, length, drop,
}
use kdi.Chain.{starts_with, search_sequence, new_item, splice, Tablet, replace_fragments_internal}

starts_with-append : (old s : List ℕ) → starts_with old (old ++ s) ≡ true
unfolding starts_with
starts_with-append [] s = refl
starts_with-append (f ∷ old) s =
    let ih = starts_with-append old s in let q : (f == f) ≡ true = ground arith in rw q ih

starts_with-rest : (old s : List ℕ) → starts_with old s ≡ true → s ≡ old ++ drop (length old) s
unfolding starts_with
starts_with-rest [] s h = refl
starts_with-rest (f ∷ old) [] h = absurd (ground arith)
starts_with-rest (f ∷ old) (g ∷ s) h = elim (Bool-cases (f == g)) [
  | inl e ↦
      let p = (==_iff f g).0 e in let q = rw e at h in rw p (ap (◌∷◌ g) (starts_with-rest old s q))
  | inr e ↦ absurd (let q = rw e at h in ground arith)
]

-- What the search returns is a cut of the list before a place where the sequence stands.
search_sequence_sound :
    (old s before rest : List ℕ)
    → search_sequence old s ≡ some (before, rest)
    → (s ≡ before ++ rest) × (starts_with old rest ≡ true)
unfolding search_sequence
search_sequence_sound old [] before rest h = absurd (ground arith)
search_sequence_sound old (f ∷ s) before rest h = elim (Bool-cases (starts_with old (f ∷ s))) [
  | inl e ↦
      let q = rw e at h in
      let b : [] ≡ before = cc in let r : f ∷ s ≡ rest = cc in (rw (← b) r, rw (← r) e)
  | inr e ↦ elim (Option-cases (search_sequence old s)) [
    | inl n ↦ absurd (let q = rw (e, n) at h in ground arith)
    | inr (found, p) ↦
        let q = rw (e, p) at h in
        let ih = search_sequence_sound old s found.0 found.1 p in
        let b : f ∷ found.0 ≡ before = cc in
        let r : found.1 ≡ rest = cc in (rw (← b, ← r) (ap (◌∷◌ f) ih.0), rw (← r) ih.1)
  ]
]

search_sequence_complete :
    (g : ℕ) (old before after : List ℕ)
    → (r : List ℕ × List ℕ) × (search_sequence (g ∷ old) (before ++ (g ∷ (old ++ after))) ≡ some r)
unfolding search_sequence
search_sequence_complete g old [] after =
    let e = starts_with-append (g ∷ old) after in (([], g ∷ (old ++ after)), rw e refl)
search_sequence_complete g old (f ∷ before) after =
    elim (Bool-cases (starts_with (g ∷ old) (f ∷ (before ++ (g ∷ (old ++ after)))))) [
      | inl e ↦ (([], f ∷ (before ++ (g ∷ (old ++ after)))), rw e)
      | inr e ↦
          let ih = search_sequence_complete g old before after in
          ((f ∷ ih.0.0, ih.0.1), rw (e, ih.1))
    ]

splice_lem :
    (new : Option ℕ) (g : ℕ) (old rest : List ℕ)
    → starts_with (g ∷ old) rest ≡ true
    → splice new (length (g ∷ old)) rest ≡ new_item new ++ drop (length (g ∷ old)) rest
unfolding starts_with
splice_lem none g old rest h = refl
splice_lem (some f) g old [] h = absurd (ground arith)
splice_lem (some f) g old (x ∷ rest) h =
    let n : suc (length old) - 1 ≡ length old = omega arith in ap (λ k. f ∷ drop k rest) n

-- What a replacement does with a chain that does not hold the old sequence, and with one that does.
abbrev pub Replaces : Tablet → List ℕ → Option ℕ → Option Tablet → Type 0
Replaces t old new none = (before after : List ℕ) → t.fragments ≢ before ++ (old ++ after)
Replaces t old new (some u) =
    (before after : List ℕ) × (t.fragments ≡ before ++ (old ++ after))
    × (u.fragments ≡ before ++ (new_item new ++ after))
    × (u.references ≡ t.references ++ new_item new)
    × (u.dead_files ≡ t.dead_files ++ old)

-- Replacing a sequence of fragments that is not empty raises an error only if the chain of the tablet
-- nowhere holds the sequence. Otherwise the new fragment, or nothing, stands in place of one occurrence
-- of the sequence, the rest of the chain is kept, the new file is referenced and the old ones are dead.
pub replace_fragments_internal_lem :
    (t : Tablet) (f : ℕ) (old : List ℕ) (new : Option ℕ)
    → Replaces t (f ∷ old) new (replace_fragments_internal t (f ∷ old) new)
unfolding replace_fragments_internal
replace_fragments_internal_lem t f old new =
    elim (Option-cases (search_sequence (f ∷ old) t.fragments)) [
      | inl e ↦
          let q : replace_fragments_internal t (f ∷ old) new ≡ none =
            rw (e, replace_fragments_internal) in
          subst (Replaces t (f ∷ old) new) (sym q) (λ before after same.
            let c = search_sequence_complete f old before after in
            let found : none ≡ some c.0 = sym e ∙ ap (search_sequence (f ∷ old)) same ∙ c.1 in
            absurd (ground arith))
      | inr (found, e) ↦
          let s = search_sequence_sound (f ∷ old) t.fragments found.0 found.1 e in
          let q : replace_fragments_internal t (f ∷ old) new
              ≡ some (record {
                fragments = found.0 ++ splice new (length (f ∷ old)) found.1;
                references = t.references ++ new_item new;
                dead_files = t.dead_files ++ (f ∷ old);
              }) =
            rw (e, replace_fragments_internal) in
          subst (Replaces t (f ∷ old) new) (sym q) (
            found.0,
            drop (length (f ∷ old)) found.1,
            s.0 ∙ ap (◌++◌ found.0) (starts_with-rest (f ∷ old) found.1 s.1),
            ap (◌++◌ found.0) (splice_lem new f old found.1 s.1),
            refl,
            refl,
          )
    ]
