-- ===== src/Cutoff/Content.antt =====
-- The filter of src/cc/flux/cutoff.h loses no value when it stops at its cutoff.
use kdi.Common.{
  ℕ, zero, suc, ◌≡◌, refl, sym, ap, subst, ◌∙◌, Bool, true, Option, none, some, List, [], ◌∷◌, ◌++◌,
  All, arith, Bool-cases, Option-cases, inl, inr, if◌then◌else◌,
}
use kdi.Cutoff.{Cutoff, is_below, offer, get_from, get, read}

module _ {ℓ} {T : Type ℓ} where
  -- The values that the filter has still to give, the buffered one first.
  abbrev pub held_back : Option T → List T → List T
  held_back none s = s
  held_back (some x) s = x ∷ s

  abbrev pub content : Cutoff T → List T
  content f = held_back f.current f.input

module _ {ℓ} {T : Type ℓ} (lt : T → T → Bool) where
  -- The reference, on the values alone.
  abbrev pub front : Option T → List T → Option T
  front c [] = none
  front c (x ∷ s) = if is_below lt c x then some x else none

  abbrev pub behind : Option T → List T → List T
  behind c [] = []
  behind c (x ∷ s) = if is_below lt c x then s else x ∷ s

  -- What a call returns and leaves.
  abbrev pub Gives : Option T → List T → Option T × Cutoff T → Type ℓ
  Gives c s r = (r.0 ≡ front c s) × (content r.1 ≡ behind c s) × (r.1.cutoff ≡ c)

  offer-Gives : (s : List T) (x : T) (c : Option T) → Gives c (x ∷ s) (offer lt s x c)
  unfolding offer
  offer-Gives s x c = elim (Bool-cases (is_below lt c x)) [
    | inl e ↦ rw e (refl, refl, refl)
    | inr e ↦ rw e (refl, refl, refl)
  ]

  get_from-Gives : (s : List T) (b c : Option T) → Gives c (held_back b s) (get_from lt s b c)
  unfolding get_from
  get_from-Gives [] none c = (refl, refl, refl)
  get_from-Gives (x ∷ s) none c = offer-Gives s x c
  get_from-Gives s (some x) c = offer-Gives s x c

  -- A call returns the first value that the filter has still to give if it is below the cutoff, or
  -- there is none, and only then takes it off; the cutoff stays.
  pub get-Gives : (f : Cutoff T) → Gives f.cutoff (content f) (get lt f)
  unfolding get
  get-Gives f = get_from-Gives f.input f.current f.cutoff

  front-none : (c : Option T) (s : List T) → front c s ≡ none → behind c s ≡ s
  front-none c [] e = refl
  front-none c (x ∷ s) e = elim (Bool-cases (is_below lt c x)) [
    | inl b ↦ absurd (let r = rw b at e in ground arith)
    | inr b ↦ rw b
  ]

  front-some :
      (c : Option T) (s : List T) (x : T)
      → front c s ≡ some x
      → (x ∷ behind c s ≡ s) × (is_below lt c x ≡ true)
  front-some c [] x e = absurd (ground arith)
  front-some c (y ∷ s) x e = elim (Bool-cases (is_below lt c y)) [
    | inl b ↦
        let same : y ≡ x = let r = rw b at e in cc in
        (rw b (ap (λ z. z ∷ s) (sym same)), rw (← same) b)
    | inr b ↦ absurd (let r = rw b at e in ground arith)
  ]

  -- However often a reader asks, the values that it gets and those that the filter has still to
  -- give are together, in order, those that the filter had to give; each value got is below the
  -- cutoff, if there is one.
  pub read-content :
      (n : ℕ) (f : Cutoff T)
      → ((read lt n f).0 ++ content (read lt n f).1 ≡ content f)
        × All (λ x. is_below lt f.cutoff x ≡ true) (read lt n f).0
  unfolding read
  read-content zero f = (refl, tt)
  read-content (suc n) f =
      let g = (get lt f).1 in
      let gives = get-Gives f in
      elim (Option-cases (get lt f).0) [
        | inl e ↦ rw (e, read) (gives.1 ∙ front-none f.cutoff (content f) (sym gives.0 ∙ e), tt)
        | inr (x, e) ↦
            let taken = front-some f.cutoff (content f) x (sym gives.0 ∙ e) in
            let ih = read-content n g in
            rw (e, read)
              (
                ap (◌∷◌ x) (ih.0 ∙ gives.1) ∙ taken.0,
                (
                  taken.1,
                  subst (λ c. All (λ y. is_below lt c y ≡ true) (read lt n g).0) gives.2 ih.1,
                ),
              )
      ]
