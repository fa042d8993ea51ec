-- ===== src/Merge/Top.antt =====
-- The top of the heap of src/cc/flux/merge.h: a least value, from the first input that has it.
use kdi.Common.{
  ℕ, ◌<◌, ◌⊎◌, ◌≡◌, refl, sym, ap, subst, ◌∙◌, Bool, true, false, not, ◌&&◌, Option, none, some,
  List, [], ◌∷◌, arith, Bool-cases, Option-cases, inl, inr, if◌then◌else◌, All,
}
use kdi.Interval.Order.{IsStrictWeak}
use kdi.Merge.{Input, input_lt, top}

module _ {ℓ} {T : Type ℓ} (lt : T → T → Bool) where
  -- Neither of two values is less.
  abbrev pub same_key : T → T → Bool
  same_key a b = not (lt a b) && not (lt b a)

  -- The first value with a key.
  abbrev pub find : T → List T → Option T
  find k [] = none
  find k (x ∷ s) = if same_key k x then some x else find k s

  abbrev pub or_else : Option T → Option T → Option T
  or_else none o = o
  or_else (some x) o = some x

  -- The first value with a key in the inputs of a heap.
  abbrev pub find_input : T → List (Input T) → Option T
  find_input k [] = none
  find_input k (e ∷ heap) = or_else (find k (e.value ∷ e.stream)) (find_input k heap)

  -- In order, no two values with one key.
  abbrev pub IsSorted : List T → Type 0
  IsSorted [] = Unit
  IsSorted (x ∷ s) = All (λ y. lt x y ≡ true) s × IsSorted s

  -- The inputs stand in the order of their index, and each is sorted.
  abbrev pub IsHeap : List (Input T) → Type 0
  IsHeap [] = Unit
  IsHeap (e ∷ heap) =
      IsSorted (e.value ∷ e.stream) × All (λ f. e.index < f.index) heap × IsHeap heap

  -- Every value of a heap is above one that is given.
  abbrev pub Beyond : T → List (Input T) → Type 0
  Beyond x heap = All (λ e. lt x e.value ≡ true) heap

  abbrev pub NotBelow : T → List (Input T) → Type 0
  NotBelow x heap = All (λ e. lt e.value x ≡ false) heap

  module _ (w : IsStrictWeak lt) where
    pub find-above :
        (k x : T) (s : List T) → same_key k x ≡ true → All (λ y. lt x y ≡ true) s → find k s ≡ none
    find-above k x [] e a = refl
    find-above k x (y ∷ s) e a =
        let ih = find-above k x s e a.1 in let above = a.0 in ground (arith, w.cotrans x k y)

    irreflexive : (x : T) → lt x x ≡ false
    irreflexive x = ground (arith, w.asym x x)

    -- What is not below a value is not below one that is not above it.
    lower : (x y : T) (heap : List (Input T)) → lt y x ≡ false → NotBelow y heap → NotBelow x heap
    lower x y [] h a = tt
    lower x y (e ∷ heap) h a =
        let head = a.0 in (ground (arith, w.cotrans e.value y x), lower x y heap h a.1)

    pub top-none : (heap : List (Input T)) → top lt heap ≡ none → heap ≡ []
    unfolding top
    top-none [] e = refl
    top-none (f ∷ heap) e = elim (Option-cases (top lt heap)) [
      | inl n ↦ absurd (let r = rw n at e in ground arith)
      | inr (g, n) ↦ elim (Bool-cases (input_lt lt g f)) [
        | inl b ↦ absurd (let r = rw (n, b) at e in ground arith)
        | inr b ↦ absurd (let r = rw (n, b) at e in ground arith)
      ]
    ]

    pub top_empty : (t : Input T) → top lt [] ≡ some t → ⊥
    unfolding top
    top_empty t e = ground arith

    -- How the top of a heap comes about: from the rest, or from the first input.
    unfoldable pub Step : Input T → List (Input T) → Input T → Type ℓ
    Step f heap t =
        ((top lt heap ≡ some t) × (input_lt lt t f ≡ true))
        ⊎ ((t ≡ f)
            × ((heap ≡ []) ⊎ ((g : Input T) × (top lt heap ≡ some g) × (input_lt lt g f ≡ false))))

    pub top-Step :
        (f : Input T) (heap : List (Input T)) (t : Input T)
        → top lt (f ∷ heap) ≡ some t
        → Step f heap t
    unfolding top Step
    top-Step f heap t e = elim (Option-cases (top lt heap)) [
      | inl n ↦ inr (let r = rw n at e in cc, inl (top-none heap n))
      | inr (g, n) ↦ elim (Bool-cases (input_lt lt g f)) [
        | inl b ↦
            let same : g ≡ t = let r = rw (n, b) at e in cc in inl (n ∙ ap some same, rw (← same) b)
        | inr b ↦ let same : f ≡ t = let r = rw (n, b) at e in cc in inr (sym same, inr (g, n, b))
      ]
    ]

    -- No value of a heap is below its top.
    pub top-NotBelow :
        (heap : List (Input T)) (t : Input T) → top lt heap ≡ some t → NotBelow t.value heap
    unfolding Step
    top-NotBelow [] t e = absurd (top_empty t e)
    top-NotBelow (f ∷ heap) t e = elim (top-Step f heap t e) [
      | inl (n, b) ↦ (ground (arith, w.asym t.value f.value), top-NotBelow heap t n)
      | inr (same, c) ↦
          subst (λ (x : Input T). NotBelow x.value (f ∷ heap)) (sym same)
            (elim c [
              | inl n ↦ rw n (irreflexive f.value, tt)
              | inr (g, n, b) ↦ (
                irreflexive f.value,
                lower f.value g.value heap (ground (arith, w.asym f.value g.value))
                    (top-NotBelow heap g n),
              )
            ])
    ]

    -- What holds of all inputs holds of the top.
    pub top-All {κ} :
        (P : Input T → Type κ) (heap : List (Input T)) (t : Input T)
        → All P heap
        → top lt heap ≡ some t
        → P t
    unfolding Step
    top-All P [] t a e = absurd (top_empty t e)
    top-All P (f ∷ heap) t a e = elim (top-Step f heap t e) [
      | inl (n, b) ↦ top-All P heap t a.1 n
      | inr (same, c) ↦ subst P (sym same) a.0
    ]

    -- The input with the top's index has the top's value.
    unfoldable pub HeadAt : ℕ → T → List (Input T) → Type ℓ
    HeadAt i x heap = All (λ (e : Input T). e.index ≡ i → e.value ≡ x) heap

    later-HeadAt :
        (i : ℕ) (x : T) (heap : List (Input T)) → All (λ f. i < f.index) heap → HeadAt i x heap
    unfolding HeadAt
    later-HeadAt i x [] a = tt
    later-HeadAt i x (f ∷ heap) a =
        (λ e. absurd (let b = a.0 in omega arith), later-HeadAt i x heap a.1)

    pub top-HeadAt :
        (heap : List (Input T)) (t : Input T)
        → IsHeap heap
        → top lt heap ≡ some t
        → HeadAt t.index t.value heap
    unfolding Step HeadAt
    top-HeadAt [] t h e = tt
    top-HeadAt (f ∷ heap) t h e = elim (top-Step f heap t e) [
      | inl (n, b) ↦
          let later = top-All (λ (g : Input T). f.index < g.index) heap t h.1 n in
          (λ same. absurd (omega arith), top-HeadAt heap t h.2 n)
      | inr (same, c) ↦
          subst (λ (x : Input T). HeadAt x.index x.value (f ∷ heap)) (sym same)
            (λ e. refl, later-HeadAt f.index f.value heap h.1)
    ]

    pub above-All :
        (x y : T) (s : List T)
        → lt x y ≡ true
        → All (λ z. lt y z ≡ true) s
        → All (λ z. lt x z ≡ true) s
    above-All x y [] l a = tt
    above-All x y (z ∷ s) l a =
        let b = a.0 in
        (
          ground (
            arith,
            w.cotrans y z x,
            w.cotrans x z y,
            w.cotrans x y z,
            w.asym x y,
            w.asym y z,
            w.asym z x,
          ),
          above-All x y s l a.1,
        )

    -- The top is the first value with its key in the inputs.
    pub find_input-top :
        (k : T) (heap : List (Input T)) (t : Input T)
        → IsHeap heap
        → top lt heap ≡ some t
        → same_key k t.value ≡ true
        → find_input k heap ≡ some t.value
    unfolding Step
    find_input-top k [] t h e s = absurd (top_empty t e)
    find_input-top k (f ∷ heap) t h e s = elim (top-Step f heap t e) [
      | inl (n, b) ↦
          let later = top-All (λ (g : Input T). f.index < g.index) heap t h.1 n in
          let less : lt t.value f.value ≡ true = ground arith in
          let absent =
            find-above k t.value (f.value ∷ f.stream) s
              (less, above-All t.value f.value f.stream less h.0.0) in
          rw absent (find_input-top k heap t h.2 n s)
      | inr (same, c) ↦
          let here : same_key k f.value ≡ true = rw (← same) s in
          rw here (ap (λ (x : Input T). some x.value) (sym same))
    ]
