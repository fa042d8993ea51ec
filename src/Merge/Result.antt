-- ===== src/Merge/Result.antt =====
-- What a reader gets from a unique merge of sorted streams, src/cc/flux/merge.h.
use kdi.Common.{
  ℕ, zero, suc, ◌<◌, ◌≤◌, ◌≡◌, refl, sym, ap, ◌∙◌, Bool, true, Option, none, some, List, [], ◌∷◌,
  arith, Bool-cases, Option-cases, inl, inr, All,
}
use kdi.Interval.Order.{IsStrictWeak}
use kdi.Merge.{Input, fetch_from, top, advance, skip_duplicates, pending, get, read_all, merge}
use kdi.Merge.Top.{
  same_key, find, or_else, find_input, IsSorted, IsHeap, Beyond, find-above, top-none, top-NotBelow,
  top-All, find_input-top, above-All,
}
use kdi.Merge.Round.{
  Leaves, Leaves-trans, advance-Leaves, skip_duplicates-Leaves, NotBelow-advance, pending-advance,
}

module _ {ℓ} {T : Type ℓ} {lt : T → T → Bool} (w : IsStrictWeak lt) where
  -- What a call of a unique merge returns and leaves.
  pub record Round (heap : List (Input T)) (x : T) (rest : List (Input T)) : Type ℓ where
    pub leaves : Leaves w x heap rest
    pub beyond : Beyond lt x rest
    pub first : (k : T) → same_key lt k x ≡ true → find_input lt k heap ≡ some x
    pub fewer : pending lt rest < pending lt heap
    pub least : (z : T) → Beyond lt z heap → lt z x ≡ true

  pub get-Round :
      (heap : List (Input T)) (t : Input T)
      → IsHeap lt heap
      → top lt heap ≡ some t
      → (rest : List (Input T)) × (get lt true heap ≡ some (t.value, rest))
        × Round heap t.value rest
  unfolding get
  get-Round heap t h e =
      let x = t.value in
      let own : same_key lt x x ≡ true = ground (arith, w.asym x x) in
      let step = advance-Leaves w x heap t h e own in
      let less = pending-advance w heap t h e in
      let below = NotBelow-advance w x t.index heap h (top-NotBelow lt w heap t e) in
      let skipped =
        skip_duplicates-Leaves w (pending lt (advance lt t.index heap)) x (advance lt t.index heap)
          (omega arith) step.valid below in
      (
        skip_duplicates lt (pending lt (advance lt t.index heap)) x (advance lt t.index heap),
        rw (e, get),
        record {
          leaves = Leaves-trans w x heap _ _ step skipped.0;
          beyond = skipped.1;
          first = λ k s. find_input-top lt w k heap t h e s;
          fewer = let s = skipped.0.shorter in omega arith;
          least = λ z b. top-All lt w (λ (f : Input T). lt z f.value ≡ true) heap t b e;
        },
      )

  pub get-end :
      (merge_unique : Bool) (heap : List (Input T))
      → top lt heap ≡ none
      → get lt merge_unique heap ≡ none
  unfolding get
  get-end u heap e = rw (e, get)

  pub read_end :
      (fuel : ℕ) (heap : List (Input T)) → get lt true heap ≡ none → read_all lt fuel true heap ≡ []
  unfolding read_all
  read_end zero heap e = refl
  read_end (suc fuel) heap e = rw (e, read_all)

  pub read_more :
      (fuel : ℕ) (heap rest : List (Input T)) (x : T)
      → get lt true heap ≡ some (x, rest)
      → read_all lt (suc fuel) true heap ≡ x ∷ read_all lt fuel true rest
  unfolding read_all
  read_more fuel heap rest x e = rw (e, read_all)

  find_input-above :
      (k x : T) (heap : List (Input T))
      → same_key lt k x ≡ true
      → IsHeap lt heap
      → Beyond lt x heap
      → find_input lt k heap ≡ none
  find_input-above k x [] s h b = refl
  find_input-above k x (e ∷ heap) s h b =
      let none_here =
        find-above lt w k x (e.value ∷ e.stream) s
          (b.0, above-All lt w x e.value e.stream b.0 h.0.0) in
      rw none_here (find_input-above k x heap s h.2 b.1)

  Beyond-below :
      (z x : T) (heap : List (Input T)) → lt z x ≡ true → Beyond lt x heap → Beyond lt z heap
  Beyond-below z x [] l b = tt
  Beyond-below z x (e ∷ heap) l b =
      let head = b.0 in
      (
        ground (
          arith,
          w.cotrans x e.value z,
          w.cotrans z e.value x,
          w.cotrans z x e.value,
          w.asym z x,
          w.asym x e.value,
          w.asym e.value z,
        ),
        Beyond-below z x heap l b.1,
      )

  read_all-above :
      (fuel : ℕ) (z : T) (heap : List (Input T))
      → IsHeap lt heap
      → Beyond lt z heap
      → All (λ y. lt z y ≡ true) (read_all lt fuel true heap)
  read_all-above zero z heap h b = unfold read_all in tt
  read_all-above (suc fuel) z heap h b = elim (Option-cases (top lt heap)) [
    | inl e ↦ rw (read_end (suc fuel) heap (get-end true heap e)) tt
    | inr (t, e) ↦
        let (rest, g, round) = get-Round heap t h e in
        let l = round.least z b in
        rw (read_more fuel heap rest t.value g) (
          l,
          read_all-above fuel z rest round.leaves.valid
              (Beyond-below z t.value rest l round.beyond),
        )
  ]

  read_all-IsSorted :
      (fuel : ℕ) (heap : List (Input T))
      → pending lt heap ≤ fuel
      → IsHeap lt heap
      → IsSorted lt (read_all lt fuel true heap)
        × ((k : T) → find lt k (read_all lt fuel true heap) ≡ find_input lt k heap)
  read_all-IsSorted zero [] b h = unfold read_all in (tt, λ k. refl)
  read_all-IsSorted zero (e ∷ heap) b h = absurd (omega arith)
  read_all-IsSorted (suc fuel) heap b h = elim (Option-cases (top lt heap)) [
    | inl e ↦
        rw (read_end (suc fuel) heap (get-end true heap e), top-none lt w heap e) (tt, λ k. refl)
    | inr (t, e) ↦
        let (rest, g, round) = get-Round heap t h e in
        let fewer = round.fewer in
        let ih = read_all-IsSorted fuel rest (omega arith) round.leaves.valid in
        rw (read_more fuel heap rest t.value g) (
          (read_all-above fuel t.value rest round.leaves.valid round.beyond, ih.0),
          λ k. elim (Bool-cases (same_key lt k t.value)) [
            | inl s ↦ rw s (sym (round.first k s))
            | inr n ↦ rw n (ih.1 k ∙ round.leaves.others k n)
          ],
        )
  ]

  -- The first value with a key in a list of streams.
  abbrev pub find_first : T → List (List T) → Option T
  find_first k [] = none
  find_first k (s ∷ inputs) = or_else lt (find lt k s) (find_first k inputs)

  fetch_from-above :
      (i j : ℕ) (inputs : List (List T))
      → i < j
      → All (λ (f : Input T). i < f.index) (fetch_from j inputs)
  fetch_from-above i j [] l = tt
  fetch_from-above i j ([] ∷ inputs) l = fetch_from-above i (suc j) inputs (omega arith)
  fetch_from-above i j ((x ∷ s) ∷ inputs) l = (l, fetch_from-above i (suc j) inputs (omega arith))

  pub fetch_from-IsHeap :
      (i : ℕ) (inputs : List (List T)) → All (IsSorted lt) inputs → IsHeap lt (fetch_from i inputs)
  fetch_from-IsHeap i [] a = tt
  fetch_from-IsHeap i ([] ∷ inputs) a = fetch_from-IsHeap (suc i) inputs a.1
  fetch_from-IsHeap i ((x ∷ s) ∷ inputs) a =
      (a.0, fetch_from-above i (suc i) inputs (omega arith), fetch_from-IsHeap (suc i) inputs a.1)

  find_input-fetch_from :
      (k : T) (i : ℕ) (inputs : List (List T))
      → find_input lt k (fetch_from i inputs) ≡ find_first k inputs
  find_input-fetch_from k i [] = refl
  find_input-fetch_from k i ([] ∷ inputs) = find_input-fetch_from k (suc i) inputs
  find_input-fetch_from k i ((x ∷ s) ∷ inputs) =
      ap (or_else lt (find lt k (x ∷ s))) (find_input-fetch_from k (suc i) inputs)

  -- A unique merge of streams that are each in order without two values of one key is in order
  -- without two values of one key, and it has for each key the value of the first stream that has
  -- the key, or none if no stream has it.
  pub merge_lem :
      (inputs : List (List T))
      → All (IsSorted lt) inputs
      → IsSorted lt (merge lt true inputs)
        × ((k : T) → find lt k (merge lt true inputs) ≡ find_first k inputs)
  unfolding merge
  merge_lem inputs a =
      let done =
        read_all-IsSorted (pending lt (fetch_from 0 inputs)) (fetch_from 0 inputs) (omega arith)
          (fetch_from-IsHeap 0 inputs a) in
      (done.0, λ k. done.1 k ∙ find_input-fetch_from k 0 inputs)
