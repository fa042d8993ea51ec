-- ===== src/Chain/Longest.antt =====
-- `getMaxAdjacentChain` finds a longest run of adjacent fragments of the set.
use kdi.Common.{
  ℕ, zero, suc, ◌-◌, ◌≤◌, ◌≡◌, refl, ap, sym, ◌∙◌, ◌⊎◌, inl, inr, true, List, [], ◌∷◌, ◌++◌, arith,
  Bool-cases, ltb, ltb→lt, append_assoc, if◌then◌else◌, length, length-append, member, All,
}
use kdi.Chain.{skip_outside, take_inside, drop_inside, longest_from, get_max_adjacent_chain}

-- A row of adjacent elements of a list, each of which is in the set.
pub record IsRun (within s run : List ℕ) : Type 0 where
  pub before : List ℕ
  pub after : List ℕ
  pub split : s ≡ before ++ (run ++ after)
  pub inside : All (λ f. member f within ≡ true) run

module _ (within : List ℕ) where
  length-take_inside :
      (s run after : List ℕ)
      → s ≡ run ++ after
      → All (λ f. member f within ≡ true) run
      → length run ≤ length (take_inside within s)
  unfolding take_inside
  length-take_inside s [] after e a = omega arith
  length-take_inside [] (f ∷ run) after e a = absurd cc
  length-take_inside (g ∷ s) (f ∷ run) after e a =
      let same : g ≡ f = cc in
      let tails : s ≡ run ++ after = cc in
      let m : member g within ≡ true = rw same a.0 in
      rw m (let ih = length-take_inside s run after tails a.1 in omega arith)

  -- A run of a list whose first element is not its first one is a run of the rest.
  IsRun-tail :
      (g : ℕ) (s run before after : List ℕ)
      → g ∷ s ≡ before ++ (run ++ after)
      → All (λ f. member f within ≡ true) run
      → IsRun within s run ⊎ (g ∷ s ≡ run ++ after)
  IsRun-tail g s run [] after e a = inr e
  IsRun-tail g s run (h ∷ before) after e a =
      inl (record { before = before; after = after; split = cc; inside = a })

  IsRun-skip :
      (s : List ℕ) (f : ℕ) (run : List ℕ)
      → IsRun within s (f ∷ run)
      → IsRun within (skip_outside within s) (f ∷ run)
  unfolding skip_outside
  IsRun-skip [] f run r = r
  IsRun-skip (g ∷ s) f run r = elim (Bool-cases (member g within)) [
    | inl m ↦ rw m r
    | inr m ↦ rw m (elim (IsRun-tail g s (f ∷ run) r.before r.after r.split r.inside) [
      | inl q ↦ IsRun-skip s f run q
      | inr e ↦ absurd (
          let same : g ≡ f = cc in
          let p : member g within ≡ true = rw same r.inside.0 in ground arith)
    ])
  ]

  IsRun-drop :
      (s run : List ℕ)
      → IsRun within s run
      → (length run ≤ length (take_inside within s)) ⊎ IsRun within (drop_inside within s) run
  unfolding take_inside drop_inside
  IsRun-drop [] run r = inr r
  IsRun-drop (g ∷ s) run r = elim (Bool-cases (member g within)) [
    | inl m ↦ elim (IsRun-tail g s run r.before r.after r.split r.inside) [
      | inl q ↦ elim (IsRun-drop s run q) [
        | inl le ↦ inl (rw m (omega arith))
        | inr rest ↦ inr (rw m rest)
      ]
      | inr e ↦ inl (length-take_inside (g ∷ s) run r.after e r.inside)
    ]
    | inr m ↦ inr (rw m r)
  ]

  -- What the inner loops find is a run.
  take_inside-Inside : (s : List ℕ) → All (λ f. member f within ≡ true) (take_inside within s)
  unfolding take_inside
  take_inside-Inside [] = tt
  take_inside-Inside (g ∷ s) = elim (Bool-cases (member g within)) [
    | inl m ↦ rw m (m, take_inside-Inside s)
    | inr m ↦ rw m tt
  ]

  take-drop : (s : List ℕ) → s ≡ take_inside within s ++ drop_inside within s
  unfolding take_inside drop_inside
  take-drop [] = refl
  take-drop (g ∷ s) = elim (Bool-cases (member g within)) [
    | inl m ↦ rw m (ap (◌∷◌ g) (take-drop s))
    | inr m ↦ rw m
  ]

  skip_prefix : (s : List ℕ) → (p : List ℕ) × (s ≡ p ++ skip_outside within s)
  unfolding skip_outside
  skip_prefix [] = ([], refl)
  skip_prefix (g ∷ s) = elim (Bool-cases (member g within)) [
    | inl m ↦ ([], rw m)
    | inr m ↦ let ih = skip_prefix s in (g ∷ ih.0, rw m (ap (◌∷◌ g) ih.1))
  ]

  IsRun-length : (s run : List ℕ) → IsRun within s run → length run ≤ length s
  IsRun-length s run r = rw (r.split, length-append, length-append) (omega arith)

  length-drop_inside : (s : List ℕ) → length (drop_inside within s) ≤ length s
  length-drop_inside s =
      let e = ap length (take-drop s) in
      let f = length-append (take_inside within s) (drop_inside within s) in omega arith

  -- A round moves the start ahead.
  drop-skip_shorter :
      (s : List ℕ) → length (drop_inside within (skip_outside within s)) ≤ length s - 1
  unfolding skip_outside drop_inside
  drop-skip_shorter [] = omega arith
  drop-skip_shorter (g ∷ s) = elim (Bool-cases (member g within)) [
    | inl m ↦ rw (m, if◌then◌else◌, m) (let p = length-drop_inside s in omega arith)
    | inr m ↦ rw m (let ih = drop-skip_shorter s in omega arith)
  ]

  longer_of :
      (best run : List ℕ)
      → (length best ≤ length (if ltb (length best) (length run) then run else best))
        × (length run ≤ length (if ltb (length best) (length run) then run else best))
  longer_of best run = elim (Bool-cases (ltb (length best) (length run))) [
    | inl l ↦ rw l (let p = ltb→lt (length best) (length run) l in (omega arith, omega arith))
    | inr l ↦ rw l (omega arith, ground arith)
  ]

  IsRun-round :
      (s run : List ℕ)
      → IsRun within s run
      → (length run ≤ length (take_inside within (skip_outside within s)))
        ⊎ IsRun within (drop_inside within (skip_outside within s)) run
  IsRun-round s [] r = inl (omega arith)
  IsRun-round s (f ∷ run) r = IsRun-drop (skip_outside within s) (f ∷ run) (IsRun-skip s f run r)

  longest_from-longest :
      (fuel : ℕ) (best s : List ℕ)
      → length s ≤ fuel
      → (length best ≤ length (longest_from fuel within best s))
        × ((run : List ℕ)
            → IsRun within s run
            → length run ≤ length (longest_from fuel within best s))
  unfolding longest_from
  longest_from-longest zero best s h =
      (omega arith, λ run r. let p = IsRun-length s run r in omega arith)
  longest_from-longest (suc fuel) best s h =
      let rest = skip_outside within s in
      let run = take_inside within rest in
      let l = longer_of best run in
      let shorter = drop-skip_shorter s in
      let ih =
        longest_from-longest fuel (if ltb (length best) (length run) then run else best)
          (drop_inside within rest) (omega arith) in
      let best_le = ih.0 in
      (
        omega arith,
        λ q r. elim (IsRun-round s q r) [ inl le ↦ omega arith | inr later ↦ ih.1 q later ],
      )

  longest_from-IsRun :
      (whole : List ℕ) (fuel : ℕ) (best s p : List ℕ)
      → IsRun within whole best
      → whole ≡ p ++ s
      → IsRun within whole (longest_from fuel within best s)
  unfolding longest_from
  longest_from-IsRun whole zero best s p b e = b
  longest_from-IsRun whole (suc fuel) best s p b e =
      let rest = skip_outside within s in
      let run = take_inside within rest in
      let skipped = skip_prefix s in
      let whole_eq : whole ≡ (p ++ skipped.0) ++ (run ++ drop_inside within rest) =
        e
        ∙ ap (◌++◌ p) (skipped.1 ∙ ap (◌++◌ skipped.0) (take-drop rest))
        ∙ sym (append_assoc p skipped.0 (run ++ drop_inside within rest)) in
      longest_from-IsRun whole fuel (if ltb (length best) (length run) then run else best)
        (drop_inside within rest) ((p ++ skipped.0) ++ run)
        (elim (Bool-cases (ltb (length best) (length run))) [
          | inl l ↦ rw l (record {
            before = p ++ skipped.0;
            after = drop_inside within rest;
            split = whole_eq;
            inside = take_inside-Inside rest;
          })
          | inr l ↦ rw l b
        ])
        (whole_eq ∙ sym (append_assoc (p ++ skipped.0) run (drop_inside within rest)))

-- The chain that getMaxAdjacentChain returns is a row of adjacent fragments of the tablet that are
-- all in the set, and no other such row is longer.
pub get_max_adjacent_chain_longest :
    (within fragments : List ℕ)
    → IsRun within fragments (get_max_adjacent_chain within fragments)
      × ((run : List ℕ)
          → IsRun within fragments run
          → length run ≤ length (get_max_adjacent_chain within fragments))
unfolding get_max_adjacent_chain
get_max_adjacent_chain_longest within fragments = (
  longest_from-IsRun within fragments (length fragments) [] fragments []
      (record { before = []; after = fragments; split = refl; inside = tt }) refl,
  (longest_from-longest within (length fragments) [] fragments (omega arith)).1,
)
