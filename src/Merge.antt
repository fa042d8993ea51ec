-- ===== src/Merge.antt =====
-- The merge of sorted streams, src/cc/flux/merge.h, and the merge of cells on it,
-- src/cc/kdi/cell_merge.h. A stream is the list of the values that it has still to give. The heap of
-- src/cc/warp/heap.h is the list of its inputs: its layout is the standard library's, and the top is
-- the least input by InputOrder, which tells all inputs apart by their index.
pub mod Top
pub mod Round
pub mod Result
pub mod Cells
mod Examples
use kdi.Common.{
  ℕ, zero, suc, ◌+◌, Bool, true, false, not, ◌&&◌, ◌||◌, Option, none, some, List, [], ◌∷◌, ◌++◌,
  ltb, ◌==◌, if◌then◌else◌, length,
}

-- An input that is on the heap, with the value it has read.
pub record Input {ℓ} (T : Type ℓ) : Type ℓ where
  pub index : ℕ
  pub value : T
  pub stream : List T

module _ {ℓ} {T : Type ℓ} where
  -- `readNext`: the input with its next value, or nothing if the stream has ended.
  abbrev pub read_next : ℕ → List T → List (Input T)
  read_next i [] = []
  read_next i (x ∷ s) = record { index = i; value = x; stream = s } ∷ []

  -- `fetch` of inputs that were piped in order, the first with the given index.
  abbrev pub fetch_from : ℕ → List (List T) → List (Input T)
  fetch_from i [] = []
  fetch_from i (s ∷ inputs) = read_next i s ++ fetch_from (suc i) inputs

module _ {ℓ} {T : Type ℓ} (lt : T → T → Bool) where
  -- `InputOrder`: by value, then by the index of the stream.
  abbrev pub input_lt : Input T → Input T → Bool
  input_lt a b =
      if lt a.value b.value then true else if lt b.value a.value then false else ltb a.index b.index

  -- `minHeap.top()`.
  unfoldable pub top : List (Input T) → Option (Input T)
  top [] = none
  top (e ∷ heap) = elim (top heap) [
    | none ↦ some e
    | some f ↦ if input_lt f e then some f else some e
  ]

  -- `advance`: the input with the top's index reads its next value, or leaves the heap.
  unfoldable pub advance : ℕ → List (Input T) → List (Input T)
  advance i [] = []
  advance i (e ∷ heap) =
      let rest = advance i heap in if e.index == i then read_next i e.stream ++ heap else e ∷ rest

  -- The loop of a unique merge: inputs advance while the top is not greater than `x`.
  unfoldable pub skip_duplicates : ℕ → T → List (Input T) → List (Input T)
  skip_duplicates zero x heap = heap
  skip_duplicates (suc fuel) x heap = elim (top heap) [
    | none ↦ heap
    | some e ↦ elim (lt x e.value) [
      | true ↦ heap
      | false ↦ skip_duplicates fuel x (advance e.index heap)
    ]
  ]

  -- The values that the heap has still to give.
  abbrev pub pending : List (Input T) → ℕ
  pending [] = 0
  pending (e ∷ heap) = suc (length e.stream) + pending heap

  -- `get`, with the heap after it. Each round of the loop takes a value off an input.
  unfoldable pub get : Bool → List (Input T) → Option (T × List (Input T))
  unfolding skip_duplicates
  get merge_unique heap = elim (top heap) [
    | none ↦ none
    | some e ↦
        let rest = advance e.index heap in
        some (e.value, if merge_unique then skip_duplicates (pending rest) e.value rest else rest)
  ]

  -- What a reader gets until the merge ends.
  unfoldable pub read_all : ℕ → Bool → List (Input T) → List T
  read_all zero merge_unique heap = []
  read_all (suc fuel) merge_unique heap = elim (get merge_unique heap) [
    | none ↦ []
    | some r ↦ r.0 ∷ read_all fuel merge_unique r.1
  ]

  unfoldable pub merge : Bool → List (List T) → List T
  unfolding read_all
  merge merge_unique inputs =
      let heap = fetch_from 0 inputs in read_all (pending heap) merge_unique heap
