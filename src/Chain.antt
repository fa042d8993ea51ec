-- ===== src/Chain.antt =====
-- A tablet's chain of fragments: the operations on `fragments` of src/cc/kdi/tablet/Tablet.cc.
-- A fragment is the number of its pointer, a null pointer is `none`; in a result `none` is a raised
-- error.
pub mod Search
pub mod Longest
pub mod Splice
mod Examples
use kdi.Common.{
  ℕ, zero, suc, ◌+◌, ◌-◌, Bool, true, false, Option, none, some, List, [], ◌∷◌, ◌++◌, ◌==◌, ltb,
  if◌then◌else◌, length, take, drop, member,
}

-- `std::find` and the element before the place found; `last` is the element before the list.
abbrev pub parent_from : Option ℕ → ℕ → List ℕ → Option (Option ℕ)
parent_from last f [] = none
parent_from last f (g ∷ s) = if f == g then some last else parent_from (some g) f s

unfoldable pub get_fragment_parent : List ℕ → ℕ → Option (Option ℕ)
get_fragment_parent fragments f = parent_from none f fragments

abbrev pub first : List ℕ → Option ℕ
first [] = none
first (f ∷ s) = some f

unfoldable pub get_fragment_child : List ℕ → ℕ → Option (Option ℕ)
get_fragment_child [] f = none
get_fragment_child (g ∷ s) f = if f == g then some (first s) else get_fragment_child s f

-- The two inner loops, to the first fragment inside the set and to the first one outside.
unfoldable pub skip_outside : List ℕ → List ℕ → List ℕ
skip_outside within [] = []
skip_outside within (f ∷ s) = if member f within then f ∷ s else skip_outside within s

unfoldable pub take_inside : List ℕ → List ℕ → List ℕ
take_inside within [] = []
take_inside within (f ∷ s) = if member f within then f ∷ take_inside within s else []

unfoldable pub drop_inside : List ℕ → List ℕ → List ℕ
drop_inside within [] = []
drop_inside within (f ∷ s) = if member f within then drop_inside within s else f ∷ s

-- The outer loop, with the longest run so far. Each round but the last moves `start` ahead.
unfoldable pub longest_from : ℕ → List ℕ → List ℕ → List ℕ → List ℕ
longest_from zero within best start = best
longest_from (suc fuel) within best start =
    let s = skip_outside within start in
    let run = take_inside within s in
    longest_from fuel within (if ltb (length best) (length run) then run else best)
      (drop_inside within s)

unfoldable pub get_max_adjacent_chain : List ℕ → List ℕ → List ℕ
unfolding longest_from
get_max_adjacent_chain within fragments = longest_from (length fragments) within [] fragments

-- Whether the second list begins with the first one.
unfoldable pub starts_with : List ℕ → List ℕ → Bool
starts_with [] s = true
starts_with (f ∷ old) [] = false
starts_with (f ∷ old) (g ∷ s) = if f == g then starts_with old s else false

-- `std::search`: what stands before the first place where the sequence begins, and the rest from
-- there on; `none` where it returns the end, as it does for every sequence in an empty list.
unfoldable pub search_sequence : List ℕ → List ℕ → Option (List ℕ × List ℕ)
unfolding starts_with
search_sequence old [] = none
search_sequence old (f ∷ s) =
    let later = search_sequence old s in
    if starts_with old (f ∷ s)
    then some ([], f ∷ s)
    else elim later [ none ↦ none | some (before, rest) ↦ some (f ∷ before, rest) ]

abbrev pub new_item : Option ℕ → List ℕ
new_item none = []
new_item (some f) = f ∷ []

-- The part of a tablet that the replacement changes, and what it tells the file tracker.
pub record Tablet : Type 0 where
  pub fragments : List ℕ
  pub references : List ℕ
  pub dead_files : List ℕ

-- What stands from the place found on, with a sequence of `n` fragments: the new fragment, if there is
-- one, is assigned to the first of them, and the others are erased. For a new fragment and no old
-- ones the source erases a reversed range, which has no meaning; here nothing is erased then.
abbrev pub splice : Option ℕ → ℕ → List ℕ → List ℕ
splice none n rest = drop n rest
splice (some f) n rest = f ∷ drop (n - 1) (drop 1 rest)

unfoldable pub replace_fragments_internal : Tablet → List ℕ → Option ℕ → Option Tablet
replace_fragments_internal t old new = elim (search_sequence old t.fragments) [
  | none ↦ none
  | some (before, rest) ↦ some (record {
    fragments = before ++ splice new (length old) rest;
    references = t.references ++ new_item new;
    dead_files = t.dead_files ++ old;
  })
]

-- `removeFragments`.
unfoldable pub remove_fragments : Tablet → List ℕ → Option Tablet
unfolding replace_fragments_internal
remove_fragments t old = replace_fragments_internal t old none
