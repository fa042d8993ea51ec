-- ===== src/Chain/Examples.antt =====
-- Chains of fragments: tests, and the theorems at concrete inputs.
use kdi.Common.{ℕ, ◌≡◌, ◌≤◌, refl, some, none, List, [], ◌∷◌, length}
use kdi.Chain.{
  Tablet, get_max_adjacent_chain, skip_outside, take_inside, drop_inside, search_sequence,
  replace_fragments_internal,
}
use kdi.Chain.Longest.{IsRun, get_max_adjacent_chain_longest}
use kdi.Chain.Splice.{Replaces, replace_fragments_internal_lem}

abbrev chain : List ℕ
chain = 4 ∷ 7 ∷ 1 ∷ 9 ∷ 2 ∷ []

abbrev tablet : Tablet
tablet = record { fragments = chain; references = chain; dead_files = [] }

finds_the_longest_run : get_max_adjacent_chain (1 ∷ 2 ∷ 4 ∷ 9 ∷ []) chain ≡ 1 ∷ 9 ∷ 2 ∷ []
unfolding get_max_adjacent_chain skip_outside take_inside drop_inside
finds_the_longest_run = refl

replaces_two :
    replace_fragments_internal tablet (7 ∷ 1 ∷ []) (some 5)
    ≡ some (record {
      fragments = 4 ∷ 5 ∷ 9 ∷ 2 ∷ [];
      references = 4 ∷ 7 ∷ 1 ∷ 9 ∷ 2 ∷ 5 ∷ [];
      dead_files = 7 ∷ 1 ∷ [];
    })
unfolding replace_fragments_internal search_sequence
replaces_two = refl

-- An empty sequence is refused by an empty chain only.
looks_for_nothing :
    (search_sequence [] [] ≡ none) × (search_sequence [] (4 ∷ []) ≡ some ([], 4 ∷ []))
unfolding search_sequence
looks_for_nothing = (refl, refl)

get_max_adjacent_chain_longest_example :
    IsRun (1 ∷ 2 ∷ 4 ∷ 9 ∷ []) chain (get_max_adjacent_chain (1 ∷ 2 ∷ 4 ∷ 9 ∷ []) chain)
    × ((run : List ℕ)
        → IsRun (1 ∷ 2 ∷ 4 ∷ 9 ∷ []) chain run
        → length run ≤ length (get_max_adjacent_chain (1 ∷ 2 ∷ 4 ∷ 9 ∷ []) chain))
get_max_adjacent_chain_longest_example = get_max_adjacent_chain_longest (1 ∷ 2 ∷ 4 ∷ 9 ∷ []) chain

replace_fragments_internal_lem_example :
    Replaces tablet (7 ∷ 1 ∷ []) (some 5) (replace_fragments_internal tablet (7 ∷ 1 ∷ []) (some 5))
replace_fragments_internal_lem_example = replace_fragments_internal_lem tablet 7 (1 ∷ []) (some 5)
