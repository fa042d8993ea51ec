-- ===== src/FragDag/Compaction.antt =====
-- `chooseCompactionSet` of src/cc/kdi/tablet/FragDag.cc. The fragment of the greatest weight is a
-- parameter: weights are floating-point numbers.
pub mod Grow
pub mod Run
pub mod Choice
mod Examples
use mathlib.Core.Option
use kdi.Common.{
  ℕ, zero, suc, ◌/◌, Bool, true, false, Option, none, some, ◌>>=◌, List, [], ◌∷◌, ◌++◌, ltb, leb,
  if◌then◌else◌, length, member, insert, lookup,
}
use kdi.Chain.{Tablet, get_fragment_parent, get_fragment_child, get_max_adjacent_chain}
use kdi.FragDag.{Dag, tablets_of, fragments_of}

pub record CompactionList : Type 0 where
  pub tablet : ℕ
  pub fragments : List ℕ

-- A child that the graph does not know is a log, which is no child here.
abbrev pub known_child : Dag → Option ℕ → Option ℕ
known_child d none = none
known_child d (some f) = elim (lookup f d.active_tablets) [ none ↦ none | some tablets ↦ some f ]

unfoldable pub get_child : Dag → List ℕ → ℕ → Option (Option ℕ)
get_child d chain f = Option.map (known_child d) (get_fragment_child chain f)

-- The loop over children, from the fragment `f`. Each round but the last adds one to the list.
unfoldable pub add_children : ℕ → ℕ → Dag → List ℕ → ℕ → List ℕ → Option (List ℕ)
add_children zero width d chain f list = some list
add_children (suc fuel) width d chain f list = elim (ltb (length list) width) [
  | false ↦ some list
  | true ↦ elim (get_child d chain f) [
    | none ↦ none
    | some child ↦ elim child [
      | none ↦ some list
      | some g ↦ add_children fuel width d chain g (list ++ (g ∷ []))
    ]
  ]
]

-- The loop over parents.
unfoldable pub add_parents : ℕ → ℕ → List ℕ → ℕ → List ℕ → Option (List ℕ)
add_parents zero width chain f list = some list
add_parents (suc fuel) width chain f list = elim (ltb (length list) width) [
  | false ↦ some list
  | true ↦ elim (get_fragment_parent chain f) [
    | none ↦ none
    | some parent ↦ elim parent [
      | none ↦ some list
      | some g ↦ add_parents fuel width chain g (g ∷ list)
    ]
  ]
]

-- The list of a tablet with the chain, around the fragment.
unfoldable pub grow : ℕ → Dag → List ℕ → ℕ → Option (List ℕ)
grow width d chain f = do
  list ← add_children width width d chain f (f ∷ [])
  add_parents width width chain f list

abbrev pub chain_length : Dag → ℕ → ℕ
chain_length d t = length (fragments_of t d)

-- The tablets of the fragment by the length of their chains, the longest first.
unfoldable pub sort_in : Dag → ℕ → List ℕ → List ℕ
sort_in d t [] = t ∷ []
sort_in d t (u ∷ ts) =
    let rest = sort_in d t ts in
    if ltb (chain_length d t) (chain_length d u) then u ∷ rest else t ∷ u ∷ ts

unfoldable pub sort_by_length : Dag → List ℕ → List ℕ
sort_by_length d [] = []
sort_by_length d (t ∷ ts) = sort_in d t (sort_by_length d ts)

abbrev pub insert_range : List ℕ → List ℕ → List ℕ
insert_range [] frags = frags
insert_range (f ∷ list) frags = insert_range list (insert f frags)

-- What the first loop leaves: the lists, the tablets that it has not come to, all fragments of the
-- lists, and the length of the smallest list.
pub record Chosen : Type 0 where
  pub compactions : List CompactionList
  pub remaining : List ℕ
  pub all_frags : List ℕ
  pub smallest_chain : ℕ

abbrev pub add_list : CompactionList → Chosen → Chosen
add_list list c = record {
  compactions = list ∷ c.compactions;
  remaining = c.remaining;
  all_frags = c.all_frags;
  smallest_chain = c.smallest_chain;
}

-- A round of the first loop, with the tablet's list and what the later rounds make of the set of
-- fragments and the smallest length.
unfoldable pub add_seeded :
    ℕ → List ℕ → List ℕ → ℕ → List ℕ → (List ℕ → ℕ → Option Chosen) → Option Chosen
add_seeded t list all_frags smallest ts more = elim (ltb 1 (length list)) [
  | false ↦ more all_frags smallest
  | true ↦
      let added : CompactionList = record { tablet = t; fragments = list } in
      let frags = insert_range list all_frags in
      let least = if ltb (length list) smallest then length list else smallest in
      elim (leb 32 (length frags)) [
        | true ↦ some record {
          compactions = added ∷ [];
          remaining = ts;
          all_frags = frags;
          smallest_chain = least;
        }
        | false ↦ Option.map (add_list added) (more frags least)
      ]
]

unfoldable pub choose_seeded : ℕ → Dag → ℕ → List ℕ → ℕ → List ℕ → Option Chosen
choose_seeded width d frag all_frags smallest [] =
    some
      record { compactions = []; remaining = []; all_frags = all_frags; smallest_chain = smallest }
choose_seeded width d frag all_frags smallest (t ∷ ts) = do
  tablet ← lookup t d.tablets
  list ← grow width d tablet.fragments frag
  add_seeded t list all_frags smallest ts (λ frags least. choose_seeded width d frag frags least ts)

-- The second loop: the other tablets' longest chains within the fragments.
unfoldable pub choose_adjacent : Dag → List ℕ → ℕ → List ℕ → Option (List CompactionList)
choose_adjacent d all_frags smallest [] = some []
choose_adjacent d all_frags smallest (t ∷ ts) = do
  tablet ← lookup t d.tablets
  rest ← choose_adjacent d all_frags smallest ts
  let chain = get_max_adjacent_chain all_frags tablet.fragments
  some (
      if ltb (smallest / 2) (length chain)
      then record { tablet = t; fragments = chain } ∷ rest
      else rest)

unfoldable pub choose_compaction_set : ℕ → Option ℕ → Dag → Option (List CompactionList)
unfolding choose_seeded choose_adjacent
choose_compaction_set width none d = some []
choose_compaction_set width (some frag) d = do
  tablets ← lookup frag d.active_tablets
  seeded ← choose_seeded width d frag [] width (sort_by_length d tablets)
  adjacent ← choose_adjacent d seeded.all_frags seeded.smallest_chain seeded.remaining
  some (seeded.compactions ++ adjacent)
