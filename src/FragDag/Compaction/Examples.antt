-- ===== src/FragDag/Compaction/Examples.antt =====
-- The compaction set of a small graph: tests, and the theorems at concrete inputs.
use kdi.Common.{ℕ, ◌-◌, ◌≡◌, refl, some, none, List, [], ◌∷◌, ◌++◌, length, take, All}
use kdi.Chain.{get_fragment_parent, get_fragment_child}
use kdi.FragDag.{Dag}
use kdi.FragDag.Compaction.{
  CompactionList, get_child, add_children, add_parents, grow, sort_in, sort_by_length, add_seeded,
  choose_seeded, choose_adjacent, choose_compaction_set,
}
use kdi.FragDag.Compaction.Grow.{below, known, grow_lem}
use kdi.FragDag.Compaction.Choice.{IsSeeded, IsAdjacent, choose_compaction_set_lem}

-- Fragment 13 is a log, which the graph does not know.
abbrev dag : Dag
dag = record {
  active_tablets = (10, 1 ∷ []) ∷ (11, 1 ∷ 2 ∷ []) ∷ (12, 1 ∷ 2 ∷ []) ∷ [];
  active_fragments = (1, 10 ∷ 11 ∷ 12 ∷ []) ∷ (2, 11 ∷ 12 ∷ []) ∷ [];
  active_frag_stats = [];
  tablets =
      (1, record { fragments = 10 ∷ 11 ∷ 12 ∷ 13 ∷ []; references = []; dead_files = [] })
      ∷ (2, record { fragments = 11 ∷ 12 ∷ []; references = []; dead_files = [] })
      ∷ [];
}

chooses_both_tablets :
    choose_compaction_set 16 (some 11) dag
    ≡ some (
        record { tablet = 1; fragments = 10 ∷ 11 ∷ 12 ∷ [] }
        ∷ record { tablet = 2; fragments = 11 ∷ 12 ∷ [] }
        ∷ [])
unfolding choose_compaction_set choose_seeded add_seeded choose_adjacent grow add_children
    add_parents get_child get_fragment_parent get_fragment_child sort_by_length sort_in
chooses_both_tablets = refl

prefers_children : grow 2 dag (10 ∷ 11 ∷ 12 ∷ 13 ∷ []) 11 ≡ some (11 ∷ 12 ∷ [])
unfolding grow add_children add_parents get_child get_fragment_parent get_fragment_child
prefers_children = refl

chooses_nothing_without_a_fragment : choose_compaction_set 16 none dag ≡ some []
unfolding choose_compaction_set
chooses_nothing_without_a_fragment = refl

grow_lem_example :
    let children = take (2 - 1) (known dag (12 ∷ 13 ∷ [])) in
    grow 2 dag (below (10 ∷ []) (11 ∷ 12 ∷ 13 ∷ [])) 11
    ≡ some (below (take (2 - length {A = ℕ} (11 ∷ children)) (10 ∷ [])) (11 ∷ children))
grow_lem_example = grow_lem 2 dag 11 (10 ∷ []) (12 ∷ 13 ∷ []) (refl, (refl, (refl, (refl, tt))))

choose_compaction_set_lem_example :
    (seeded : List CompactionList) × (adjacent : List CompactionList) × (choose_compaction_set 16
        (some 11)
        dag
      ≡ some (seeded ++ adjacent))
    × All (IsSeeded 16 dag 11) seeded
    × All (IsAdjacent dag seeded) adjacent
choose_compaction_set_lem_example =
    choose_compaction_set_lem 16 11 dag (1 ∷ 2 ∷ []) refl (
      (_, refl, (refl, (refl, (refl, (refl, tt)))), refl),
      ((_, refl, (refl, (refl, tt)), refl), tt),
    )
