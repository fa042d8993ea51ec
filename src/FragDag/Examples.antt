-- ===== src/FragDag/Examples.antt =====
-- A graph of two tablets and three fragments: tests, and the theorems at concrete inputs.
use kdi.Common.{
  ℕ, ◌+◌, ◌*◌, ◌≡◌, ◌≢◌, refl, not, ◌&&◌, some, List, [], ◌∷◌, ltb, ◌==◌, member, lookup, arith,
  length,
}
use kdi.Interval.Point.{exclusive_upper_bound, inclusive_lower_bound, point_lt}
use kdi.Interval.Range.{Interval, bound_point, contains_interval}
use kdi.Interval.Set.Add.{add}
use kdi.Chain.{replace_fragments_internal, search_sequence}
use kdi.FragDag.{
  Dag, FragStats, tablets_of, add_fragment, remove_tablet, sweep_graph,
  get_active_tablet_intersection,
}
use kdi.FragDag.Edges.{Consistent}
use kdi.FragDag.Removal.{add_fragment-Consistent, remove_tablet-Consistent}
use kdi.FragDag.Sweep.{sweep_graph_lem}
use kdi.FragDag.Intersection.{in_all, member-get_active_tablet_intersection}
use kdi.FragDag.Replace.{
  Store, replace_fragments, replace_internal, detach_all, detach, get_active_size, attach,
}
use kdi.FragDag.Replace.Laws.{moved, replace_fragments_lem}

abbrev no_dag : Dag
no_dag = record { active_tablets = []; active_fragments = []; active_frag_stats = []; tablets = [] }

no_dag-Consistent : Consistent no_dag
no_dag-Consistent f t = refl

abbrev one_edge : Dag
one_edge = add_fragment 1 10 no_dag

abbrev two_edges : Dag
two_edges = add_fragment 1 11 one_edge

one_edge-Consistent : Consistent one_edge
one_edge-Consistent = (add_fragment-Consistent 1 10 no_dag no_dag-Consistent).0

two_edges-Consistent : Consistent two_edges
two_edges-Consistent = (add_fragment-Consistent 1 11 one_edge one_edge-Consistent).0

remove_tablet-Consistent_example :
    Consistent (remove_tablet 1 two_edges)
    × ((g s : ℕ)
        → member s (tablets_of g (remove_tablet 1 two_edges))
          ≡ (not (s == 1) && member s (tablets_of g two_edges)))
remove_tablet-Consistent_example = remove_tablet-Consistent 1 two_edges two_edges-Consistent

sweep_graph_lem_example :
    Consistent (sweep_graph two_edges)
    × ((g s : ℕ)
        → member s (tablets_of g (sweep_graph two_edges)) ≡ member s (tablets_of g two_edges))
    × ((f : ℕ) → lookup f (sweep_graph two_edges).active_tablets ≢ some [])
sweep_graph_lem_example = sweep_graph_lem two_edges two_edges-Consistent

member-get_active_tablet_intersection_example :
    member 1 (get_active_tablet_intersection (10 ∷ 11 ∷ []) two_edges)
    ≡ in_all 1 (10 ∷ 11 ∷ []) two_edges
member-get_active_tablet_intersection_example =
    member-get_active_tablet_intersection 1 10 (11 ∷ []) two_edges

abbrev span : ℕ → ℕ → Interval ℕ
span a b = record {
  lower_bound = bound_point a inclusive_lower_bound;
  upper_bound = bound_point b exclusive_upper_bound;
}

-- Tablet `t` has the rows from `10 * t` up.
abbrev store : Store ℕ
store = record {
  lt = ltb;
  rows = λ t. span (10 * t) (10 * t + 10);
  disk_size = λ f. 100;
  disk_size_within = λ f rows. length rows;
}

abbrev sequence : List ℕ
sequence = 10 ∷ 11 ∷ []

abbrev stats : FragStats
stats = record { disk_size = 100; active_disk_size = 2; starting_tablets = 1 }

abbrev before : Dag
before = record {
  active_tablets = (10, 1 ∷ []) ∷ (11, 1 ∷ []) ∷ [];
  active_fragments = (1, 10 ∷ 11 ∷ []) ∷ [];
  active_frag_stats = (10, stats) ∷ (11, stats) ∷ [];
  tablets = (1, record { fragments = 9 ∷ 10 ∷ 11 ∷ []; references = []; dead_files = [] }) ∷ [];
}

abbrev unused : FragStats
unused = record { disk_size = 100; active_disk_size = 0; starting_tablets = 1 }

abbrev after : Dag
after = record {
  active_tablets = (10, []) ∷ (11, []) ∷ (12, 1 ∷ []) ∷ [];
  active_fragments = (1, 12 ∷ []) ∷ [];
  active_frag_stats = (10, unused) ∷ (11, unused) ∷ [];
  tablets =
      (1, record { fragments = 9 ∷ 12 ∷ []; references = 12 ∷ []; dead_files = 10 ∷ 11 ∷ [] }) ∷ [];
}

before-Consistent : Consistent before
before-Consistent f t = ground arith

replaces_a_sequence : replace_fragments store (span 0 100) sequence 12 before ≡ some after
unfolding replace_fragments get_active_tablet_intersection contains_interval point_lt add
    search_sequence replace_fragments_internal replace_internal detach_all detach get_active_size
    attach add_fragment
replaces_a_sequence = refl

replace_fragments_lem_example :
    Consistent after
    × ((g s : ℕ)
        → member s (tablets_of g after)
          ≡ moved store
              (span 0 100)
              (get_active_tablet_intersection sequence before)
              sequence
              (some 12)
              (λ t f. member t (tablets_of f before))
              s
              g)
    × (sequence ≢ [])
replace_fragments_lem_example =
    replace_fragments_lem store (span 0 100) sequence 12 before after before-Consistent
      replaces_a_sequence
