-- ===== src/FragDag.antt =====
-- The graph of fragments and tablets: src/cc/kdi/tablet/FragDag.cc and FragDag.h. Fragments and
-- tablets are the numbers of their pointers. `none` is a raised error, or the use of an iterator at
-- the end of a map, which C++ leaves undefined.
pub mod Edges
pub mod Removal
pub mod Replace
pub mod Intersection
pub mod Sweep
pub mod Compaction
mod Examples
use mathlib.Core.Option
use kdi.Common.{
  ℕ, ◌-◌, Bool, true, false, Option, none, some, ◌>>=◌, List, [], ◌∷◌, if◌then◌else◌, length,
  member, insert, erase, lookup, assign, remove,
}
use kdi.Interval.Point.{IntervalPoint}
use kdi.Interval.Range.{Interval, contains_interval}
use kdi.Interval.Set.Add.{add}
use kdi.Chain.{Tablet, replace_fragments_internal}

pub record FragStats : Type 0 where
  pub disk_size : ℕ
  pub active_disk_size : ℕ
  pub starting_tablets : ℕ

-- The two maps, the cached statistics, and the chains of the tablets that the graph points to.
pub record Dag : Type 0 where
  pub active_tablets : List (ℕ × List ℕ)
  pub active_fragments : List (ℕ × List ℕ)
  pub active_frag_stats : List (ℕ × FragStats)
  pub tablets : List (ℕ × Tablet)

abbrev pub or_empty : Option (List ℕ) → List ℕ
or_empty none = []
or_empty (some s) = s

-- `activeTablets[f]` and `activeFragments[t]`, where a missing key reads as an empty set.
abbrev pub tablets_of : ℕ → Dag → List ℕ
tablets_of f d = or_empty (lookup f d.active_tablets)

abbrev pub fragments_of : ℕ → Dag → List ℕ
fragments_of t d = or_empty (lookup t d.active_fragments)

abbrev pub is_nil : List ℕ → Bool
is_nil [] = true
is_nil (x ∷ s) = false

unfoldable pub add_fragment : ℕ → ℕ → Dag → Dag
add_fragment t f d = record {
  active_tablets = assign f (insert t (tablets_of f d)) d.active_tablets;
  active_fragments = assign t (insert f (fragments_of t d)) d.active_fragments;
  active_frag_stats = d.active_frag_stats;
  tablets = d.tablets;
}

unfoldable pub remove_inactive_fragment : ℕ → Dag → Dag
remove_inactive_fragment f d = record {
  active_tablets = remove f d.active_tablets;
  active_fragments = d.active_fragments;
  active_frag_stats = remove f d.active_frag_stats;
  tablets = d.tablets;
}

set_tablets : ℕ → List ℕ → Dag → Dag
set_tablets f s d = record {
  active_tablets = assign f s d.active_tablets;
  active_fragments = d.active_fragments;
  active_frag_stats = d.active_frag_stats;
  tablets = d.tablets;
}

-- The loop body of `removeTablet`, and the loop.
unfoldable pub drop_tablet : ℕ → ℕ → Dag → Dag
unfolding set_tablets
drop_tablet t f d =
    let left = erase t (tablets_of f d) in
    if is_nil left then remove_inactive_fragment f (set_tablets f left d) else set_tablets f left d

unfoldable pub drop_from_all : ℕ → List ℕ → Dag → Dag
drop_from_all t [] d = d
drop_from_all t (f ∷ fragments) d = drop_from_all t fragments (drop_tablet t f d)

erase_tablet : ℕ → Dag → Dag
erase_tablet t d = record {
  active_tablets = d.active_tablets;
  active_fragments = remove t d.active_fragments;
  active_frag_stats = d.active_frag_stats;
  tablets = d.tablets;
}

unfoldable pub remove_tablet : ℕ → Dag → Dag
unfolding erase_tablet
remove_tablet t d = elim (lookup t d.active_fragments) [
  | none ↦ d
  | some fragments ↦ erase_tablet t (drop_from_all t fragments d)
]

-- The tablets active in every fragment of a sequence.
erase_absent : List ℕ → List ℕ → List ℕ
erase_absent tablets [] = []
erase_absent tablets (t ∷ active) =
    let rest = erase_absent tablets active in if member t tablets then t ∷ rest else rest

intersect_from : List ℕ → List ℕ → Dag → List ℕ
unfolding erase_absent
intersect_from active [] d = active
intersect_from active (f ∷ fragments) d = elim (lookup f d.active_tablets) [
  | none ↦ []
  | some tablets ↦ intersect_from (erase_absent tablets active) fragments d
]

unfoldable pub get_active_tablet_intersection : List ℕ → Dag → List ℕ
unfolding intersect_from
get_active_tablet_intersection [] d = []
get_active_tablet_intersection (f ∷ fragments) d = elim (lookup f d.active_tablets) [
  | none ↦ []
  | some tablets ↦ intersect_from tablets fragments d
]

insert_all : List ℕ → List ℕ → List ℕ
insert_all [] active = active
insert_all (t ∷ tablets) active = insert_all tablets (insert t active)

unfoldable pub get_active_tablets : List ℕ → Dag → Option (List ℕ)
unfolding insert_all
get_active_tablets [] d = some []
get_active_tablets (f ∷ fragments) d = do
  tablets ← lookup f d.active_tablets
  active ← get_active_tablets fragments d
  some (insert_all tablets active)

unfoldable pub filter_tablet_fragments : List ℕ → ℕ → Dag → Option (List ℕ)
filter_tablet_fragments [] t d = some []
filter_tablet_fragments (f ∷ fragments) t d = do
  tablets ← lookup f d.active_tablets
  filtered ← filter_tablet_fragments fragments t d
  some (if member t tablets then f ∷ filtered else filtered)

-- The two loops of `sweepGraph`, over the keys that the maps have at their start. A round reads the
-- entry at its key and erases no other entry.
keys {ℓ} : {V : Type ℓ} → List (ℕ × V) → List ℕ
keys [] = []
keys ((k, v) ∷ m) = k ∷ keys m

unfoldable pub sweep_tablet : ℕ → Dag → Dag
sweep_tablet t d = if is_nil (fragments_of t d) then remove_tablet t d else d

unfoldable pub sweep_tablets : List ℕ → Dag → Dag
sweep_tablets [] d = d
sweep_tablets (t ∷ ts) d = sweep_tablets ts (sweep_tablet t d)

unfoldable pub sweep_fragment : ℕ → Dag → Dag
sweep_fragment f d = if is_nil (tablets_of f d) then remove_inactive_fragment f d else d

unfoldable pub sweep_fragments : List ℕ → Dag → Dag
sweep_fragments [] d = d
sweep_fragments (f ∷ fs) d = sweep_fragments fs (sweep_fragment f d)

unfoldable pub sweep_graph : Dag → Dag
unfolding keys
sweep_graph d =
    let e = sweep_tablets (keys d.active_fragments) d in sweep_fragments (keys e.active_tablets) e
