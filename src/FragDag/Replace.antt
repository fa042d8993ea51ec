-- ===== src/FragDag/Replace.antt =====
-- Statistics of fragments and the replacement of fragments: the part of
-- src/cc/kdi/tablet/FragDag.cc that asks the tablets for their rows and the fragments for sizes.
pub mod Laws
use mathlib.Core.Option
use kdi.Common.{
  ℕ, ◌+◌, ◌-◌, ◌^◌, ◌%◌, Bool, true, false, Option, none, some, ◌>>=◌, List, [], ◌∷◌, if◌then◌else◌,
  length, erase, lookup, assign,
}
use kdi.Interval.Point.{IntervalPoint}
use kdi.Interval.Range.{Interval, contains_interval}
use kdi.Interval.Set.Add.{add}
use kdi.Chain.{Tablet, replace_fragments_internal}
use kdi.FragDag.{
  FragStats, Dag, tablets_of, fragments_of, add_fragment, get_active_tablet_intersection,
}

-- What the graph asks of its tablets (`getRows`) and of its fragments (`getDiskSize`, of all their
-- rows and of a set of rows), with the order of rows.
pub record Store {ℓ} (T : Type ℓ) : Type ℓ where
  pub lt : T → T → Bool
  pub rows : ℕ → Interval T
  pub disk_size : ℕ → ℕ
  pub disk_size_within : ℕ → List (IntervalPoint T) → ℕ

set_stats : ℕ → FragStats → Dag → Dag
set_stats f s d = record {
  active_tablets = d.active_tablets;
  active_fragments = d.active_fragments;
  active_frag_stats = assign f s d.active_frag_stats;
  tablets = d.tablets;
}

unfoldable pub unlink : ℕ → ℕ → Dag → Dag
unlink t f d = record {
  active_tablets = assign f (erase t (tablets_of f d)) d.active_tablets;
  active_fragments = assign t (erase f (fragments_of t d)) d.active_fragments;
  active_frag_stats = d.active_frag_stats;
  tablets = d.tablets;
}

unfoldable pub attach : ℕ → Option ℕ → Dag → Dag
attach t none d = d
attach t (some f) d = add_fragment t f d

set_tablet : ℕ → Tablet → Dag → Dag
set_tablet t tablet d = record {
  active_tablets = d.active_tablets;
  active_fragments = d.active_fragments;
  active_frag_stats = d.active_frag_stats;
  tablets = assign t tablet d.tablets;
}

module _ {ℓ} {T : Type ℓ} (store : Store T) where
  unfoldable pub add_rows : List ℕ → List (IntervalPoint T) → Option (List (IntervalPoint T))
  add_rows [] rows = some rows
  add_rows (t ∷ tablets) rows = do more ← add store.lt rows (store.rows t); add_rows tablets more

  unfoldable pub get_active_ranges : ℕ → Dag → Option (List (IntervalPoint T))
  unfolding add_rows
  get_active_ranges f d = do tablets ← lookup f d.active_tablets; add_rows tablets []

  unfoldable pub get_active_size : ℕ → Dag → Option ℕ
  unfolding get_active_ranges
  get_active_size f d = do ranges ← get_active_ranges f d; some (store.disk_size_within f ranges)

  -- The statistics of a fragment, which are computed when they are first asked for.
  unfoldable pub get_fragment_stats : ℕ → Dag → Option (FragStats × Dag)
  unfolding set_stats
  get_fragment_stats f d = elim (lookup f d.active_frag_stats) [
    | some s ↦ some (s, d)
    | none ↦ do
      active ← get_active_size f d
      tablets ← lookup f d.active_tablets
      let s : FragStats = record {
        disk_size = store.disk_size f;
        active_disk_size = active;
        starting_tablets = length tablets;
      }
      some (s, set_stats f s d)
  ]

  -- `size_t` wraps; both sizes are below `2 ^ 64`.
  unfoldable pub get_inactive_size : ℕ → Dag → Option (ℕ × Dag)
  get_inactive_size f d = do
    (s, e) ← get_fragment_stats f d
    some ((s.disk_size + (2 ^ 64 - s.active_disk_size)) % 2 ^ 64, e)

  -- The loop body of `replaceInternal`, and the loop.
  unfoldable pub detach : ℕ → ℕ → Dag → Option Dag
  unfolding unlink set_stats
  detach t f d = do
    stats ← lookup f d.active_frag_stats
    size ← get_active_size f (unlink t f d)
    some (
        set_stats f
          (record {
            disk_size = stats.disk_size;
            active_disk_size = size;
            starting_tablets = stats.starting_tablets;
          })
          (unlink t f d))

  unfoldable pub detach_all : ℕ → List ℕ → Dag → Option Dag
  detach_all t [] d = some d
  detach_all t (f ∷ fragments) d = do e ← detach t f d; detach_all t fragments e

  unfoldable pub replace_internal : ℕ → List ℕ → Option ℕ → Dag → Option Dag
  unfolding set_tablet
  replace_internal t old new d = do
    detached ← detach_all t old d
    let e = attach t new detached
    tablet ← lookup t e.tablets
    changed ← replace_fragments_internal tablet old new
    some (set_tablet t changed e)

  -- The loop that `replaceFragments` and `removeFragments` share.
  unfoldable pub replace_each : Interval T → List ℕ → Option ℕ → List ℕ → Dag → Option Dag
  replace_each range old new [] d = some d
  replace_each range old new (t ∷ tablets) d = do
    e ←
        if contains_interval store.lt range (store.rows t)
        then replace_internal t old new d
        else some d
    replace_each range old new tablets e

  unfoldable pub replace_fragments : Interval T → List ℕ → ℕ → Dag → Option Dag
  unfolding replace_each
  replace_fragments range [] new d = none
  replace_fragments range (f ∷ old) new d =
      replace_each range (f ∷ old) (some new) (get_active_tablet_intersection (f ∷ old) d) d

  unfoldable pub remove_fragments : Interval T → List ℕ → Dag → Option Dag
  unfolding replace_each
  remove_fragments range [] d = none
  remove_fragments range (f ∷ old) d =
      replace_each range (f ∷ old) none (get_active_tablet_intersection (f ∷ old) d) d
