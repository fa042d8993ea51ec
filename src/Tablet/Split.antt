-- ===== src/Tablet/Split.antt =====
-- The split of a tablet: splitTablet and chooseSplitRow of src/cc/kdi/tablet/Tablet.cc, with the
-- constructor that clones a tablet.
pub mod Rows
pub mod Clones
mod Examples
use mathlib.Core.Option
use kdi.Common.{
  ℕ, ◌+◌, ◌%◌, ◌^◌, ◌/◌, Bool, true, false, ◌||◌, Option, none, some, ◌>>=◌, List, [], ◌∷◌, ◌++◌,
  ltb, if◌then◌else◌, lookup, assign,
}
use kdi.Interval.Point.{inclusive, exclusive}
use kdi.Interval.Range.{Interval, set_lower_bound, set_upper_bound, is_empty}
use kdi.CellFilter.{string_lt}
use kdi.Merge.{merge}
use kdi.Chain.{Tablet}
use kdi.FragDag
use kdi.Tablet.Logs.{Logs, Server, World, modify, with_dag, with_logs}

-- Rows with the sizes of their cells: the order of pairs, and the stream that is read until half of
-- the total size is passed. The row that was read last is the result; `x` starts as no row.
unfoldable pub pair_lt : List ℕ × ℕ → List ℕ × ℕ → Bool
pair_lt a b = if string_lt a.0 b.0 then true else if string_lt b.0 a.0 then false else ltb a.1 b.1

unfoldable pub choose_from : ℕ → ℕ → List ℕ → List (List ℕ × ℕ) → List ℕ
choose_from middle size row [] = row
choose_from middle size row (x ∷ pairs) =
    let later = choose_from middle ((size + x.1) % 2 ^ 64) x.0 pairs in
    if ltb size middle then later else row

unfoldable pub choose_split_row : ℕ → List (List (List ℕ × ℕ)) → List ℕ
unfolding choose_from
choose_split_row total_size indexes =
    choose_from (total_size / 2) 0 [] (merge pair_lt false indexes)

-- The rows of the two tablets, unless one has none.
unfoldable pub split_rows :
    Interval (List ℕ) → List ℕ → Option (Interval (List ℕ) × Interval (List ℕ))
split_rows rows row =
    let low = set_upper_bound rows row inclusive in
    let high = set_lower_bound rows row exclusive in
    if is_empty string_lt low || is_empty string_lt high then none else some (low, high)

module _ (world : World) where
  -- The fragments that the clone adds to the graph.
  abbrev pub add_immutable : ℕ → List ℕ → FragDag.Dag → FragDag.Dag
  add_immutable t [] d = d
  add_immutable t (f ∷ fragments) d =
      add_immutable t fragments (if world.is_immutable f then FragDag.add_fragment t f d else d)

  abbrev pub cloned : Tablet → Tablet
  cloned tablet = record {
    fragments = tablet.fragments;
    references = tablet.fragments;
    dead_files = [];
  }

  -- The logs at the end of the chain become shared with the clone: what the loop from the end has
  -- done when it comes to the front of a list, and whether it has been stopped.
  abbrev pub share_logs : ℕ → List ℕ → List (ℕ × ℕ) → List (ℕ × ℕ) × Bool
  share_logs clone [] m = (m, false)
  share_logs clone (f ∷ fragments) m =
      let r = share_logs clone fragments m in
      if r.1 then r else if world.is_immutable f then (r.0, true) else (assign f clone r.0, false)

  abbrev pub with_clone : ℕ → ℕ → Tablet → FragDag.Dag → FragDag.Dag
  with_clone t clone tablet d =
      let grown = add_immutable clone tablet.fragments d in
      record {
        active_tablets = grown.active_tablets;
        active_fragments = grown.active_fragments;
        active_frag_stats = grown.active_frag_stats;
        tablets = (clone, cloned tablet) ∷ grown.tablets;
      }

  abbrev pub split_logs : ℕ → Tablet → Logs → Logs
  split_logs clone tablet l = record {
    cloned_logs = (share_logs clone tablet.fragments l.cloned_logs).0;
    duplicated_logs = l.duplicated_logs;
    split_pending = false;
  }

  abbrev pub cloned_logs_of : Logs → Logs
  cloned_logs_of l = record {
    cloned_logs = l.cloned_logs;
    duplicated_logs = [];
    split_pending = false;
  }

  -- The store with the clone of a tablet as the new object `clone`.
  abbrev pub split_server : ℕ → ℕ → Tablet → Logs → Server → Server
  split_server t clone tablet logs s = record {
    dag = with_clone t clone tablet s.dag;
    logs = (clone, cloned_logs_of logs) ∷ modify t (split_logs clone tablet) s.logs;
    split_requests = s.split_requests;
  }

  -- The cloning in `splitTablet`; `none` where there is no such tablet.
  unfoldable pub clone_tablet : ℕ → ℕ → Server → Option Server
  clone_tablet t clone s = do
    tablet ← lookup t s.dag.tablets
    logs ← lookup t s.logs
    some (split_server t clone tablet logs s)

-- `splitTablet` at a row: nothing happens where the rows cannot be split.
unfoldable pub split_tablet :
    World
    → ℕ
    → ℕ
    → Interval (List ℕ)
    → List ℕ
    → Server
    → Option (Option (Interval (List ℕ) × Interval (List ℕ)) × Server)
split_tablet world t clone rows row s = elim (split_rows rows row) [
  | none ↦ some (none, s)
  | some parts ↦ Option.map (λ after. (some parts, after)) (clone_tablet world t clone s)
]
