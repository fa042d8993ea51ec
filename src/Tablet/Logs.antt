-- ===== src/Tablet/Logs.antt =====
-- Adding fragments to tablets and replacing them, with the logs that tablets share after a split:
-- addFragment and replaceFragments of src/cc/kdi/tablet/Tablet.cc. Tablets are objects of a store.
pub mod Forward
pub mod Append
pub mod Shared
pub mod Orders
mod Examples
use mathlib.Core.Option
use kdi.Common.{
  ℕ, zero, suc, ◌+◌, ◌%◌, ◌^◌, Bool, true, false, not, ◌&&◌, Option, none, some, List, [], ◌∷◌,
  ◌++◌, leb, ◌==◌, if◌then◌else◌, member, insert, erase, lookup, remove,
}
use kdi.Chain.{Tablet, search_sequence, replace_fragments_internal}
use kdi.FragDag.{Dag}
use kdi.FragDag

-- The part of a tablet that keeps track of shared logs and of the split that is asked for.
pub record Logs : Type 0 where
  pub cloned_logs : List (ℕ × ℕ)
  pub duplicated_logs : List ℕ
  pub split_pending : Bool

-- The tablets, the fragment graph, and the requests that were sent to the super tablet.
pub record Server : Type 0 where
  pub dag : Dag
  pub logs : List (ℕ × Logs)
  pub split_requests : List ℕ

-- What the tablets ask of their fragments, which of them are part of a super tablet, and
-- `SPLIT_THRESHOLD`.
pub record World : Type 0 where
  pub is_immutable : ℕ → Bool
  pub disk_size : ℕ → ℕ → ℕ
  pub has_super_tablet : ℕ → Bool
  pub split_threshold : ℕ

-- A change of one object.
abbrev pub modify {ℓ} : {V : Type ℓ} → ℕ → (V → V) → List (ℕ × V) → List (ℕ × V)
modify k change [] = []
modify k change ((j, v) ∷ m) =
    let rest = modify k change m in if k == j then (j, change v) ∷ m else (j, v) ∷ rest

abbrev pub set_chain : ℕ → Tablet → Dag → Dag
set_chain t tablet d = record {
  active_tablets = d.active_tablets;
  active_fragments = d.active_fragments;
  active_frag_stats = d.active_frag_stats;
  tablets = modify t (λ old. tablet) d.tablets;
}

abbrev pub with_dag : Dag → Server → Server
with_dag d s = record { dag = d; logs = s.logs; split_requests = s.split_requests }

abbrev pub with_logs : List (ℕ × Logs) → Server → Server
with_logs m s = record { dag = s.dag; logs = m; split_requests = s.split_requests }

abbrev pub insert_duplicate : ℕ → Logs → Logs
insert_duplicate f l = record {
  cloned_logs = l.cloned_logs;
  duplicated_logs = insert f l.duplicated_logs;
  split_pending = l.split_pending;
}

abbrev pub erase_duplicate : ℕ → Logs → Logs
erase_duplicate f l = record {
  cloned_logs = l.cloned_logs;
  duplicated_logs = erase f l.duplicated_logs;
  split_pending = l.split_pending;
}

abbrev pub erase_clone : ℕ → Logs → Logs
erase_clone f l = record {
  cloned_logs = remove f l.cloned_logs;
  duplicated_logs = l.duplicated_logs;
  split_pending = l.split_pending;
}

abbrev pub set_split_pending : Logs → Logs
set_split_pending l = record {
  cloned_logs = l.cloned_logs;
  duplicated_logs = l.duplicated_logs;
  split_pending = true;
}

-- The search from the end of the chain, as far as the fragments are logs: what it finds in the
-- rest, the fragments being given from the front.
pub data Search : Type 0 where
  found : Search
  all_logs : Search
  stopped : Search

module _ (world : World) where
  abbrev pub search_back : ℕ → ℕ → Search → Search
  search_back f g found = found
  search_back f g stopped = stopped
  search_back f g all_logs =
      if world.is_immutable g then stopped else if g == f then found else all_logs

  abbrev pub search_log : ℕ → List ℕ → Search
  search_log f [] = all_logs
  search_log f (g ∷ fragments) = search_back f g (search_log f fragments)

  -- `addFragment`; `none` where the tablet is no object of the store.
  unfoldable pub add_fragment : ℕ → ℕ → Server → Option Server
  add_fragment t f s = elim (lookup t s.dag.tablets) [
    | none ↦ none
    | some tablet ↦
        let appended : Tablet = record {
          fragments = tablet.fragments ++ (f ∷ []);
          references = tablet.references ++ (f ∷ []);
          dead_files = tablet.dead_files;
        } in
        let added = some (with_dag (set_chain t appended s.dag) s) in
        elim (search_log f tablet.fragments) [
          | found ↦ some (with_logs (modify t (insert_duplicate f) s.logs) s)
          | all_logs ↦ added
          | stopped ↦ added
        ]
  ]

-- What a replacement comes to. The last case is that of a model without enough fuel.
pub data Replaced : Type 0 where
  done : Server → Replaced
  raised : Replaced
  out_of_fuel : Replaced

-- The tablet that has cloned a log, and the tablet's set of logs that were added twice.
abbrev pub find_clone : ℕ → ℕ → Server → Option ℕ
find_clone t f s = elim (lookup t s.logs) [ none ↦ none | some l ↦ lookup f l.cloned_logs ]

abbrev pub is_duplicate : ℕ → ℕ → Server → Bool
is_duplicate t f s = elim (lookup t s.logs) [ none ↦ false | some l ↦ member f l.duplicated_logs ]

abbrev pub is_split_pending : ℕ → Server → Bool
is_split_pending t s = elim (lookup t s.logs) [ none ↦ false | some l ↦ l.split_pending ]

module _ (world : World) where
  abbrev pub get_disk_size : ℕ → List ℕ → ℕ
  get_disk_size t [] = 0
  get_disk_size t (f ∷ fragments) = (world.disk_size t f + get_disk_size t fragments) % 2 ^ 64

  abbrev pub is_log_replacement : List ℕ → Bool
  is_log_replacement (f ∷ []) = not (world.is_immutable f)
  is_log_replacement old = false

  abbrev pub chain_of : ℕ → Server → List ℕ
  chain_of t s = elim (lookup t s.dag.tablets) [ none ↦ [] | some tablet ↦ tablet.fragments ]

  -- The end of a replacement: whether to split.
  unfoldable pub check_split : ℕ → Server → Server
  check_split t s =
      if world.has_super_tablet t
        && (not (is_split_pending t s)
            && leb world.split_threshold (get_disk_size t (chain_of t s)))
      then record {
        dag = s.dag;
        logs = modify t set_split_pending s.logs;
        split_requests = s.split_requests ++ (t ∷ []);
      }
      else s

  -- What follows on the replacement of a log and its forwarding: the new fragment joins the graph.
  unfoldable pub finish_log : ℕ → ℕ → Replaced → Replaced
  unfolding check_split
  finish_log t new (done s) =
      done (check_split t (with_dag (kdi.FragDag.add_fragment t new s.dag) s))
  finish_log t new r = r

  -- A log that the tablet does not hold: the second request for a log that was added twice.
  unfoldable pub ignore_duplicate : ℕ → ℕ → Server → Replaced
  ignore_duplicate t f s =
      if is_duplicate t f s
      then done (with_logs (modify t (erase_duplicate f) s.logs) s)
      else raised

  unfoldable pub replace_fragments : ℕ → ℕ → List ℕ → ℕ → Server → Replaced
  unfolding check_split finish_log ignore_duplicate
  replace_fragments zero t old new s = out_of_fuel
  replace_fragments (suc fuel) t [] new s = raised
  replace_fragments (suc fuel) t (f ∷ old) new s = elim (lookup t s.dag.tablets) [
    | none ↦ raised
    | some tablet ↦ elim (replace_fragments_internal tablet (f ∷ old) (some new)) [
      | none ↦ if is_log_replacement (f ∷ old) then ignore_duplicate t f s else raised
      | some changed ↦
          let next = with_dag (set_chain t changed s.dag) s in
          elim (is_log_replacement (f ∷ old)) [
            | false ↦ done (check_split t next)
            | true ↦ elim (find_clone t f next) [
              | none ↦ finish_log t new (done next)
              | some clone ↦ finish_log t new (
                  replace_fragments fuel clone (f ∷ old) new
                    (with_logs (modify t (erase_clone f) next.logs) next))
            ]
          ]
    ]
  ]

-- The number of clones that the tablets know of. Each forwarding takes one away.
abbrev pub count_clones : List (ℕ × Logs) → ℕ
count_clones [] = 0
count_clones ((t, l) ∷ m) = kdi.Common.length l.cloned_logs + count_clones m

-- `replaceFragments`.
unfoldable pub replace : World → ℕ → List ℕ → ℕ → Server → Replaced
unfolding replace_fragments
replace world t old new s = replace_fragments world (suc (count_clones s.logs)) t old new s
