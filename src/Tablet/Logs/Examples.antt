-- ===== src/Tablet/Logs/Examples.antt =====
-- A log that two tablets share: tests, and the theorems at concrete inputs.
use kdi.Common.{
  ℕ, ◌≡◌, ◌⊎◌, refl, true, false, not, ◌||◌, some, List, [], ◌∷◌, ◌==◌, member, Distinct,
}
use kdi.Chain.{Tablet, replace_fragments_internal, search_sequence, starts_with}
use kdi.FragDag
use kdi.Tablet.Logs.{
  Server, World, done, raised, add_fragment, is_duplicate, chain_of, check_split, finish_log,
  ignore_duplicate, replace_fragments, replace,
}
use kdi.Tablet.Logs.Forward.{replace_ends}
use kdi.Tablet.Logs.Append.{LogsLast, add_fragment_lem}
use kdi.Tablet.Logs.Shared.{IsShared}
use kdi.Tablet.Logs.Orders.{BothReplaced, replace_orders}

-- Fragments 12 and 13 are logs, and two megabytes of a tablet are enough to split it.
abbrev world : World
world = record {
  is_immutable = λ f. not ((f == 12) || (f == 13));
  disk_size = λ t f. 1;
  has_super_tablet = λ t. t == 1;
  split_threshold = 2;
}

abbrev chain : List ℕ → Tablet
chain fragments = record { fragments = fragments; references = []; dead_files = [] }

abbrev dag : FragDag.Dag
dag = record {
  active_tablets = [];
  active_fragments = [];
  active_frag_stats = [];
  tablets = (1, chain (10 ∷ 12 ∷ [])) ∷ (2, chain (10 ∷ 12 ∷ [])) ∷ [];
}

-- Tablet 2 was split off tablet 1.
abbrev split_server : Server
split_server = record {
  dag = dag;
  logs =
      (1, record { cloned_logs = (12, 2) ∷ []; duplicated_logs = []; split_pending = false })
      ∷ (2, record { cloned_logs = []; duplicated_logs = []; split_pending = false })
      ∷ [];
  split_requests = [];
}

-- The log is added to tablet 2 again.
abbrev server : Server
server = record {
  dag = dag;
  logs =
      (1, record { cloned_logs = (12, 2) ∷ []; duplicated_logs = []; split_pending = false })
      ∷ (2, record { cloned_logs = []; duplicated_logs = 12 ∷ []; split_pending = false })
      ∷ [];
  split_requests = [];
}

notes_the_duplicate : add_fragment world 2 12 split_server ≡ some server
unfolding add_fragment
notes_the_duplicate = refl

-- The replacement is forwarded to tablet 2, and tablet 1 asks to be split.
abbrev replaced : Server
replaced = record {
  dag = record {
    active_tablets = (20, 1 ∷ 2 ∷ []) ∷ [];
    active_fragments = (1, 20 ∷ []) ∷ (2, 20 ∷ []) ∷ [];
    active_frag_stats = [];
    tablets =
        (1, record { fragments = 10 ∷ 20 ∷ []; references = 20 ∷ []; dead_files = 12 ∷ [] })
        ∷ (2, record { fragments = 10 ∷ 20 ∷ []; references = 20 ∷ []; dead_files = 12 ∷ [] })
        ∷ [];
  };
  logs =
      (1, record { cloned_logs = []; duplicated_logs = []; split_pending = true })
      ∷ (2, record { cloned_logs = []; duplicated_logs = 12 ∷ []; split_pending = false })
      ∷ [];
  split_requests = 1 ∷ [];
}

forwards_to_the_clone : replace world 1 (12 ∷ []) 20 server ≡ done replaced
unfolding replace replace_fragments check_split finish_log ignore_duplicate
    replace_fragments_internal search_sequence starts_with FragDag.add_fragment
forwards_to_the_clone = refl

refuses_an_unknown_log : replace world 1 (13 ∷ []) 20 server ≡ raised
unfolding replace replace_fragments ignore_duplicate replace_fragments_internal search_sequence
    starts_with
refuses_an_unknown_log = refl

replace_ends_example :
    ((after : Server) × (replace world 1 (12 ∷ []) 20 server ≡ done after))
    ⊎ (replace world 1 (12 ∷ []) 20 server ≡ raised)
replace_ends_example = replace_ends world 1 (12 ∷ []) 20 server

add_fragment_lem_example :
    (after : Server) × (add_fragment world 2 12 split_server ≡ some after)
    × LogsLast world (chain_of world 2 after)
    × Distinct (chain_of world 2 after)
    × ((g : ℕ) → member g (chain_of world 2 after) ≡ (member g (10 ∷ 12 ∷ []) || (g == 12)))
    × (is_duplicate 2 12 after ≡ (member 12 (10 ∷ 12 ∷ []) || is_duplicate 2 12 split_server))
add_fragment_lem_example =
    add_fragment_lem world 2 12 split_server (chain (10 ∷ 12 ∷ []))
      (record { cloned_logs = []; duplicated_logs = []; split_pending = false }) refl refl refl
      ((λ i. absurd cc), ((λ i. tt), tt)) (refl, (refl, tt))

server-IsShared : IsShared world 1 2 12 20 server
unfolding replace_fragments_internal search_sequence starts_with
server-IsShared = record {
  log = refl;
  other = refl;
  high_chain = chain (10 ∷ 12 ∷ []);
  low_chain = chain (10 ∷ 12 ∷ []);
  high_after = record { fragments = 10 ∷ 20 ∷ []; references = 20 ∷ []; dead_files = 12 ∷ [] };
  low_after = record { fragments = 10 ∷ 20 ∷ []; references = 20 ∷ []; dead_files = 12 ∷ [] };
  high_has = refl;
  low_has = refl;
  high_replaced = refl;
  low_replaced = refl;
  once = refl;
  cloned = refl;
  last_clone = refl;
  duplicate = refl;
}

replace_orders_example :
    BothReplaced world 1 2 12 20 1 2 server-IsShared.high_after server-IsShared.low_after server
    × BothReplaced world 1 2 12 20 2 1 server-IsShared.high_after server-IsShared.low_after server
replace_orders_example = replace_orders world 1 2 12 20 server server-IsShared
