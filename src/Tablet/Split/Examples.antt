-- ===== src/Tablet/Split/Examples.antt =====
-- The split of a small tablet: tests, and the theorems at concrete inputs.
use kdi.Common.{ℕ, ◌≡◌, refl, true, false, not, ◌||◌, some, none, List, [], ◌∷◌, ◌==◌}
use kdi.Interval.Point.{
  infinite_lower_bound, infinite_upper_bound, inclusive_upper_bound, exclusive_lower_bound,
  point_lt,
}
use kdi.Interval.Range.{Interval, bound_point, set_lower_bound, set_upper_bound, is_empty}
use kdi.CellFilter.{string_lt}
use kdi.Merge.{merge, read_all, get, top, advance}
use kdi.Chain.{Tablet}
use kdi.FragDag
use kdi.Tablet.Logs.{Logs, Server, World}
use kdi.Tablet.Split.{
  pair_lt, choose_from, choose_split_row, split_rows, clone_tablet, split_tablet,
}
use kdi.Tablet.Split.Rows.{AreParts, split_rows_lem}
use kdi.Tablet.Split.Clones.{IsCloned, clone_tablet_lem}

chooses_the_middle_row :
    choose_split_row 10 (((1 ∷ [], 3) ∷ (5 ∷ [], 2) ∷ []) ∷ ((2 ∷ [], 2) ∷ (7 ∷ [], 3) ∷ []) ∷ [])
    ≡ 2 ∷ []
unfolding choose_split_row choose_from merge read_all get top advance pair_lt string_lt
chooses_the_middle_row = refl

abbrev all_rows : Interval (List ℕ)
all_rows = record {
  lower_bound = bound_point [] infinite_lower_bound;
  upper_bound = bound_point [] infinite_upper_bound;
}

abbrev low_rows : Interval (List ℕ)
low_rows = record {
  lower_bound = bound_point [] infinite_lower_bound;
  upper_bound = bound_point (2 ∷ []) inclusive_upper_bound;
}

abbrev high_rows : Interval (List ℕ)
high_rows = record {
  lower_bound = bound_point (2 ∷ []) exclusive_lower_bound;
  upper_bound = bound_point [] infinite_upper_bound;
}

splits_the_rows : split_rows all_rows (2 ∷ []) ≡ some (low_rows, high_rows)
unfolding split_rows set_lower_bound set_upper_bound is_empty point_lt
splits_the_rows = refl

-- The last row of the low part is no split point of it.
splits_no_last_row : split_rows low_rows (2 ∷ []) ≡ none
unfolding split_rows set_lower_bound set_upper_bound is_empty point_lt string_lt
splits_no_last_row = refl

split_rows_lem_example : AreParts all_rows (low_rows, high_rows)
split_rows_lem_example = split_rows_lem all_rows (2 ∷ []) (low_rows, high_rows) splits_the_rows

-- Fragment 12 is a log that is shared with an older clone, 13 is a newer log.
abbrev world : World
world = record {
  is_immutable = λ f. not ((f == 12) || (f == 13));
  disk_size = λ t f. 1;
  has_super_tablet = λ t. true;
  split_threshold = 2;
}

abbrev tablet : Tablet
tablet = record { fragments = 10 ∷ 12 ∷ 13 ∷ []; references = []; dead_files = [] }

abbrev logs : Logs
logs = record { cloned_logs = (12, 7) ∷ []; duplicated_logs = []; split_pending = true }

abbrev server : Server
server = record {
  dag = record {
    active_tablets = [];
    active_fragments = [];
    active_frag_stats = [];
    tablets = (1, tablet) ∷ [];
  };
  logs = (1, logs) ∷ [];
  split_requests = [];
}

shares_the_logs :
    split_tablet world 1 2 all_rows (2 ∷ []) server
    ≡ some (
      some (low_rows, high_rows),
      record {
        dag = record {
          active_tablets = (10, 2 ∷ []) ∷ [];
          active_fragments = (2, 10 ∷ []) ∷ [];
          active_frag_stats = [];
          tablets =
              (
                2,
                record {
                  fragments = 10 ∷ 12 ∷ 13 ∷ [];
                  references = 10 ∷ 12 ∷ 13 ∷ [];
                  dead_files = [];
                },
              )
              ∷ (1, tablet)
              ∷ [];
        };
        logs =
            (2, record { cloned_logs = (12, 7) ∷ []; duplicated_logs = []; split_pending = false })
            ∷ (
              1,
              record {
                cloned_logs = (12, 2) ∷ (13, 2) ∷ [];
                duplicated_logs = [];
                split_pending = false;
              },
            )
            ∷ [];
        split_requests = [];
      },
    )
unfolding split_tablet split_rows set_lower_bound set_upper_bound is_empty point_lt clone_tablet
    FragDag.add_fragment
shares_the_logs = refl

clone_tablet_lem_example :
    (after : Server) × (clone_tablet world 1 2 server ≡ some after)
    × IsCloned world 1 2 tablet server after
clone_tablet_lem_example =
    clone_tablet_lem world 1 2 server tablet logs refl refl refl
      ((λ i. absurd cc), ((λ i. (refl, tt)), ((λ i. tt), tt)))
