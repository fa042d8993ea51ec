-- ===== src/SuperTablet/Examples.antt =====
-- A table of two tablets: tests, and the theorems at concrete inputs.
use kdi.Common.{ℕ, ◌≡◌, refl, some, List, [], ◌∷◌}
use kdi.Interval.Point.{
  infinite_lower_bound, infinite_upper_bound, inclusive_upper_bound, exclusive_lower_bound,
  is_lower_bound, is_upper_bound, point_lt, point_lt_value, value_lt_point,
}
use kdi.Interval.Range.{bound_point, set_lower_bound, set_upper_bound, is_empty}
use kdi.CellFilter.{string_lt}
use kdi.Tablet.Split.{split_rows}
use kdi.SuperTablet.{Entry, get_tablet, insert_tablet, shrink, perform_split}
use kdi.SuperTablet.Routing.{IsOrdered, covering, get_tablet_lem}
use kdi.SuperTablet.Splitting.{served, perform_split_lem}

abbrev tablets : List Entry
tablets =
    record {
      tablet = 1;
      rows = record {
        lower_bound = bound_point [] infinite_lower_bound;
        upper_bound = bound_point (5 ∷ []) inclusive_upper_bound;
      };
    }
    ∷ record {
      tablet = 2;
      rows = record {
        lower_bound = bound_point (5 ∷ []) exclusive_lower_bound;
        upper_bound = bound_point [] infinite_upper_bound;
      };
    }
    ∷ []

finds_both_tablets :
    (get_tablet (5 ∷ []) tablets ≡ some 1) × (get_tablet (5 ∷ 0 ∷ []) tablets ≡ some 2)
unfolding get_tablet point_lt_value value_lt_point string_lt
finds_both_tablets = (refl, refl)

splits_the_second_tablet :
    perform_split 2 3 (8 ∷ []) tablets
    ≡ record {
      tablet = 1;
      rows = record {
        lower_bound = bound_point [] infinite_lower_bound;
        upper_bound = bound_point (5 ∷ []) inclusive_upper_bound;
      };
    }
      ∷ record {
        tablet = 3;
        rows = record {
          lower_bound = bound_point (5 ∷ []) exclusive_lower_bound;
          upper_bound = bound_point (8 ∷ []) inclusive_upper_bound;
        };
      }
      ∷ record {
        tablet = 2;
        rows = record {
          lower_bound = bound_point (8 ∷ []) exclusive_lower_bound;
          upper_bound = bound_point [] infinite_upper_bound;
        };
      }
      ∷ []
unfolding perform_split split_rows set_lower_bound set_upper_bound is_empty insert_tablet shrink
    point_lt string_lt
splits_the_second_tablet = refl

tablets-IsOrdered : IsOrdered tablets
unfolding is_lower_bound is_upper_bound point_lt string_lt
tablets-IsOrdered = ((refl, refl, refl), (refl, tt), ((refl, refl, refl), tt, tt))

get_tablet_lem_example : get_tablet (7 ∷ []) tablets ≡ covering (7 ∷ []) tablets
get_tablet_lem_example = get_tablet_lem (7 ∷ []) tablets tablets-IsOrdered

perform_split_lem_example :
    IsOrdered (perform_split 2 3 (8 ∷ []) tablets)
    × ((x : List ℕ) → served x (perform_split 2 3 (8 ∷ []) tablets) ≡ served x tablets)
perform_split_lem_example = perform_split_lem 2 3 (8 ∷ []) tablets tablets-IsOrdered
