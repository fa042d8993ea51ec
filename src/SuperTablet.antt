-- ===== src/SuperTablet.antt =====
-- The tablets of a table on one server, src/cc/kdi/tablet/SuperTablet.cc: which of them has a row,
-- and the split of one of them.
pub mod Routing
pub mod Splitting
pub mod Interlock
mod Examples
use kdi.Common.{ℕ, Bool, true, false, ◌||◌, Option, none, some, List, [], ◌∷◌, ◌==◌, if◌then◌else◌}
use kdi.Interval.Point.{point_lt, point_lt_value, value_lt_point}
use kdi.Interval.Range.{Interval}
use kdi.CellFilter.{string_lt}
use kdi.Tablet.Split.{split_rows}

-- A tablet and its rows; the vector is in the order of the last rows.
pub record Entry : Type 0 where
  pub tablet : ℕ
  pub rows : Interval (List ℕ)

-- `getTabletInternal`: the lower bound of the row in the vector, if its rows reach down to the row;
-- `none` is the raised `ValueError`.
unfoldable pub get_tablet : List ℕ → List Entry → Option ℕ
get_tablet row [] = none
get_tablet row (e ∷ tablets) =
    let later = get_tablet row tablets in
    if point_lt_value string_lt e.rows.upper_bound row
    then later
    else if value_lt_point string_lt row e.rows.lower_bound
    then none
    else some e.tablet

-- The insertion at the lower bound of the last row.
unfoldable pub insert_tablet : Entry → List Entry → List Entry
insert_tablet low [] = low ∷ []
insert_tablet low (e ∷ tablets) =
    let later = insert_tablet low tablets in
    if point_lt string_lt e.rows.upper_bound low.rows.upper_bound
    then e ∷ later
    else low ∷ e ∷ tablets

-- The rows of a tablet after it has been shrunk by `splitTablet`.
unfoldable pub shrink : ℕ → Interval (List ℕ) → List Entry → List Entry
shrink t rows [] = []
shrink t rows (e ∷ tablets) =
    let later = shrink t rows tablets in
    if t == e.tablet then record { tablet = t; rows = rows } ∷ tablets else e ∷ later

-- The rows of a tablet of the vector.
abbrev pub rows_of : ℕ → List Entry → Option (Interval (List ℕ))
rows_of t [] = none
rows_of t (e ∷ tablets) = if t == e.tablet then some e.rows else rows_of t tablets

-- `performSplit` at a row, the low part being the tablet `clone`.
unfoldable pub perform_split : ℕ → ℕ → List ℕ → List Entry → List Entry
unfolding insert_tablet shrink
perform_split t clone row tablets = elim (rows_of t tablets) [
  | none ↦ tablets
  | some rows ↦ elim (split_rows rows row) [
    | none ↦ tablets
    | some parts ↦
        insert_tablet (record { tablet = clone; rows = parts.0 }) (shrink t parts.1 tablets)
  ]
]
