-- ===== src/SuperTablet/Routing.antt =====
-- `getTablet` finds the tablet whose rows contain a row: src/cc/kdi/tablet/SuperTablet.cc.
use kdi.Common.{
  ℕ, ◌≡◌, refl, sym, ◌∙◌, true, false, ◌&&◌, Option, none, some, List, [], ◌∷◌, if◌then◌else◌, All,
  Bool-cases, inl, inr, arith,
}
use kdi.Interval.Point.{IntervalPoint, point, point_lt, point_lt_value, value_lt_point}
use kdi.Interval.Order.{IsStrictWeak, point_lt-IsStrictWeak}
use kdi.Interval.Range.{Interval, bound_point, contains_value}
use kdi.Interval.Set.Inv.{IsBound, value_splits, contains_value_lem}
use kdi.CellFilter.{string_lt}
use kdi.CellFilter.Predicate.{string_lt-IsStrictWeak}
use kdi.SuperTablet.{Entry, get_tablet}

-- The bounds of an entry's rows, which are not empty, and the order of the entries.
abbrev pub IsEntry : Entry → Type 0
IsEntry e =
    IsBound string_lt false e.rows.lower_bound
    × IsBound string_lt true e.rows.upper_bound
    × (point_lt string_lt e.rows.upper_bound e.rows.lower_bound ≡ false)

abbrev pub IsOrdered : List Entry → Type 0
IsOrdered [] = Unit
IsOrdered (e ∷ tablets) =
    IsEntry e
    × All (λ f. point_lt string_lt e.rows.upper_bound f.rows.lower_bound ≡ true) tablets
    × IsOrdered tablets

-- The reference: the first tablet whose rows contain a row.
abbrev pub covering : List ℕ → List Entry → Option ℕ
covering row [] = none
covering row (e ∷ tablets) =
    if contains_value string_lt e.rows row then some e.tablet else covering row tablets

pub o : IsStrictWeak (point_lt string_lt)
o = point_lt-IsStrictWeak string_lt string_lt-IsStrictWeak

abbrev pub at_row : List ℕ → IntervalPoint (List ℕ)
at_row x = bound_point x point

get_tablet_step :
    (row : List ℕ) (e : Entry) (tablets : List Entry)
    → get_tablet row (e ∷ tablets) ≡ (
        if point_lt string_lt e.rows.upper_bound (at_row row)
        then get_tablet row tablets
        else if point_lt string_lt (at_row row) e.rows.lower_bound
        then none
        else some e.tablet)
unfolding get_tablet point_lt_value value_lt_point point_lt
get_tablet_step row e tablets = refl

pub contains_lem :
    (i : Interval (List ℕ)) (row : List ℕ)
    → contains_value string_lt i row ≡ (
        point_lt string_lt i.lower_bound (at_row row)
        && point_lt string_lt (at_row row) i.upper_bound)
contains_lem i row = contains_value_lem string_lt-IsStrictWeak i row

-- No tablet has a row that is below all its rows.
covering-none :
    (row : List ℕ) (u : IntervalPoint (List ℕ)) (tablets : List Entry)
    → point_lt string_lt u (at_row row) ≡ false
    → All (λ f. point_lt string_lt u f.rows.lower_bound ≡ true) tablets
    → covering row tablets ≡ none
covering-none row u [] b a = refl
covering-none row u (f ∷ tablets) b a =
    let below = a.0 in
    let outside : contains_value string_lt f.rows row ≡ false =
      contains_lem f.rows row
      ∙ ground (
        arith,
        o.cotrans u (at_row row) f.rows.lower_bound,
        o.asym f.rows.lower_bound (at_row row),
      ) in
    rw outside (covering-none row u tablets b a.1)

-- On tablets in order, none without rows, the search by last rows finds the first tablet whose rows
-- contain the row, and raises an error exactly when there is none.
pub get_tablet_lem :
    (row : List ℕ) (tablets : List Entry)
    → IsOrdered tablets
    → get_tablet row tablets ≡ covering row tablets
get_tablet_lem row [] h = unfold get_tablet in refl
get_tablet_lem row (e ∷ tablets) h =
    let ih = get_tablet_lem row tablets h.2 in
    let upper = value_splits string_lt-IsStrictWeak true e.rows.upper_bound row h.0.1 in
    let lower = value_splits string_lt-IsStrictWeak false e.rows.lower_bound row h.0.0 in
    get_tablet_step row e tablets
    ∙ elim (Bool-cases (point_lt string_lt e.rows.upper_bound (at_row row))) [
      | inl b ↦
          let outside : contains_value string_lt e.rows row ≡ false =
            contains_lem e.rows row ∙ ground arith in
          rw (b, outside) ih
      | inr b ↦ elim (Bool-cases (point_lt string_lt (at_row row) e.rows.lower_bound)) [
        | inl c ↦
            let outside : contains_value string_lt e.rows row ≡ false =
              contains_lem e.rows row ∙ ground arith in
            rw (b, c, outside) (sym (covering-none row e.rows.upper_bound tablets b h.1))
        | inr c ↦
            let inside : contains_value string_lt e.rows row ≡ true =
              contains_lem e.rows row ∙ ground arith in
            rw (b, c, inside) refl
      ]
    ]
