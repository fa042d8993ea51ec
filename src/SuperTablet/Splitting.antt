-- ===== src/SuperTablet/Splitting.antt =====
-- `performSplit` keeps the tablets in order, and every row with a tablet:
-- src/cc/kdi/tablet/SuperTablet.cc.
use kdi.Common.{
  ℕ, ◌≡◌, refl, sym, ap, subst, ◌∙◌, Bool, true, false, ◌||◌, some, List, [], ◌∷◌, ◌==◌,
  if◌then◌else◌, All, Bool-cases, Option-cases, inl, inr, arith,
}
use kdi.Interval.Point.{IntervalPoint, is_lower_bound, is_upper_bound, point_lt}
use kdi.Interval.Range.{Interval, set_lower_bound, set_upper_bound, is_empty, contains_value}
use kdi.CellFilter.{string_lt}
use kdi.Tablet.Split.{split_rows}
use kdi.Tablet.Split.Rows.{low_part, high_part, upto, beyond, in_order, split_parts, split_rows_lem}
use kdi.SuperTablet.{Entry, insert_tablet, shrink, rows_of, perform_split}
use kdi.SuperTablet.Routing.{IsEntry, IsOrdered, o}

-- Whether some tablet contains a row.
abbrev pub served : List ℕ → List Entry → Bool
served x [] = false
served x (e ∷ tablets) = contains_value string_lt e.rows x || served x tablets

-- Both parts of a tablet in its place.
abbrev both_parts : ℕ → Entry → Interval (List ℕ) → List Entry → List Entry
both_parts t low high [] = []
both_parts t low high (e ∷ tablets) =
    let rest = both_parts t low high tablets in
    if t == e.tablet then low ∷ record { tablet = t; rows = high } ∷ tablets else e ∷ rest

above-rows_of :
    (u : IntervalPoint (List ℕ)) (t : ℕ) (rows : Interval (List ℕ)) (tablets : List Entry)
    → All (λ f. point_lt string_lt u f.rows.lower_bound ≡ true) tablets
    → rows_of t tablets ≡ some rows
    → point_lt string_lt u rows.lower_bound ≡ true
above-rows_of u t rows [] a e = absurd (ground arith)
above-rows_of u t rows (f ∷ tablets) a e = elim (Bool-cases (t == f.tablet)) [
  | inl s ↦
      let q : some f.rows ≡ some rows = rw s at e in let p : f.rows ≡ rows = cc in rw (← p) a.0
  | inr s ↦ above-rows_of u t rows tablets a.1 (rw s at e)
]

module _ (t clone : ℕ) (rows : Interval (List ℕ)) (row : List ℕ)
    (low : point_lt string_lt (upto row) rows.lower_bound ≡ false)
    (high : point_lt string_lt rows.upper_bound (beyond row) ≡ false) where
  abbrev lower : Interval (List ℕ)
  lower = record { lower_bound = rows.lower_bound; upper_bound = upto row }

  abbrev upper : Interval (List ℕ)
  upper = record { lower_bound = beyond row; upper_bound = rows.upper_bound }

  abbrev low_entry : Entry
  low_entry = record { tablet = clone; rows = lower }

  insert_tablet-shrink :
      (tablets : List Entry)
      → IsOrdered tablets
      → rows_of t tablets ≡ some rows
      → insert_tablet low_entry (shrink t upper tablets) ≡ both_parts t low_entry upper tablets
  unfolding insert_tablet shrink
  insert_tablet-shrink [] h e = absurd (ground arith)
  insert_tablet-shrink (f ∷ tablets) h e =
      let between = in_order row in
      elim (Bool-cases (t == f.tablet)) [
        | inl s ↦
            let q : some f.rows ≡ some rows = rw s at e in
            let stop : point_lt string_lt rows.upper_bound (upto row) ≡ false = ground (
              arith,
              o.cotrans rows.upper_bound (beyond row) (upto row),
              o.asym (upto row) (beyond row),
            ) in
            rw (s, stop) refl
        | inr s ↦
            let under = above-rows_of f.rows.upper_bound t rows tablets h.1 (rw s at e) in
            let go : point_lt string_lt f.rows.upper_bound (upto row) ≡ true =
              ground (arith, o.cotrans f.rows.upper_bound (upto row) rows.lower_bound) in
            rw (s, go) (ap (◌∷◌ f) (insert_tablet-shrink tablets h.2 (rw s at e)))
      ]

  above-both_parts :
      (u : IntervalPoint (List ℕ)) (tablets : List Entry)
      → All (λ f. point_lt string_lt u f.rows.lower_bound ≡ true) tablets
      → rows_of t tablets ≡ some rows
      → All
          (λ f. point_lt string_lt u f.rows.lower_bound ≡ true)
          (both_parts t low_entry upper tablets)
  above-both_parts u [] a e = tt
  above-both_parts u (f ∷ tablets) a e = elim (Bool-cases (t == f.tablet)) [
    | inl s ↦
        let under = above-rows_of u t rows (f ∷ tablets) a e in
        let between = in_order row in
        rw s (
          under,
          (
            ground (
              arith,
              o.cotrans u (upto row) rows.lower_bound,
              o.cotrans u (beyond row) (upto row),
              o.asym (upto row) (beyond row),
            ),
            a.1,
          ),
        )
    | inr s ↦ rw s (a.0, above-both_parts u tablets a.1 (rw s at e))
  ]

  above_end :
      (u : IntervalPoint (List ℕ)) (tablets : List Entry)
      → point_lt string_lt u (beyond row) ≡ false
      → All (λ f. point_lt string_lt u f.rows.lower_bound ≡ true) tablets
      → All (λ f. point_lt string_lt (upto row) f.rows.lower_bound ≡ true) tablets
  above_end u [] b a = tt
  above_end u (f ∷ tablets) b a =
      let between = in_order row in
      let head = a.0 in
      (
        ground (
          arith,
          o.cotrans (upto row) f.rows.lower_bound (beyond row),
          o.cotrans u (beyond row) f.rows.lower_bound,
          o.asym f.rows.lower_bound (beyond row),
        ),
        above_end u tablets b a.1,
      )

  IsOrdered-both_parts :
      (tablets : List Entry)
      → IsOrdered tablets
      → rows_of t tablets ≡ some rows
      → IsOrdered (both_parts t low_entry upper tablets)
  unfolding is_upper_bound is_lower_bound
  IsOrdered-both_parts [] h e = tt
  IsOrdered-both_parts (f ∷ tablets) h e = elim (Bool-cases (t == f.tablet)) [
    | inl s ↦
        let q : some f.rows ≡ some rows = rw s at e in
        let p : f.rows ≡ rows = cc in
        let entry : IsEntry (record { tablet = t; rows = rows }) = rw (← p) h.0 in
        let after : All (λ g. point_lt string_lt rows.upper_bound g.rows.lower_bound ≡ true)
            tablets =
          rw (← p) h.1 in
        rw s (
          (entry.0, refl, low),
          (in_order row, above_end rows.upper_bound tablets high after),
          ((refl, entry.1, high), after, h.2),
        )
    | inr s ↦ rw s (
      h.0,
      above-both_parts f.rows.upper_bound tablets h.1 (rw s at e),
      IsOrdered-both_parts tablets h.2 (rw s at e),
    )
  ]

  served-both_parts :
      (x : List ℕ) (tablets : List Entry)
      → contains_value string_lt rows x
        ≡ (contains_value string_lt lower x || contains_value string_lt upper x)
      → rows_of t tablets ≡ some rows
      → served x (both_parts t low_entry upper tablets) ≡ served x tablets
  served-both_parts x [] c e = refl
  served-both_parts x (f ∷ tablets) c e = elim (Bool-cases (t == f.tablet)) [
    | inl s ↦
        let q : some f.rows ≡ some rows = rw s at e in
        let p : f.rows ≡ rows = cc in
        let whole : contains_value string_lt f.rows x
            ≡ (contains_value string_lt lower x || contains_value string_lt upper x) =
          ap (λ i. contains_value string_lt i x) p ∙ c in
        rw (s, whole) ground arith
    | inr s ↦ rw s (
        ap (λ b. contains_value string_lt f.rows x || b)
          (served-both_parts x tablets c (rw s at e)))
  ]

-- What holds of the tablets after a split into two parts.
abbrev Kept : ℕ → ℕ → List Entry → Interval (List ℕ) × Interval (List ℕ) → Type 0
Kept t clone tablets parts =
    IsOrdered (insert_tablet (record { tablet = clone; rows = parts.0 }) (shrink t parts.1 tablets))
    × ((x : List ℕ)
        → served x
            (insert_tablet (record { tablet = clone; rows = parts.0 }) (shrink t parts.1 tablets))
          ≡ served x tablets)

split_Kept :
    (t clone : ℕ) (row : List ℕ) (rows : Interval (List ℕ)) (tablets : List Entry)
    → IsOrdered tablets
    → rows_of t tablets ≡ some rows
    → is_empty string_lt (low_part rows row) ≡ false
    → is_empty string_lt (high_part rows row) ≡ false
    → ((x : List ℕ)
        → contains_value string_lt rows x ≡ (
            contains_value string_lt (low_part rows row) x
            || contains_value string_lt (high_part rows row) x))
    → Kept t clone tablets (low_part rows row, high_part rows row)
unfolding is_empty set_lower_bound set_upper_bound
split_Kept t clone row rows tablets h e low high parts =
    let both = insert_tablet-shrink t clone rows row low high tablets h e in
    (
      subst IsOrdered (sym both) (IsOrdered-both_parts t clone rows row low high tablets h e),
      λ x. ap (served x) both ∙ served-both_parts t clone rows row low high x tablets (parts x) e,
    )

-- Splitting a tablet at any row, whether or not it can be split there, leaves the tablets in order,
-- none of them without rows, and exactly those rows have a tablet that had one before.
pub perform_split_lem :
    (t clone : ℕ) (row : List ℕ) (tablets : List Entry)
    → IsOrdered tablets
    → IsOrdered (perform_split t clone row tablets)
      × ((x : List ℕ) → served x (perform_split t clone row tablets) ≡ served x tablets)
unfolding perform_split
perform_split_lem t clone row tablets h = elim (Option-cases (rows_of t tablets)) [
  | inl e ↦ rw (e, perform_split) (h, λ x. refl)
  | inr (rows, e) ↦ elim (Option-cases (split_rows rows row)) [
    | inl n ↦ rw (e, n, perform_split) (h, λ x. refl)
    | inr (parts, n) ↦
        let (low, high, same) = split_parts rows row parts n in
        let whole =
          (split_rows_lem rows row (low_part rows row, high_part rows row)
            (n ∙ ap some (sym same))).0 in
        rw (e, n, perform_split)
          (subst (Kept t clone tablets) same
            (split_Kept t clone row rows tablets h e low high whole))
  ]
]
