-- ===== src/Encode/TabletName.antt =====
-- The names of tablets: `TabletName` of src/cc/kdi/tablet/TabletName.cc and TabletName.h, whose last row is an
-- endpoint of rows, over lists of bytes.
use kdi.Common.{
  ℕ, zero, suc, ◌≡◌, subst, sym, ap, ◌⊎◌, inl, inr, Option, none, some, ◌>>=◌, List, [], ◌∷◌,
  if◌then◌else◌,
}
use kdi.Interval.Point.{
  PointType, infinite_upper_bound, inclusive_upper_bound, IntervalPoint, is_finite, is_infinite,
}
use kdi.Encode.{encode_string_sequence, decode_tuple}
use kdi.Encode.Sequence.{decode_tuple-encode}

pub record TabletName : Type 0 where
  pub table_name : List ℕ
  pub last_row : IntervalPoint (List ℕ)

-- The constructor from a table name and a last row; `none` is a raised `ValueError`.
unfoldable pub make_tablet_name : List ℕ → IntervalPoint (List ℕ) → Option TabletName
make_tablet_name [] row = none
make_tablet_name (c ∷ s) row = elim row.type [
  | infinite_upper_bound ↦ some (record { table_name = c ∷ s; last_row = row })
  | inclusive_upper_bound ↦ some (record { table_name = c ∷ s; last_row = row })
  | _ ↦ none
]

unfoldable pub get_encoded : TabletName → List ℕ
unfolding is_finite is_infinite
get_encoded n =
    if is_finite n.last_row.type
    then encode_string_sequence (n.table_name ∷ (1 ∷ []) ∷ n.last_row.value ∷ [])
    else encode_string_sequence (n.table_name ∷ (2 ∷ []) ∷ [] ∷ [])

-- The last row that the separator `"\x01"` or `"\x02"` announces.
unfoldable pub last_row_of : List ℕ → List ℕ → Option (IntervalPoint (List ℕ))
last_row_of (suc zero ∷ []) last = some (record { value = last; type = inclusive_upper_bound })
last_row_of (suc (suc zero) ∷ []) last = some (record { value = []; type = infinite_upper_bound })
last_row_of sep last = none

with_last_row : List (List ℕ) → Option TabletName
unfolding last_row_of
with_last_row (name ∷ sep ∷ last ∷ []) = do
  row ← last_row_of sep last
  some (record { table_name = name; last_row = row })
with_last_row _ = none

-- The constructor from an encoded name.
unfoldable pub parse_tablet_name : List ℕ → Option TabletName
unfolding with_last_row
parse_tablet_name s = do parts ← decode_tuple 3 s; with_last_row parts

-- A name that the constructor admits, its last row as the constructor of an infinite endpoint
-- leaves it, without a value.
abbrev pub IsName : TabletName → Type 0
IsName n =
    (n.last_row.type ≡ inclusive_upper_bound)
    ⊎ ((n.last_row.type ≡ infinite_upper_bound) × (n.last_row.value ≡ []))

abbrev Parses : TabletName → Type 0
Parses n = parse_tablet_name (get_encoded n) ≡ some n

named : List ℕ → List ℕ → PointType → TabletName
named name v t = record { table_name = name; last_row = record { value = v; type = t } }

parse-inclusive :
    (name v : List ℕ)
    → parse_tablet_name (get_encoded (named name v inclusive_upper_bound))
      ≡ some (named name v inclusive_upper_bound)
unfolding parse_tablet_name get_encoded named
parse-inclusive name v =
    ap (λ o. o >>= with_last_row) (decode_tuple-encode 3 (name ∷ (1 ∷ []) ∷ v ∷ []))

parse-infinite :
    (name : List ℕ)
    → parse_tablet_name (get_encoded (named name [] infinite_upper_bound))
      ≡ some (named name [] infinite_upper_bound)
unfolding parse_tablet_name get_encoded named
parse-infinite name =
    ap (λ o. o >>= with_last_row) (decode_tuple-encode 3 (name ∷ (2 ∷ []) ∷ [] ∷ []))

-- Parsing the encoding of a name gives the name back, if its last row is an inclusive upper bound
-- or the infinite one, without a value.
pub parse-get_encoded : (n : TabletName) → IsName n → parse_tablet_name (get_encoded n) ≡ some n
unfolding named
parse-get_encoded n (inl e) =
    subst (λ t. Parses (named n.table_name n.last_row.value t)) (sym e)
      (parse-inclusive n.table_name n.last_row.value)
parse-get_encoded n (inr (e, v)) =
    subst (λ t. Parses (named n.table_name n.last_row.value t)) (sym e)
      (subst (λ w. Parses (named n.table_name w infinite_upper_bound)) (sym v)
        (parse-infinite n.table_name))
