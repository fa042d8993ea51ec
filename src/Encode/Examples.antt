-- ===== src/Encode/Examples.antt =====
-- Encoded strings: tests, and the theorems at concrete inputs.
use kdi.Common.{ℕ, zero, suc, ◌<◌, All, replicate, arith, ◌≡◌, refl, inl, some, none, List, [], ◌∷◌}
use kdi.Interval.Point.{inclusive_upper_bound}
use kdi.Encode.{
  emit, escape_from, emit_loop, zero_escape, zero_unescape, encode_string_sequence,
  decode_string_sequence,
}
use kdi.Encode.Escape.{unescape-escape}
use kdi.Encode.Sequence.{decode-encode}
use kdi.Encode.TabletName.{
  TabletName, make_tablet_name, get_encoded, parse_tablet_name, parse-get_encoded,
}

-- `"\0a\0\0"` becomes `"\0\1a\0\2"`.
escapes_runs : zero_escape (0 ∷ 97 ∷ 0 ∷ 0 ∷ []) ≡ 0 ∷ 1 ∷ 97 ∷ 0 ∷ 2 ∷ []
unfolding zero_escape emit_loop
escapes_runs = refl

-- A test: `"\0\1"` stands after `"\0\0"`, and its escaped form `"\0\1\1"` stands before `"\0\2"`.
escapes_against_the_order :
    (zero_escape (0 ∷ 0 ∷ []) ≡ 0 ∷ 2 ∷ []) × (zero_escape (0 ∷ 1 ∷ []) ≡ 0 ∷ 1 ∷ 1 ∷ [])
unfolding zero_escape emit_loop
escapes_against_the_order = (refl, refl)

lone_zero_is_refused : zero_unescape (97 ∷ 0 ∷ []) ≡ none
unfolding zero_unescape
lone_zero_is_refused = refl

abbrev two_strings : List (List ℕ)
two_strings = (97 ∷ 0 ∷ 0 ∷ []) ∷ [] ∷ []

-- A run of 256 zeros takes two counts.
abbrev many_zeros : List ℕ
many_zeros = replicate 256 0

escapes_a_long_run : zero_escape many_zeros ≡ 0 ∷ 255 ∷ 0 ∷ 1 ∷ []
unfolding zero_escape escape_from emit emit_loop
escapes_a_long_run = refl

many_zeros-AreBytes : All (λ c. c < 256) many_zeros
many_zeros-AreBytes = zeros 256
  where
    zeros : (n : ℕ) → All (λ c. c < 256) (replicate n 0)
    zeros zero = tt
    zeros (suc n) = (omega arith, zeros n)

unescape-escape_example :
    All (λ c. c < 256) (zero_escape many_zeros)
    × (zero_unescape (zero_escape many_zeros) ≡ some many_zeros)
unescape-escape_example = unescape-escape many_zeros many_zeros-AreBytes

decode-encode_example :
    decode_string_sequence (encode_string_sequence two_strings) ≡ some two_strings
decode-encode_example = decode-encode two_strings

-- The tablet of the table `"t"` that ends with the row `"a"`.
abbrev tablet : TabletName
tablet = record {
  table_name = 116 ∷ [];
  last_row = record { value = 97 ∷ []; type = inclusive_upper_bound };
}

makes_a_tablet_name : make_tablet_name tablet.table_name tablet.last_row ≡ some tablet
unfolding make_tablet_name
makes_a_tablet_name = refl

parse-get_encoded_example : parse_tablet_name (get_encoded tablet) ≡ some tablet
parse-get_encoded_example = parse-get_encoded tablet (inl refl)
