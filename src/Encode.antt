-- ===== src/Encode.antt =====
-- The order-keeping string encodings of src/cc/warp: zero_escape.h, zero_escape.cc and
-- tuple_encode.h, over lists of bytes, which are numbers below 256. `none` is a raised `ValueError`.
pub mod Escape
pub mod Sequence
pub mod TabletName
mod Examples
use mathlib.Core.Option
use kdi.Common.{
  ℕ, zero, suc, ◌%◌, ◌-◌, ◌+◌, Bool, true, false, Option, none, some, ◌>>=◌, List, [], ◌∷◌, ◌++◌,
  ltb, replicate, if◌then◌else◌, length,
}

-- `while(n > 255) { out << '\0' << '\xff'; n -= 255; } out << '\0' << char(n);`, where `char` keeps
-- the number modulo 256.
-- Each round takes 255 off `n`, so a fuel of `n` is enough.
pub emit_loop : ℕ → ℕ → List ℕ
emit_loop zero n = 0 ∷ n % 256 ∷ []
emit_loop (suc fuel) n =
    let rest = emit_loop fuel (n - 255) in if ltb 255 n then 0 ∷ 255 ∷ rest else 0 ∷ n % 256 ∷ []

-- What is written for a run of `n` zeros; for no zeros the loop body is not reached.
unfoldable pub emit : ℕ → List ℕ
emit zero = []
emit (suc n) = emit_loop (suc n) (suc n)

-- `operator<<` for `ZeroEscape`: the scan, with the number of zeros in the run at hand.
unfoldable pub escape_from : ℕ → List ℕ → List ℕ
unfolding emit
escape_from n [] = emit n
escape_from n (zero ∷ s) = escape_from (suc n) s
escape_from n (suc c ∷ s) = emit n ++ (suc c ∷ escape_from 0 s)

unfoldable pub zero_escape : List ℕ → List ℕ
unfolding escape_from
zero_escape s = escape_from 0 s

-- `operator<<` for `ZeroUnescape`. The `char` counter wraps at 256, so a count byte `n` writes `n`
-- zeros.
unfoldable pub zero_unescape : List ℕ → Option (List ℕ)
zero_unescape [] = some []
zero_unescape (zero ∷ []) = none
zero_unescape (zero ∷ n ∷ s) = Option.map (λ t. replicate n 0 ++ t) (zero_unescape s)
zero_unescape (suc c ∷ s) = Option.map (λ t. suc c ∷ t) (zero_unescape s)

unfoldable pub encode_string_sequence : List (List ℕ) → List ℕ
encode_string_sequence [] = []
encode_string_sequence (s ∷ ss) = zero_escape s ++ (0 ∷ 0 ∷ encode_string_sequence ss)

-- `std::search_n` for two zeros: what stands before the first pair and after it.
unfoldable pub search_two_zeros : List ℕ → Option (List ℕ × List ℕ)
search_two_zeros [] = none
search_two_zeros (zero ∷ zero ∷ s) = some ([], s)
search_two_zeros (c ∷ s) = Option.map (λ r. (c ∷ r.0, r.1)) (search_two_zeros s)

-- Each round takes at least two bytes off the string.
pub decode_loop : ℕ → List ℕ → Option (List (List ℕ))
decode_loop fuel [] = some []
decode_loop zero (c ∷ s) = none
decode_loop (suc fuel) (c ∷ s) = do
  (item, rest) ← search_two_zeros (c ∷ s)
  x ← zero_unescape item
  xs ← decode_loop fuel rest
  some (x ∷ xs)

unfoldable pub decode_string_sequence : List ℕ → Option (List (List ℕ))
unfolding decode_loop
decode_string_sequence s = decode_loop (length s) s

-- `details::decodeTuple` for a tuple of the given size.
unfoldable pub decode_tuple : ℕ → List ℕ → Option (List (List ℕ))
decode_tuple zero [] = some []
decode_tuple zero (c ∷ s) = none
decode_tuple (suc k) s = do
  (item, rest) ← search_two_zeros s
  x ← zero_unescape item
  xs ← decode_tuple k rest
  some (x ∷ xs)
