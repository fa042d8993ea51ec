-- ===== src/Encode/Sequence.antt =====
-- `decodeStringSequence` and `decodeTuple` on the output of the encoders.
use mathlib.Core.Option
use kdi.Common.{
  ℕ, zero, suc, ◌≤◌, ◌≡◌, refl, ap, ◌∙◌, false, none, some, ◌>>=◌, List, [], ◌∷◌, ◌++◌, arith, ◌==◌,
  if◌then◌else◌, length, length-append,
}
use kdi.Encode.{
  zero_escape, zero_unescape, encode_string_sequence, search_two_zeros, decode_loop,
  decode_string_sequence, decode_tuple,
}
use kdi.Encode.Escape.{IsEscaped, zero_escape-IsEscaped, unescape_escaped}

abbrev before : ℕ → List ℕ × List ℕ → List ℕ × List ℕ
before c r = (c ∷ r.0, r.1)

-- The search stops at the separator and not inside the escaped string.
search-separator : (e t : List ℕ) → IsEscaped e → search_two_zeros (e ++ (0 ∷ 0 ∷ t)) ≡ some (e, t)
unfolding search_two_zeros
search-separator [] t h = refl
search-separator (zero ∷ []) t h = absurd h
search-separator (zero ∷ zero ∷ e) t h = absurd h
search-separator (zero ∷ suc n ∷ e) t h =
    ap (λ o. Option.map (before 0) (Option.map (before (suc n)) o)) (search-separator e t h)
search-separator (suc c ∷ e) t h = ap (Option.map (before (suc c))) (search-separator e t h)

search-escape :
    (s t : List ℕ) → search_two_zeros (zero_escape s ++ (0 ∷ 0 ∷ t)) ≡ some (zero_escape s, t)
search-escape s t = search-separator (zero_escape s) t (zero_escape-IsEscaped s)

decode_loop_head :
    (fuel : ℕ) (e t : List ℕ)
    → decode_loop (suc fuel) (e ++ (0 ∷ 0 ∷ t)) ≡ (
        search_two_zeros (e ++ (0 ∷ 0 ∷ t))
        >>= (λ r. zero_unescape r.0 >>= (λ x. decode_loop fuel r.1 >>= (λ xs. some (x ∷ xs)))))
unfolding decode_loop
decode_loop_head fuel [] t = refl
decode_loop_head fuel (c ∷ e) t = refl

decode_loop_end : (fuel : ℕ) → decode_loop fuel [] ≡ some []
unfolding decode_loop
decode_loop_end fuel = refl

decode_loop-encode :
    (fuel : ℕ) (ss : List (List ℕ))
    → length (encode_string_sequence ss) ≤ fuel
    → decode_loop fuel (encode_string_sequence ss) ≡ some ss
unfolding encode_string_sequence
decode_loop-encode fuel [] h = decode_loop_end fuel
decode_loop-encode zero (s ∷ ss) h =
    absurd
      (let p = length-append (zero_escape s) (0 ∷ 0 ∷ encode_string_sequence ss) in omega arith)
decode_loop-encode (suc fuel) (s ∷ ss) h = rw (
  decode_loop_head,
  search-escape,
  unescape_escaped,
  decode_loop-encode fuel ss
      (let p = length-append (zero_escape s) (0 ∷ 0 ∷ encode_string_sequence ss) in omega arith),
)

-- Decoding the encoding of a sequence of strings gives the sequence back.
pub decode-encode :
    (ss : List (List ℕ)) → decode_string_sequence (encode_string_sequence ss) ≡ some ss
unfolding decode_string_sequence
decode-encode ss = decode_loop-encode (length (encode_string_sequence ss)) ss (omega arith)

decode_tuple_excess : (e t : List ℕ) → decode_tuple 0 (e ++ (0 ∷ 0 ∷ t)) ≡ none
unfolding decode_tuple
decode_tuple_excess [] t = refl
decode_tuple_excess (c ∷ e) t = refl

-- Decoding the encoding of a sequence of strings as a tuple of size `k` gives the sequence back if
-- it has `k` strings, and raises an error otherwise.
pub decode_tuple-encode :
    (k : ℕ) (ss : List (List ℕ))
    → decode_tuple k (encode_string_sequence ss) ≡ (if k == length ss then some ss else none)
unfolding decode_tuple encode_string_sequence search_two_zeros
decode_tuple-encode zero [] = refl
decode_tuple-encode zero (s ∷ ss) =
    decode_tuple_excess (zero_escape s) (encode_string_sequence ss) ∙ ground arith
decode_tuple-encode (suc k) [] =
    ap (λ b. if b then some [] else none) (let p : false ≡ (suc k == 0) = ground arith in p)
decode_tuple-encode (suc k) (s ∷ ss) =
    rw (search-escape, unescape_escaped, decode_tuple-encode k ss) (ground arith)
