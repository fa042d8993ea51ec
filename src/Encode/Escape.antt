-- ===== src/Encode/Escape.antt =====
-- `zeroEscape` is undone by `zeroUnescape`, and never writes two zeros in a row.
use mathlib.Core.Option
use kdi.Common.{
  ℕ, zero, suc, false, ◌%◌, All, All-append, ◌+◌, ◌-◌, ◌≤◌, ◌<◌, ◌≡◌, fun_ext, refl, ap, sym, ◌∙◌,
  Option, none, some, List, [], ◌∷◌, ◌++◌, append-nil, arith, Bool-cases, inl, inr, ltb, ltb→lt,
  replicate,
}
use kdi.Encode.{emit_loop, emit, escape_from, zero_escape, zero_unescape}

-- A string that is a row of tokens: a byte that is not zero, or a zero and a count that is not zero.
abbrev pub IsEscaped : List ℕ → Type 0
IsEscaped [] = Unit
IsEscaped (zero ∷ []) = ⊥
IsEscaped (zero ∷ zero ∷ s) = ⊥
IsEscaped (zero ∷ suc n ∷ s) = IsEscaped s
IsEscaped (suc c ∷ s) = IsEscaped s

replicate_add :
    {A : Type 0} (m n k : ℕ) (a : A) (t : List A)
    → k ≡ m + n
    → replicate m a ++ (replicate n a ++ t) ≡ replicate k a ++ t
replicate_add zero n k a t e = let p : n ≡ k = omega arith in ap (λ i. replicate i a ++ t) p
replicate_add (suc m) n zero a t e = absurd (omega arith)
replicate_add (suc m) n (suc k) a t e = ap (◌∷◌ a) (replicate_add m n k a t (omega arith))

replicate_shift :
    {A : Type 0} (n : ℕ) (a : A) (t : List A) → replicate (suc n) a ++ t ≡ replicate n a ++ (a ∷ t)
replicate_shift zero a t = refl
replicate_shift (suc n) a t = ap (◌∷◌ a) (replicate_shift n a t)

map-map :
    {A B C : Type 0} (f : B → C) (g : A → B) (o : Option A)
    → Option.map f (Option.map g o) ≡ Option.map (λ a. f (g a)) o
map-map f g none = refl
map-map f g (some a) = refl

map-id : {A : Type 0} (o : Option A) → o ≡ Option.map (λ a. a) o
map-id none = refl
map-id (some a) = refl

emit_last-IsEscaped : (n : ℕ) (t : List ℕ) → 0 < n → IsEscaped t → IsEscaped (0 ∷ n ∷ t)
emit_last-IsEscaped zero t h e = absurd (omega arith)
emit_last-IsEscaped (suc n) t h e = e

-- The last count is at most 255, so that it is kept as a byte.
count_byte : (n : ℕ) → ltb 255 n ≡ false → n % 256 ≡ n
count_byte n l = ground arith

emit_loop-IsEscaped :
    (fuel n : ℕ) (t : List ℕ) → 0 < n → n ≤ fuel → IsEscaped t → IsEscaped (emit_loop fuel n ++ t)
unfolding emit_loop
emit_loop-IsEscaped zero n t h k e = absurd (omega arith)
emit_loop-IsEscaped (suc fuel) n t h k e = elim (Bool-cases (ltb 255 n)) [
  | inl l ↦
      rw l (
        emit_loop-IsEscaped fuel (n - 255) t (let p = ltb→lt 255 n l in omega arith) (omega arith)
          e)
  | inr l ↦ rw (l, count_byte n l) (emit_last-IsEscaped n t h e)
]

unescape-emit_loop :
    (fuel n : ℕ) (t : List ℕ)
    → 0 < n
    → n ≤ fuel
    → zero_unescape (emit_loop fuel n ++ t) ≡ Option.map (λ r. replicate n 0 ++ r) (zero_unescape t)
unfolding emit_loop zero_unescape
unescape-emit_loop zero n t h k = absurd (omega arith)
unescape-emit_loop (suc fuel) n t h k = elim (Bool-cases (ltb 255 n)) [
  | inl l ↦ rw l (
      let p = ltb→lt 255 n l in
      ap (Option.map (λ r. replicate 255 0 ++ r))
        (unescape-emit_loop fuel (n - 255) t (omega arith) (omega arith))
      ∙ map-map (λ r. replicate 255 0 ++ r) (λ r. replicate (n - 255) 0 ++ r) (zero_unescape t)
      ∙ ap (λ f. Option.map f (zero_unescape t))
          (fun_ext (λ r. replicate_add 255 (n - 255) n 0 r (omega arith))))
  | inr l ↦ rw (l, count_byte n l) refl
]

emit-IsEscaped : (n : ℕ) (t : List ℕ) → IsEscaped t → IsEscaped (emit n ++ t)
unfolding emit
emit-IsEscaped zero t e = e
emit-IsEscaped (suc n) t e = emit_loop-IsEscaped (suc n) (suc n) t (omega arith) (omega arith) e

escape_from-IsEscaped : (n : ℕ) (s : List ℕ) → IsEscaped (escape_from n s)
unfolding escape_from
escape_from-IsEscaped n [] = rw (sym (append-nil (emit n))) (emit-IsEscaped n [] tt)
escape_from-IsEscaped n (zero ∷ s) = escape_from-IsEscaped (suc n) s
escape_from-IsEscaped n (suc c ∷ s) =
    emit-IsEscaped n (suc c ∷ escape_from 0 s) (escape_from-IsEscaped 0 s)

-- An escaped string is a row of bytes that are not zero and of zeros that stand before such a byte:
-- it never holds two zeros in a row and does not end in a zero.
pub zero_escape-IsEscaped : (s : List ℕ) → IsEscaped (zero_escape s)
unfolding zero_escape
zero_escape-IsEscaped s = escape_from-IsEscaped 0 s

unescape-emit :
    (n : ℕ) (t : List ℕ)
    → zero_unescape (emit n ++ t) ≡ Option.map (λ r. replicate n 0 ++ r) (zero_unescape t)
unfolding emit
unescape-emit zero t = map-id (zero_unescape t)
unescape-emit (suc n) t = unescape-emit_loop (suc n) (suc n) t (omega arith) (omega arith)

unescape-escape_from :
    (n : ℕ) (s : List ℕ) → zero_unescape (escape_from n s) ≡ some (replicate n 0 ++ s)
unfolding escape_from zero_unescape
unescape-escape_from n [] = ap zero_unescape (sym (append-nil (emit n))) ∙ unescape-emit n []
unescape-escape_from n (zero ∷ s) = unescape-escape_from (suc n) s ∙ ap some (replicate_shift n 0 s)
unescape-escape_from n (suc c ∷ s) =
    unescape-emit n (suc c ∷ escape_from 0 s)
    ∙ ap (λ o. Option.map (λ r. replicate n 0 ++ r) (Option.map (λ t. suc c ∷ t) o))
        (unescape-escape_from 0 s)

pub unescape_escaped : (s : List ℕ) → zero_unescape (zero_escape s) ≡ some s
unfolding zero_escape
unescape_escaped s = unescape-escape_from 0 s

abbrev pub AreBytes : List ℕ → Type 0
AreBytes s = All (λ c. c < 256) s

emit_loop-AreBytes : (fuel n : ℕ) → AreBytes (emit_loop fuel n)
unfolding emit_loop
emit_loop-AreBytes zero n = (omega arith, (omega arith, tt))
emit_loop-AreBytes (suc fuel) n = elim (Bool-cases (ltb 255 n)) [
  | inl l ↦ rw l (omega arith, (omega arith, emit_loop-AreBytes fuel (n - 255)))
  | inr l ↦ rw l (omega arith, (omega arith, tt))
]

emit-AreBytes : (n : ℕ) → AreBytes (emit n)
unfolding emit
emit-AreBytes zero = tt
emit-AreBytes (suc n) = emit_loop-AreBytes (suc n) (suc n)

escape_from-AreBytes : (n : ℕ) (s : List ℕ) → AreBytes s → AreBytes (escape_from n s)
unfolding escape_from
escape_from-AreBytes n [] h = emit-AreBytes n
escape_from-AreBytes n (zero ∷ s) h = escape_from-AreBytes (suc n) s h.1
escape_from-AreBytes n (suc c ∷ s) h =
    All-append (λ b. b < 256) (emit n) (suc c ∷ escape_from 0 s) (emit-AreBytes n)
      (h.0, escape_from-AreBytes 0 s h.1)

-- Escaping the zeros of a string of bytes gives a string of bytes, and unescaping that gives the
-- string back, whatever the length of its runs of zeros.
pub unescape-escape :
    (s : List ℕ)
    → All (λ c. c < 256) s
    → All (λ c. c < 256) (zero_escape s) × (zero_unescape (zero_escape s) ≡ some s)
unfolding zero_escape
unescape-escape s h = (escape_from-AreBytes 0 s h, unescape_escaped s)
