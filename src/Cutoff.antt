-- ===== src/Cutoff.antt =====
-- The stream filter of src/cc/flux/cutoff.h, which returns values up to a cutoff and keeps the
-- first value that is not below it. The input is the list of the values that it has still to give.
pub mod Content
mod Examples
use kdi.Common.{ℕ, zero, suc, Bool, true, false, Option, none, some, List, [], ◌∷◌, if◌then◌else◌}

-- `current` is the value that is buffered, if one is; an unset cutoff is `none`.
pub record Cutoff {ℓ} (T : Type ℓ) : Type ℓ where
  pub input : List T
  pub current : Option T
  pub cutoff : Option T

module _ {ℓ} {T : Type ℓ} (lt : T → T → Bool) where
  abbrev pub is_below : Option T → T → Bool
  is_below none x = true
  is_below (some c) x = lt x c

  -- The second half of `get`, with a value in the buffer.
  unfoldable pub offer : List T → T → Option T → Option T × Cutoff T
  offer s x c =
      if is_below c x
      then (some x, record { input = s; current = none; cutoff = c })
      else (none, record { input = s; current = some x; cutoff = c })

  unfoldable pub get_from : List T → Option T → Option T → Option T × Cutoff T
  unfolding offer
  get_from [] none c = (none, record { input = []; current = none; cutoff = c })
  get_from (x ∷ s) none c = offer s x c
  get_from s (some x) c = offer s x c

  unfoldable pub get : Cutoff T → Option T × Cutoff T
  unfolding get_from
  get f = get_from f.input f.current f.cutoff

  -- The values that a reader gets by so many calls, up to the first that returns none.
  unfoldable pub read : ℕ → Cutoff T → List T × Cutoff T
  read zero f = ([], f)
  read (suc n) f =
      let (given, g) = get f in
      elim given [ none ↦ ([], g) | some x ↦ let r = read n g in (x ∷ r.0, r.1) ]

module _ {ℓ} {T : Type ℓ} where
  unfoldable pub set_cutoff : T → Cutoff T → Cutoff T
  set_cutoff c f = record { input = f.input; current = f.current; cutoff = some c }

  unfoldable pub clear_cutoff : Cutoff T → Cutoff T
  clear_cutoff f = record { input = f.input; current = f.current; cutoff = none }
