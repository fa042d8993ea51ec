-- ===== src/Cutoff/Examples.antt =====
-- A stream of numbers with a cutoff: tests, and the theorem at a concrete input.
use kdi.Common.{ℕ, ◌≡◌, refl, true, some, none, [], ◌∷◌, ◌++◌, ltb, All}
use kdi.Cutoff.{Cutoff, is_below, get, read, set_cutoff, clear_cutoff}
use kdi.Cutoff.Content.{content, read-content}

abbrev numbers : Cutoff ℕ
numbers = record { input = 1 ∷ 3 ∷ 5 ∷ 8 ∷ []; current = none; cutoff = some 4 }

abbrev stopped : Cutoff ℕ
stopped = record { input = 8 ∷ []; current = some 5; cutoff = some 4 }

stops_at_the_cutoff : read ltb 9 numbers ≡ (1 ∷ 3 ∷ [], stopped)
unfolding read get
stops_at_the_cutoff = refl

goes_on_after_it :
    ((read ltb 9 (set_cutoff 6 stopped)).0 ≡ 5 ∷ [])
    × ((read ltb 9 (clear_cutoff stopped)).0 ≡ 5 ∷ 8 ∷ [])
unfolding read get set_cutoff clear_cutoff
goes_on_after_it = (refl, refl)

read-content_example :
    ((read ltb 9 numbers).0 ++ content (read ltb 9 numbers).1 ≡ content numbers)
    × All (λ x. is_below ltb (some 4) x ≡ true) (read ltb 9 numbers).0
read-content_example = read-content ltb 9 numbers
