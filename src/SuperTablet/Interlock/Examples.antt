-- ===== src/SuperTablet/Interlock/Examples.antt =====
-- Two threads that mutate and one that splits: tests, and the theorems at a concrete run.
use kdi.Common.{◌≡◌, refl, true, [], ◌∷◌, total, All, arith}
use kdi.SuperTablet.Interlock.{
  outside, waiting, woken, mutating, calming, roused, lulled, World, notify_mutators,
  notify_splitter, enter, leave, calm, set_blocked, begin_lull, end_lull, goes_on, begins, leaves,
  lulls, looks, Steps, here, there,
}
use kdi.SuperTablet.Interlock.Quiet.{weight, start, lulled_lem}
use kdi.SuperTablet.Interlock.Finish.{Reaches, Finished, finish_lem}

abbrev one_mutates : World
one_mutates = enter 0 (start 2)

abbrev one_lulls : World
one_lulls = begin_lull one_mutates

abbrev one_waits : World
one_waits = enter 1 one_lulls

abbrev one_has_left : World
one_has_left = leave 0 one_waits

abbrev in_lull : World
in_lull = calm one_has_left

waits_for_the_mutation : one_waits ≡ record {
  gate = record { mutations_blocked = true; mutations_pending = 1 };
  mutators = mutating ∷ waiting ∷ [];
  splitter = calming;
}
unfolding enter begin_lull calm set_blocked
waits_for_the_mutation = refl

gets_the_lull : in_lull ≡ record {
  gate = record { mutations_blocked = true; mutations_pending = 0 };
  mutators = outside ∷ waiting ∷ [];
  splitter = lulled;
}
unfolding enter leave notify_splitter begin_lull calm set_blocked
gets_the_lull = refl

-- The last mutation wakes the splitter, and the end of the lull the mutator.
wakes_the_others :
    (one_has_left.splitter ≡ roused) × ((end_lull in_lull).mutators ≡ outside ∷ woken ∷ [])
unfolding enter leave notify_splitter notify_mutators begin_lull calm set_blocked end_lull
wakes_the_others = (refl, refl)

to_waiting : Steps (start 2) one_waits
unfolding enter begin_lull calm set_blocked
to_waiting =
    there (start 2) one_lulls one_waits
      (there (start 2) one_mutates one_lulls
        (there (start 2) (start 2) one_mutates (here (start 2)) (begins (start 2) 0 refl))
        (lulls one_mutates refl))
      (begins one_lulls 1 refl)

to_lull : Steps (start 2) in_lull
unfolding enter leave notify_splitter begin_lull calm set_blocked
to_lull =
    there (start 2) one_has_left in_lull
      (there (start 2) one_waits one_has_left to_waiting
        (goes_on one_waits one_has_left (leaves one_waits 0 refl)))
      (goes_on one_has_left in_lull (looks one_has_left refl))

lulled_lem_example :
    (in_lull.gate.mutations_pending ≡ total weight in_lull.mutators)
    × (in_lull.splitter ≡ lulled → All (λ m. weight m ≡ 0) in_lull.mutators)
lulled_lem_example = lulled_lem 2 in_lull (omega arith) to_lull

finish_lem_example : Reaches Finished one_waits
finish_lem_example = finish_lem 2 one_waits (omega arith) to_waiting
