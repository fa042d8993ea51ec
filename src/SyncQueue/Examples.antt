-- ===== src/SyncQueue/Examples.antt =====
-- Two threads on a queue of one item: tests, and the theorem at a concrete run.
use kdi.Common.{ℕ, ◌≡◌, refl, true, false, [], ◌∷◌}
use kdi.SyncQueue.{
  push, pop, timed_pop, outside, between, waiting, begin, try_first, time_out, enters, times_out,
  round, returned, waits, World, run, end_wait, start, begins, goes_on, Steps, here, there,
}
use kdi.SyncQueue.Invariant.{IsValid, Steps-IsValid}

abbrev at_first : World ℕ
at_first = start 1 (outside ∷ outside ∷ [])

abbrev one_waits : World ℕ
one_waits = begin 0 (pop true) at_first

abbrev one_item : World ℕ
one_item = begin 1 (push 5 true) one_waits

abbrev at_last : World ℕ
at_last = run 0 (pop true) (end_wait one_item)

-- Then the queue is empty, and a timed `pop` waits and gives up.
abbrev tries_again : World ℕ
tries_again = begin 1 timed_pop at_last

abbrev in_its_loop : World ℕ
in_its_loop = run 1 timed_pop tries_again

abbrev timed_out : World ℕ
timed_out = time_out 1 in_its_loop

gives_up_in_time :
    (tries_again.threads ≡ outside ∷ between timed_pop ∷ [])
    × (in_its_loop.threads ≡ outside ∷ waiting timed_pop ∷ [])
    × (in_its_loop.queue.n_waiting ≡ 1)
    × (timed_out.threads ≡ outside ∷ outside ∷ [])
    × (timed_out.queue.n_waiting ≡ 0)
unfolding begin try_first run round end_wait time_out
gives_up_in_time = (refl, refl, refl, refl, refl)

hands_an_item_over : at_last ≡ record {
  queue = record { q = []; q_max = 1; n_waiting = 0; n_tasks_pending = 1; cancel = false };
  threads = outside ∷ outside ∷ [];
  put = 5 ∷ [];
  got = 5 ∷ [];
  completed = 0;
}
unfolding begin try_first run round end_wait
hands_an_item_over = refl

-- A full queue makes `push` wait, unless it is asked not to or waits are cancelled.
bounds_the_queue :
    (round {T = ℕ} (push 6 true) one_item.queue ≡ waits)
    × (round {T = ℕ} (push 6 false) one_item.queue ≡ returned false)
    × (round {T = ℕ}
          (push 6 true)
          (record { q = 5 ∷ []; q_max = 1; n_waiting = 0; n_tasks_pending = 1; cancel = true })
        ≡ returned false)
unfolding begin try_first round run
bounds_the_queue = (refl, refl, refl)

steps : Steps at_first at_last
unfolding begin try_first run round end_wait
steps =
    there at_first one_item at_last
      (there at_first one_waits one_item
        (there at_first at_first one_waits (here at_first) (begins at_first 0 (pop true) refl))
        (begins one_waits 1 (push 5 true) refl))
      (goes_on one_item 0 (pop true) refl)

to_time_out : Steps at_first timed_out
unfolding begin try_first run round end_wait time_out
to_time_out =
    there at_first in_its_loop timed_out
      (there at_first tries_again in_its_loop
        (there at_first at_last tries_again steps (begins at_last 1 timed_pop refl))
        (enters tries_again 1 timed_pop refl))
      (times_out in_its_loop 1 timed_pop refl refl)

Steps-IsValid_example : IsValid timed_out
Steps-IsValid_example = Steps-IsValid 1 2 timed_out to_time_out
