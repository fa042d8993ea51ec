-- ===== src/SyncQueue/Invariant.antt =====
-- The queue is first in, first out, within its bound, and counts its waiting threads and pending
-- tasks, in every order of the threads' steps: src/cc/warp/syncqueue.h.
use kdi.Common.{
  ℕ, zero, suc, ◌+◌, ◌^◌, ◌%◌, ◌<◌, ◌≤◌, ◌≡◌, refl, sym, ap, ◌∙◌, Bool, true, not, ◌||◌, Option,
  none, some, List, [], ◌∷◌, ◌++◌, ltb, ◌==◌, length, length-append, replicate, append_assoc,
  set_elem, total, total-set_elem, Bool-cases, inl, inr, arith,
}
use kdi.SyncQueue.{
  SyncQueue, Call, push, pop, timed_push, timed_pop, Thread, outside, between, waiting, attempt,
  try_first, begin, time_out, with_thread, wait_for_empty, wait_for_completion, Round, pushed,
  popped, returned, waits, give_up, round, task_complete, cancel_waits, enable_waits, World, settle,
  run, end_wait, complete, start, Step, begins, goes_on, completes, cancels, enables, enters,
  times_out, Steps, here, there,
}

module _ {T : Type 0} where
  -- The threads that are in a wait.
  abbrev pub weight : Thread T → ℕ
  weight outside = 0
  weight (between c) = 0
  weight (waiting c) = 1

  pub record IsValid (w : World T) : Type 0 where
    pub order : w.put ≡ w.got ++ w.queue.q
    pub bound : length w.queue.q ≤ w.queue.q_max
    pub waiting : w.queue.n_waiting ≡ total weight w.threads % 2 ^ 64
    pub tasks : (w.queue.n_tasks_pending + w.completed) % 2 ^ 64 ≡ length w.put % 2 ^ 64

  -- What a round finds in the queue.
  abbrev Fits : Round T → SyncQueue T → Type 0
  Fits (pushed x) s = length s.q < s.q_max
  Fits (popped x q) s = s.q ≡ x ∷ q
  Fits (returned b) s = Unit
  Fits waits s = Unit

  give_up-Fits : (wait : Bool) (s : SyncQueue T) → Fits (give_up wait s) s
  give_up-Fits wait s = elim (Bool-cases (not wait || s.cancel)) [
    | inl e ↦ rw (give_up, e) tt
    | inr e ↦ rw (give_up, e) tt
  ]

  round-Fits : (c : Call T) (s : SyncQueue T) → Fits (round c s) s
  unfolding round
  round-Fits (push x wait) s = elim (Bool-cases (ltb (length s.q) s.q_max)) [
    | inl e ↦ rw (e, round) (ground arith)
    | inr e ↦ rw (e, round) (give_up-Fits wait s)
  ]
  round-Fits (pop wait) s = front s.q refl
    where
      front : (l : List T) → s.q ≡ l → Fits (elim l [ [] ↦ give_up wait s | x ∷ q ↦ popped x q ]) s
      front [] e = give_up-Fits wait s
      front (x ∷ q) e = e
  round-Fits (timed_push x) s = elim (Bool-cases (ltb (length s.q) s.q_max)) [
    | inl e ↦ rw (e, round) (ground arith)
    | inr e ↦ rw (e, round) (give_up-Fits true s)
  ]
  round-Fits timed_pop s = front s.q refl
    where
      front : (l : List T) → s.q ≡ l → Fits (elim l [ [] ↦ give_up true s | x ∷ q ↦ popped x q ]) s
      front [] e = give_up-Fits true s
      front (x ∷ q) e = e
  round-Fits wait_for_empty s = front s.q
    where
      front : (l : List T) → Fits (elim l [ [] ↦ returned true | x ∷ q ↦ give_up true s ]) s
      front [] = tt
      front (x ∷ q) = give_up-Fits true s
  round-Fits wait_for_completion s = elim (Bool-cases (s.n_tasks_pending == 0)) [
    | inl e ↦ rw (e, round) tt
    | inr e ↦ rw (e, round) (give_up-Fits true s)
  ]

  settle-IsValid :
      (i : ℕ) (c : Call T) (w : World T) (r : Round T)
      → Fits r w.queue
      → w.put ≡ w.got ++ w.queue.q
      → length w.queue.q ≤ w.queue.q_max
      → (w.queue.n_tasks_pending + w.completed) % 2 ^ 64 ≡ length w.put % 2 ^ 64
      → w.queue.n_waiting ≡ total weight (set_elem i outside w.threads) % 2 ^ 64
      → total weight (set_elem i (waiting c) w.threads)
        ≡ suc (total weight (set_elem i outside w.threads))
      → IsValid (settle i c w r)
  settle-IsValid i c w (pushed x) f order bound tasks counted more = record {
    order = ap (λ s. s ++ (x ∷ [])) order ∙ append_assoc w.got w.queue.q (x ∷ []);
    bound = let n = length-append w.queue.q (x ∷ []) in omega arith;
    waiting = counted;
    tasks = let n = length-append w.put (x ∷ []) in omega arith;
  }
  settle-IsValid i c w (popped x q) f order bound tasks counted more = record {
    order = order ∙ ap (λ s. w.got ++ s) f ∙ sym (append_assoc w.got (x ∷ []) q);
    bound = let n = ap length f in omega arith;
    waiting = counted;
    tasks = tasks;
  }
  settle-IsValid i c w (returned b) f order bound tasks counted more = record {
    order = order;
    bound = bound;
    waiting = counted;
    tasks = tasks;
  }
  settle-IsValid i c w waits f order bound tasks counted more = record {
    order = order;
    bound = bound;
    waiting = omega arith;
    tasks = tasks;
  }

  run-IsValid :
      (i : ℕ) (c : Call T) (w : World T)
      → w.put ≡ w.got ++ w.queue.q
      → length w.queue.q ≤ w.queue.q_max
      → (w.queue.n_tasks_pending + w.completed) % 2 ^ 64 ≡ length w.put % 2 ^ 64
      → w.queue.n_waiting ≡ total weight (set_elem i outside w.threads) % 2 ^ 64
      → total weight (set_elem i (waiting c) w.threads)
        ≡ suc (total weight (set_elem i outside w.threads))
      → IsValid (run i c w)
  unfolding run
  run-IsValid i c w order bound tasks counted more =
      settle-IsValid i c w (round c w.queue) (round-Fits c w.queue) order bound tasks counted more

  begin-IsValid :
      (i : ℕ) (c : Call T) (w : World T)
      → w.put ≡ w.got ++ w.queue.q
      → length w.queue.q ≤ w.queue.q_max
      → (w.queue.n_tasks_pending + w.completed) % 2 ^ 64 ≡ length w.put % 2 ^ 64
      → w.queue.n_waiting ≡ total weight (set_elem i outside w.threads) % 2 ^ 64
      → total weight (set_elem i (waiting c) w.threads)
        ≡ suc (total weight (set_elem i outside w.threads))
      → w.queue.n_waiting ≡ total weight (set_elem i (between c) w.threads) % 2 ^ 64
      → IsValid (begin i c w)
  unfolding begin try_first
  begin-IsValid i c w order bound tasks counted more apart = started (attempt c)
    where
      tried :
          (r : Round T)
          → Fits r w.queue
          → IsValid (elim r [
            | pushed x ↦ settle i c w (pushed x)
            | popped x q ↦ settle i c w (popped x q)
            | returned b ↦ with_thread i (between c) w
            | waits ↦ settle i c w waits
          ])
      tried (pushed x) f = settle-IsValid i c w (pushed x) f order bound tasks counted more
      tried (popped x q) f = settle-IsValid i c w (popped x q) f order bound tasks counted more
      tried (returned b) f = record { order = order; bound = bound; waiting = apart; tasks = tasks }
      tried waits f = settle-IsValid i c w waits f order bound tasks counted more

      started :
          (a : Option (Call T))
          → IsValid (elim a [ none ↦ run i c w | some first ↦ try_first i first c w ])
      started none = run-IsValid i c w order bound tasks counted more
      started (some first) = tried (round first w.queue) (round-Fits first w.queue)

  Step-IsValid : (w v : World T) → Step w v → IsValid w → IsValid v
  unfolding end_wait time_out complete task_complete cancel_waits enable_waits
  Step-IsValid w v (begins _ i c e) h =
      let out = total-set_elem weight i outside outside w.threads e in
      let apart = total-set_elem weight i (between c) outside w.threads e in
      let into = total-set_elem weight i (waiting c) outside w.threads e in
      let n = h.waiting in
      begin-IsValid i c w h.order h.bound h.tasks (omega arith) (omega arith) (omega arith)
  Step-IsValid w v (enters _ i c e) h =
      let out = total-set_elem weight i outside (between c) w.threads e in
      let into = total-set_elem weight i (waiting c) (between c) w.threads e in
      let n = h.waiting in run-IsValid i c w h.order h.bound h.tasks (omega arith) (omega arith)
  Step-IsValid w v (goes_on _ i c e) h =
      let out = total-set_elem weight i outside (waiting c) w.threads e in
      let into = total-set_elem weight i (waiting c) (waiting c) w.threads e in
      let n = h.waiting in
      run-IsValid i c (end_wait w) h.order h.bound h.tasks (omega arith) (omega arith)
  Step-IsValid w v (times_out _ i c e timed) h =
      let out = total-set_elem weight i outside (waiting c) w.threads e in
      let n = h.waiting in
      record { order = h.order; bound = h.bound; waiting = omega arith; tasks = h.tasks }
  Step-IsValid w v (completes _) h = record {
    order = h.order;
    bound = h.bound;
    waiting = h.waiting;
    tasks = let n = h.tasks in omega arith;
  }
  Step-IsValid w v (cancels _) h = record {
    order = h.order;
    bound = h.bound;
    waiting = h.waiting;
    tasks = h.tasks;
  }
  Step-IsValid w v (enables _) h = record {
    order = h.order;
    bound = h.bound;
    waiting = h.waiting;
    tasks = h.tasks;
  }

  start-IsValid : (q_max n : ℕ) → IsValid (start {T = T} q_max (replicate n outside))
  start-IsValid q_max n = record {
    order = refl;
    bound = omega arith;
    waiting = ap (λ k. k % 2 ^ 64) (sym (none_wait n));
    tasks = refl;
  }
    where
      none_wait : (k : ℕ) → total weight (replicate k outside) ≡ 0
      none_wait zero = refl
      none_wait (suc k) = let ih = none_wait k in omega arith

  -- However the threads' steps are interleaved from a new queue on, the items that were got out and
  -- those that are in the queue are, in order, those that were put in; the queue never holds more
  -- than its maximum; and up to the wrap of a `size_t` the counters are the number of threads in a
  -- wait, and the number of items put in less the tasks completed.
  pub Steps-IsValid :
      (q_max n : ℕ) (w : World T) → Steps (start q_max (replicate n outside)) w → IsValid w
  Steps-IsValid q_max n w steps =
      reached (start q_max (replicate n outside)) w steps (start-IsValid q_max n)
    where
      reached : (v u : World T) → Steps v u → IsValid v → IsValid u
      reached v u (here _) h = h
      reached v u (there _ t _ before last) h = Step-IsValid t u last (reached v t before h)
