-- ===== src/SyncQueue.antt =====
-- The queue that threads share, src/cc/warp/syncqueue.h. A call runs under the lock from its start,
-- or from the end of a wait, to its return or its next wait; such a part is one step. A thread that
-- waits can go on at any time, whether a notification has woken it or not, and one that waits in a
-- timed call can give up at any time. Whether a time-out has passed is left open.
pub mod Invariant
mod Examples
use kdi.Common.{
  ℕ, zero, suc, ◌+◌, ◌-◌, ◌^◌, ◌%◌, ◌≡◌, Bool, true, false, not, ◌||◌, Option, none, some, List, [],
  ◌∷◌, ◌++◌, ltb, ◌==◌, if◌then◌else◌, length, get_elem?, set_elem,
}

-- The fields that the calls read and write.
pub record SyncQueue {ℓ} (T : Type ℓ) : Type ℓ where
  pub q : List T
  pub q_max : ℕ
  pub n_waiting : ℕ
  pub n_tasks_pending : ℕ
  pub cancel : Bool

-- A call that can wait: `push` and `pop` with their flag `wait`, and the two with a time-out.
pub data Call {ℓ} (T : Type ℓ) : Type ℓ where
  push : T → Bool → Call T
  pop : Bool → Call T
  timed_push : T → Call T
  timed_pop : Call T
  wait_for_empty : Call T
  wait_for_completion : Call T

-- A thread: outside of the queue's calls, between the first attempt of a timed call and its loop,
-- where it does not hold the lock, or waiting in a call.
pub data Thread {ℓ} (T : Type ℓ) : Type ℓ where
  outside : Thread T
  between : Call T → Thread T
  waiting : Call T → Thread T

-- What one round of a call's loop comes to.
pub data Round {ℓ} (T : Type ℓ) : Type ℓ where
  pushed : T → Round T
  popped : T → List T → Round T
  returned : Bool → Round T
  waits : Round T

module _ {ℓ} {T : Type ℓ} where
  -- `if(!wait || cancel) return false`, and otherwise a wait.
  abbrev pub give_up : Bool → SyncQueue T → Round T
  give_up wait s = if not wait || s.cancel then returned false else waits

  unfoldable pub round : Call T → SyncQueue T → Round T
  round (push x wait) s = if ltb (length s.q) s.q_max then pushed x else give_up wait s
  round (pop wait) s = elim s.q [ [] ↦ give_up wait s | x ∷ q ↦ popped x q ]
  round (timed_push x) s = if ltb (length s.q) s.q_max then pushed x else give_up true s
  round timed_pop s = elim s.q [ [] ↦ give_up true s | x ∷ q ↦ popped x q ]
  round wait_for_empty s = elim s.q [ [] ↦ returned true | x ∷ q ↦ give_up true s ]
  round wait_for_completion s = if s.n_tasks_pending == 0 then returned true else give_up true s

  -- The call that a timed call tries first.
  abbrev pub attempt : Call T → Option (Call T)
  attempt (push x wait) = none
  attempt (pop wait) = none
  attempt (timed_push x) = some (push x false)
  attempt timed_pop = some (pop false)
  attempt wait_for_empty = none
  attempt wait_for_completion = none

  unfoldable pub task_complete : SyncQueue T → SyncQueue T
  task_complete s = record s { n_tasks_pending = (s.n_tasks_pending + (2 ^ 64 - 1)) % 2 ^ 64 }

  -- A call of `cancelWaits`, or a round of one that waits for the other threads.
  unfoldable pub cancel_waits : SyncQueue T → SyncQueue T
  cancel_waits s = record s { cancel = true }

  unfoldable pub enable_waits : SyncQueue T → SyncQueue T
  enable_waits s = record s { cancel = false }

-- The queue with its threads, and what was put in, what was got out,
-- and how many tasks were completed so far.
pub record World {ℓ} (T : Type ℓ) : Type ℓ where
  pub queue : SyncQueue T
  pub threads : List (Thread T)
  pub put : List T
  pub got : List T
  pub completed : ℕ

module _ {ℓ} {T : Type ℓ} where
  -- The effect of a round of the call `c` of thread `i`.
  abbrev pub settle : ℕ → Call T → World T → Round T → World T
  settle i c w (pushed x) = record {
    queue = record {
      q = w.queue.q ++ (x ∷ []);
      q_max = w.queue.q_max;
      n_waiting = w.queue.n_waiting;
      n_tasks_pending = (w.queue.n_tasks_pending + 1) % 2 ^ 64;
      cancel = w.queue.cancel;
    };
    threads = set_elem i outside w.threads;
    put = w.put ++ (x ∷ []);
    got = w.got;
    completed = w.completed;
  }
  settle i c w (popped x q) = record {
    queue = record {
      q = q;
      q_max = w.queue.q_max;
      n_waiting = w.queue.n_waiting;
      n_tasks_pending = w.queue.n_tasks_pending;
      cancel = w.queue.cancel;
    };
    threads = set_elem i outside w.threads;
    put = w.put;
    got = w.got ++ (x ∷ []);
    completed = w.completed;
  }
  settle i c w (returned b) = record {
    queue = w.queue;
    threads = set_elem i outside w.threads;
    put = w.put;
    got = w.got;
    completed = w.completed;
  }
  settle i c w waits = record {
    queue = record {
      q = w.queue.q;
      q_max = w.queue.q_max;
      n_waiting = (w.queue.n_waiting + 1) % 2 ^ 64;
      n_tasks_pending = w.queue.n_tasks_pending;
      cancel = w.queue.cancel;
    };
    threads = set_elem i (waiting c) w.threads;
    put = w.put;
    got = w.got;
    completed = w.completed;
  }

  unfoldable pub run : ℕ → Call T → World T → World T
  run i c w = settle i c w (round c w.queue)

  abbrev pub with_queue : SyncQueue T → World T → World T
  with_queue queue w = record {
    queue = queue;
    threads = w.threads;
    put = w.put;
    got = w.got;
    completed = w.completed;
  }

  abbrev pub with_thread : ℕ → Thread T → World T → World T
  with_thread i t w = record {
    queue = w.queue;
    threads = set_elem i t w.threads;
    put = w.put;
    got = w.got;
    completed = w.completed;
  }

  -- The first attempt of a timed call, which goes on to its loop if the attempt returns false.
  unfoldable pub try_first : ℕ → Call T → Call T → World T → World T
  try_first i first c w = elim (round first w.queue) [
    | pushed x ↦ settle i c w (pushed x)
    | popped x q ↦ settle i c w (popped x q)
    | returned b ↦ with_thread i (between c) w
    | waits ↦ settle i c w waits
  ]

  unfoldable pub begin : ℕ → Call T → World T → World T
  unfolding try_first run
  begin i c w = elim (attempt c) [ none ↦ run i c w | some first ↦ try_first i first c w ]

  -- The end of a wait, in `waitHelper`.
  unfoldable pub end_wait : World T → World T
  end_wait w =
      with_queue
        (record {
          q = w.queue.q;
          q_max = w.queue.q_max;
          n_waiting = (w.queue.n_waiting + (2 ^ 64 - 1)) % 2 ^ 64;
          n_tasks_pending = w.queue.n_tasks_pending;
          cancel = w.queue.cancel;
        })
        w

  -- A timed wait that ends without the condition: the call returns false.
  unfoldable pub time_out : ℕ → World T → World T
  unfolding end_wait
  time_out i w = with_thread i outside (end_wait w)

  unfoldable pub complete : World T → World T
  unfolding task_complete
  complete w = record {
    queue = task_complete w.queue;
    threads = w.threads;
    put = w.put;
    got = w.got;
    completed = w.completed + 1;
  }

  -- A queue that has just been constructed, with threads outside of its calls.
  abbrev pub start : ℕ → List (Thread T) → World T
  start q_max threads = record {
    queue = record { q = []; q_max = q_max; n_waiting = 0; n_tasks_pending = 0; cancel = false };
    threads = threads;
    put = [];
    got = [];
    completed = 0;
  }

abbrev pub is_timed {ℓ} : {T : Type ℓ} → Call T → Bool
is_timed (push x wait) = false
is_timed (pop wait) = false
is_timed (timed_push x) = true
is_timed timed_pop = true
is_timed wait_for_empty = false
is_timed wait_for_completion = false

-- The steps: a thread begins a call, begins the loop of a timed call, goes on from a wait or gives up
-- a timed one, and the calls that do not wait.
pub data Step {ℓ} {T : Type ℓ} : World T → World T → Type ℓ where
  begins :
      (w : World T) (i : ℕ) (c : Call T)
      → get_elem? w.threads i ≡ some outside
      → Step w (begin i c w)
  enters :
      (w : World T) (i : ℕ) (c : Call T)
      → get_elem? w.threads i ≡ some (between c)
      → Step w (run i c w)
  goes_on :
      (w : World T) (i : ℕ) (c : Call T)
      → get_elem? w.threads i ≡ some (waiting c)
      → Step w (run i c (end_wait w))
  times_out :
      (w : World T) (i : ℕ) (c : Call T)
      → get_elem? w.threads i ≡ some (waiting c)
      → is_timed c ≡ true
      → Step w (time_out i w)
  completes : (w : World T) → Step w (complete w)
  cancels : (w : World T) → Step w (with_queue (cancel_waits w.queue) w)
  enables : (w : World T) → Step w (with_queue (enable_waits w.queue) w)

pub data Steps {ℓ} {T : Type ℓ} : World T → World T → Type ℓ where
  here : (w : World T) → Steps w w
  there : (w v u : World T) → Steps w v → Step v u → Steps w u
