-- ===== src/SuperTablet/Interlock.antt =====
-- Mutations and splits keep out of each other's way, `MutationInterlock` and `MutationLull` in
-- src/cc/kdi/tablet/SuperTablet.cc. A constructor runs under the lock up to its end or its next
-- wait, and a destructor as a whole; each such part is one step. A thread that waits goes on only
-- once a notification has woken it, or when it is woken without one.
pub mod Quiet
pub mod Finish
mod Examples
use kdi.Common.{
  ℕ, ◌+◌, ◌-◌, ◌^◌, ◌%◌, ◌≡◌, Bool, true, false, some, List, [], ◌∷◌, ◌==◌, if◌then◌else◌,
  get_elem?, set_elem,
}

-- The fields that the two classes read and write.
pub record Gate : Type 0 where
  pub mutations_blocked : Bool
  pub mutations_pending : ℕ

-- A thread that mutates the table: outside, waiting on `allowMutations` in the constructor, woken
-- from that wait, or with the interlock.
pub data Mutator : Type 0 where
  outside : Mutator
  waiting : Mutator
  woken : Mutator
  mutating : Mutator

-- The thread of the work queue, which splits tablets: outside, waiting on `allQuiet` in the
-- constructor of the lull, woken from that wait, or with the lull.
pub data Splitter : Type 0 where
  resting : Splitter
  calming : Splitter
  roused : Splitter
  lulled : Splitter

pub record World : Type 0 where
  pub gate : Gate
  pub mutators : List Mutator
  pub splitter : Splitter

-- `allowMutations.notify_all()`.
abbrev pub wake : Mutator → Mutator
wake outside = outside
wake waiting = woken
wake woken = woken
wake mutating = mutating

unfoldable pub notify_mutators : List Mutator → List Mutator
notify_mutators [] = []
notify_mutators (m ∷ mutators) = wake m ∷ notify_mutators mutators

-- `allQuiet.notify_all()`.
unfoldable pub notify_splitter : Splitter → Splitter
notify_splitter resting = resting
notify_splitter calming = roused
notify_splitter roused = roused
notify_splitter lulled = lulled

-- The constructor of the interlock from its start, or from the end of a wait.
unfoldable pub enter : ℕ → World → World
enter i w =
    if w.gate.mutations_blocked
    then record { gate = w.gate; mutators = set_elem i waiting w.mutators; splitter = w.splitter }
    else record {
      gate = record {
        mutations_blocked = w.gate.mutations_blocked;
        mutations_pending = (w.gate.mutations_pending + 1) % 2 ^ 64;
      };
      mutators = set_elem i mutating w.mutators;
      splitter = w.splitter;
    }

-- The destructor of the interlock: the last mutation notifies the splitter.
unfoldable pub leave : ℕ → World → World
unfolding notify_splitter
leave i w =
    let pending = (w.gate.mutations_pending + (2 ^ 64 - 1)) % 2 ^ 64 in
    record {
      gate = record { mutations_blocked = w.gate.mutations_blocked; mutations_pending = pending };
      mutators = set_elem i outside w.mutators;
      splitter = if pending == 0 then notify_splitter w.splitter else w.splitter;
    }

-- The loop of the lull's constructor, from a test to its end or a wait.
unfoldable pub calm : World → World
calm w = record {
  gate = w.gate;
  mutators = w.mutators;
  splitter = if w.gate.mutations_pending == 0 then lulled else calming;
}

unfoldable pub set_blocked : Bool → World → World
set_blocked b w = record {
  gate = record { mutations_blocked = b; mutations_pending = w.gate.mutations_pending };
  mutators = w.mutators;
  splitter = w.splitter;
}

-- The constructor of the lull.
unfoldable pub begin_lull : World → World
begin_lull w = calm (set_blocked true w)

-- The destructor of the lull, which notifies the mutators.
unfoldable pub end_lull : World → World
unfolding notify_mutators
end_lull w = record {
  gate = (set_blocked false w).gate;
  mutators = notify_mutators w.mutators;
  splitter = resting;
}

-- What a thread inside does next: one that has been woken looks again, and one that holds the
-- interlock or the lull gives it up.
pub data Go : World → World → Type 0 where
  resumes : (w : World) (i : ℕ) → get_elem? w.mutators i ≡ some woken → Go w (enter i w)
  leaves : (w : World) (i : ℕ) → get_elem? w.mutators i ≡ some mutating → Go w (leave i w)
  looks : (w : World) → w.splitter ≡ roused → Go w (calm w)
  ends : (w : World) → w.splitter ≡ lulled → Go w (end_lull w)

pub data Goes : World → World → Type 0 where
  stays : (w : World) → Goes w w
  onward : (w v u : World) → Go w v → Goes v u → Goes w u

-- The steps: those, the calls, and the wake-ups without a notification.
pub data Step : World → World → Type 0 where
  goes_on : (w v : World) → Go w v → Step w v
  begins : (w : World) (i : ℕ) → get_elem? w.mutators i ≡ some outside → Step w (enter i w)
  lulls : (w : World) → w.splitter ≡ resting → Step w (begin_lull w)
  stirs :
      (w : World) (i : ℕ)
      → get_elem? w.mutators i ≡ some waiting
      → Step w
          (record { gate = w.gate; mutators = set_elem i woken w.mutators; splitter = w.splitter })
  stirs_splitter :
      (w : World)
      → w.splitter ≡ calming
      → Step w (record { gate = w.gate; mutators = w.mutators; splitter = roused })

pub data Steps : World → World → Type 0 where
  here : (w : World) → Steps w w
  there : (w v u : World) → Steps w v → Step v u → Steps w u
