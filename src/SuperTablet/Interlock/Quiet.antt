-- ===== src/SuperTablet/Interlock/Quiet.antt =====
-- No mutation is under way during a split: src/cc/kdi/tablet/SuperTablet.cc.
use kdi.Common.{
  ℕ, zero, suc, ◌+◌, ◌-◌, ◌^◌, ◌%◌, ◌<◌, ◌≤◌, ◌≡◌, refl, sym, ap, subst, ◌∙◌, Bool, true, false,
  some, List, [], ◌∷◌, ◌==◌, if◌then◌else◌, length, replicate, get_elem?, set_elem, total,
  total-set_elem, length-set_elem, All, Bool-cases, inl, inr, arith,
}
use kdi.SuperTablet.Interlock.{
  Mutator, outside, waiting, woken, mutating, Splitter, resting, calming, roused, lulled, World,
  notify_mutators, notify_splitter, enter, leave, calm, set_blocked, begin_lull, end_lull, Go,
  resumes, leaves, looks, ends, Step, goes_on, begins, lulls, stirs, stirs_splitter, Steps, here,
  there,
}

abbrev pub weight : Mutator → ℕ
weight outside = 0
weight waiting = 0
weight woken = 0
weight mutating = 1

-- The threads that nothing has woken.
abbrev pub asleep : Mutator → ℕ
asleep outside = 0
asleep waiting = 1
asleep woken = 0
asleep mutating = 0

-- What the splitter's place says of the gate.
abbrev pub Agrees : Splitter → Bool → ℕ → Type 0
Agrees resting blocked pending = blocked ≡ false
Agrees calming blocked pending = (blocked ≡ true) × (0 < pending)
Agrees roused blocked pending = blocked ≡ true
Agrees lulled blocked pending = (blocked ≡ true) × (pending ≡ 0)

-- A thread sleeps only while mutations are blocked, and the splitter only while one is pending.
pub record IsQuiet (w : World) : Type 0 where
  pub few : length w.mutators < 2 ^ 64
  pub pending : w.gate.mutations_pending ≡ total weight w.mutators
  pub sleeping : w.gate.mutations_blocked ≡ false → total asleep w.mutators ≡ 0
  pub agrees : Agrees w.splitter w.gate.mutations_blocked w.gate.mutations_pending

total-length : (l : List Mutator) → total weight l ≤ length l
total-length [] = omega arith
total-length (outside ∷ l) = let ih = total-length l in omega arith
total-length (waiting ∷ l) = let ih = total-length l in omega arith
total-length (woken ∷ l) = let ih = total-length l in omega arith
total-length (mutating ∷ l) = let ih = total-length l in omega arith

-- A notification leaves the numbers of threads as they are, and no thread asleep.
pub notify_mutators_lem :
    (l : List Mutator)
    → (length (notify_mutators l) ≡ length l)
      × (total weight (notify_mutators l) ≡ total weight l)
      × (total asleep (notify_mutators l) ≡ 0)
unfolding notify_mutators
notify_mutators_lem [] = (refl, refl, refl)
notify_mutators_lem (outside ∷ l) =
    let (a, b, c) = notify_mutators_lem l in (omega arith, omega arith, omega arith)
notify_mutators_lem (waiting ∷ l) =
    let (a, b, c) = notify_mutators_lem l in (omega arith, omega arith, omega arith)
notify_mutators_lem (woken ∷ l) =
    let (a, b, c) = notify_mutators_lem l in (omega arith, omega arith, omega arith)
notify_mutators_lem (mutating ∷ l) =
    let (a, b, c) = notify_mutators_lem l in (omega arith, omega arith, omega arith)

-- An interlock that is let in finds the splitter outside.
let_in : (s : Splitter) (b : Bool) (n m : ℕ) → b ≡ false → Agrees s b n → Agrees s b m
let_in resting b n m f a = a
let_in calming b n m f a = let t = a.0 in absurd (ground arith)
let_in roused b n m f a = absurd (ground arith)
let_in lulled b n m f a = let t = a.0 in absurd (ground arith)

-- One that goes leaves none pending if none was, and wakes the splitter if it was the last.
let_out :
    (s : Splitter) (b : Bool) (n m : ℕ)
    → (n ≡ 0 → m ≡ 0)
    → Agrees s b n
    → Agrees (if m == 0 then notify_splitter s else s) b m
unfolding notify_splitter
let_out resting b n m f a = elim (Bool-cases (m == 0)) [ inl e ↦ rw e a | inr e ↦ rw e a ]
let_out calming b n m f a = elim (Bool-cases (m == 0)) [
  | inl e ↦ rw e a.0
  | inr e ↦ rw e (a.0, ground arith)
]
let_out roused b n m f a = elim (Bool-cases (m == 0)) [ inl e ↦ rw e a | inr e ↦ rw e a ]
let_out lulled b n m f a = elim (Bool-cases (m == 0)) [
  | inl e ↦ rw e (a.0, f a.1)
  | inr e ↦ rw e (a.0, f a.1)
]

enter-IsQuiet :
    (i : ℕ) (m : Mutator) (w : World)
    → get_elem? w.mutators i ≡ some m
    → weight m ≡ 0
    → asleep m ≡ 0
    → IsQuiet w
    → IsQuiet (enter i w)
unfolding enter
enter-IsQuiet i m w e z a h = elim (Bool-cases w.gate.mutations_blocked) [
  | inl b ↦
      let same = total-set_elem weight i waiting m w.mutators e in
      let size = length-set_elem i waiting w.mutators in
      let few = h.few in
      let pending = h.pending in
      let agrees = h.agrees in
      rw (b, enter)
        (record {
          few = omega arith;
          pending = omega arith;
          sleeping = λ c. absurd (ground arith);
          agrees = subst (λ c. Agrees w.splitter c w.gate.mutations_pending) b agrees;
        })
  | inr b ↦
      let more = total-set_elem weight i mutating m w.mutators e in
      let awake = total-set_elem asleep i mutating m w.mutators e in
      let size = length-set_elem i mutating w.mutators in
      let all = total-length (set_elem i mutating w.mutators) in
      let few = h.few in
      let pending = h.pending in
      let none_sleeps = h.sleeping b in
      let agrees = h.agrees in
      rw (b, enter)
        (record {
          few = omega arith;
          pending = omega arith;
          sleeping = λ c. omega arith;
          agrees =
              subst (λ c. Agrees w.splitter c ((w.gate.mutations_pending + 1) % 2 ^ 64)) b
                (let_in w.splitter w.gate.mutations_blocked w.gate.mutations_pending
                  ((w.gate.mutations_pending + 1) % 2 ^ 64) b agrees);
        })
]

leave-IsQuiet :
    (i : ℕ) (w : World) → get_elem? w.mutators i ≡ some mutating → IsQuiet w → IsQuiet (leave i w)
unfolding leave
leave-IsQuiet i w e h =
    let less = total-set_elem weight i outside mutating w.mutators e in
    let awake = total-set_elem asleep i outside mutating w.mutators e in
    let size = length-set_elem i outside w.mutators in
    let all = total-length w.mutators in
    let few = h.few in
    let pending = h.pending in
    record {
      few = omega arith;
      pending = omega arith;
      sleeping = λ c. let none_sleeps = h.sleeping c in omega arith;
      agrees =
          let_out w.splitter w.gate.mutations_blocked w.gate.mutations_pending
            ((w.gate.mutations_pending + (2 ^ 64 - 1)) % 2 ^ 64) (λ z. absurd (omega arith))
            h.agrees;
    }

calm-IsQuiet :
    (w : World)
    → w.gate.mutations_blocked ≡ true
    → length w.mutators < 2 ^ 64
    → w.gate.mutations_pending ≡ total weight w.mutators
    → IsQuiet (calm w)
unfolding calm
calm-IsQuiet w b few pending = elim (Bool-cases (w.gate.mutations_pending == 0)) [
  | inl e ↦
      rw (e, calm)
        (record {
          few = few;
          pending = pending;
          sleeping = λ c. absurd (ground arith);
          agrees = (b, ground arith);
        })
  | inr e ↦
      rw (e, calm)
        (record {
          few = few;
          pending = pending;
          sleeping = λ c. absurd (ground arith);
          agrees = (b, ground arith);
        })
]

end_lull-IsQuiet : (w : World) → IsQuiet w → IsQuiet (end_lull w)
unfolding end_lull set_blocked
end_lull-IsQuiet w h =
    let (size, same, awake) = notify_mutators_lem w.mutators in
    let few = h.few in
    let pending = h.pending in
    record { few = omega arith; pending = omega arith; sleeping = λ c. awake; agrees = refl }

pub at_splitter :
    (s : Splitter) (w : World)
    → w.splitter ≡ s
    → IsQuiet w
    → Agrees s w.gate.mutations_blocked w.gate.mutations_pending
at_splitter s w e h =
    subst (λ r. Agrees r w.gate.mutations_blocked w.gate.mutations_pending) e h.agrees

pub Go-IsQuiet : (w v : World) → Go w v → IsQuiet w → IsQuiet v
Go-IsQuiet w v (resumes _ i e) h = enter-IsQuiet i woken w e refl refl h
Go-IsQuiet w v (leaves _ i e) h = leave-IsQuiet i w e h
Go-IsQuiet w v (looks _ e) h = calm-IsQuiet w (at_splitter roused w e h) h.few h.pending
Go-IsQuiet w v (ends _ e) h = end_lull-IsQuiet w h

Step-IsQuiet : (w v : World) → Step w v → IsQuiet w → IsQuiet v
unfolding begin_lull set_blocked
Step-IsQuiet w v (goes_on _ _ go) h = Go-IsQuiet w v go h
Step-IsQuiet w v (begins _ i e) h = enter-IsQuiet i outside w e refl refl h
Step-IsQuiet w v (lulls _ e) h = calm-IsQuiet (set_blocked true w) refl h.few h.pending
Step-IsQuiet w v (stirs _ i e) h =
    let same = total-set_elem weight i woken waiting w.mutators e in
    let awake = total-set_elem asleep i woken waiting w.mutators e in
    let size = length-set_elem i woken w.mutators in
    let few = h.few in
    let pending = h.pending in
    record {
      few = omega arith;
      pending = omega arith;
      sleeping = λ c. let none_sleeps = h.sleeping c in omega arith;
      agrees = h.agrees;
    }
Step-IsQuiet w v (stirs_splitter _ e) h = record {
  few = h.few;
  pending = h.pending;
  sleeping = h.sleeping;
  agrees = (at_splitter calming w e h).0;
}

-- The gate of a super tablet that has just been constructed, with threads outside.
abbrev pub start : ℕ → World
start n = record {
  gate = record { mutations_blocked = false; mutations_pending = 0 };
  mutators = replicate n outside;
  splitter = resting;
}

pub start-IsQuiet : (n : ℕ) → n < 2 ^ 64 → IsQuiet (start n)
start-IsQuiet n b = record {
  few = let e = size n in omega arith;
  pending = sym (none_starts n);
  sleeping = λ c. none_sleeps n;
  agrees = refl;
}
  where
    size : (k : ℕ) → length (replicate k outside) ≡ k
    size zero = refl
    size (suc k) = ap suc (size k)

    none_starts : (k : ℕ) → total weight (replicate k outside) ≡ 0
    none_starts zero = refl
    none_starts (suc k) = let ih = none_starts k in omega arith

    none_sleeps : (k : ℕ) → total asleep (replicate k outside) ≡ 0
    none_sleeps zero = refl
    none_sleeps (suc k) = let ih = none_sleeps k in omega arith

pub Steps-IsQuiet : (w v : World) → Steps w v → IsQuiet w → IsQuiet v
Steps-IsQuiet w v (here _) h = h
Steps-IsQuiet w v (there _ t _ before last) h = Step-IsQuiet t v last (Steps-IsQuiet w t before h)

none_mutates : (l : List Mutator) → total weight l ≡ 0 → All (λ m. weight m ≡ 0) l
none_mutates [] e = tt
none_mutates (m ∷ l) e = (omega arith, none_mutates l (omega arith))

-- However the threads' steps are interleaved, of fewer than 2 ^ 64 threads that mutate and the one
-- that splits, none of them is in a mutation while the lull is held, and the count of pending
-- mutations is the number of threads that are in one.
pub lulled_lem :
    (n : ℕ) (w : World)
    → n < 2 ^ 64
    → Steps (start n) w
    → (w.gate.mutations_pending ≡ total weight w.mutators)
      × (w.splitter ≡ lulled → All (λ m. weight m ≡ 0) w.mutators)
lulled_lem n w b steps =
    let h = Steps-IsQuiet (start n) w steps (start-IsQuiet n b) in
    (
      h.pending,
      λ e.
          let a =
            subst (λ s. Agrees s w.gate.mutations_blocked w.gate.mutations_pending) e h.agrees in
          none_mutates w.mutators (sym h.pending ∙ a.1),
    )
