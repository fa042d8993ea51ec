-- ===== src/SuperTablet/Interlock/Finish.antt =====
-- No mutation and no split waits for ever: every notification that a waiting thread needs is given,
-- src/cc/kdi/tablet/SuperTablet.cc.
use kdi.Common.{
  ℕ, zero, suc, ◌+◌, ◌-◌, ◌%◌, ◌^◌, ◌<◌, ◌≡◌, refl, sym, ap, subst, ◌∙◌, false, some, List, [], ◌∷◌,
  get_elem?, set_elem, total, total-set_elem, get_elem?-set_elem, find_weight, All, arith, ◌==◌,
  Bool-cases, inl, inr,
}
use kdi.SuperTablet.Interlock.{
  Mutator, outside, waiting, woken, mutating, Splitter, resting, calming, roused, lulled, World,
  notify_splitter, enter, leave, calm, end_lull, Go, resumes, leaves, looks, ends, Goes, stays,
  onward, Steps,
}
use kdi.SuperTablet.Interlock.Quiet.{
  weight, asleep, IsQuiet, notify_mutators_lem, at_splitter, Go-IsQuiet, Steps-IsQuiet, start,
  start-IsQuiet,
}

-- A state with a property that the threads get to by going on.
abbrev pub Reaches : (World → Type 0) → World → Type 0
Reaches P w = (v : World) × Goes w v × P v

Goes-trans : (w v u : World) → Goes w v → Goes v u → Goes w u
Goes-trans w v u (stays _) after = after
Goes-trans w v u (onward _ t _ go before) after = onward w t u go (Goes-trans t v u before after)

before : (P : World → Type 0) (w v : World) → Go w v → Reaches P v → Reaches P w
before P w v go (u, after, holds) = (u, onward w v u go after, holds)

abbrev Stopped : World → Type 0
Stopped w = IsQuiet w × (total weight w.mutators ≡ 0)

abbrev Resting : World → Type 0
Resting w = IsQuiet w × (total weight w.mutators ≡ 0) × (w.splitter ≡ resting)

-- Every thread is outside.
abbrev pub Finished : World → Type 0
Finished w = All (λ m. m ≡ outside) w.mutators × (w.splitter ≡ resting)

in_mutation : (m : Mutator) (k : ℕ) → weight m ≡ suc k → m ≡ mutating
in_mutation outside k e = absurd (omega arith)
in_mutation waiting k e = absurd (omega arith)
in_mutation woken k e = absurd (omega arith)
in_mutation mutating k e = refl

-- The threads that are in a mutation finish it.
stop : (n : ℕ) (w : World) → total weight w.mutators ≡ n → IsQuiet w → Reaches Stopped w
stop zero w e h = (w, stays w, (h, e))
stop (suc n) w e h =
    let (i, m, k, found, busy) = find_weight weight n w.mutators e in
    let same : m ≡ mutating = in_mutation m k busy in
    let there_is : get_elem? w.mutators i ≡ some mutating = found ∙ ap some same in
    let less = total-set_elem weight i outside mutating w.mutators there_is in
    before Stopped w (leave i w) (leaves w i there_is) (
      stop n (leave i w) (unfold leave in omega arith)
        (Go-IsQuiet w (leave i w) (leaves w i there_is) h))

-- The lull is got and ended.
ended :
    (w : World) → w.splitter ≡ lulled → IsQuiet w → total weight w.mutators ≡ 0 → Reaches Resting w
ended w s h e =
    let (size, same, awake) = notify_mutators_lem w.mutators in
    before Resting w (end_lull w) (ends w s) (
      end_lull w,
      stays (end_lull w),
      (
        Go-IsQuiet w (end_lull w) (ends w s) h,
        unfold end_lull in (same ∙ e),
        unfold end_lull in refl,
      ),
    )

rest_from :
    (s : Splitter) (w : World)
    → w.splitter ≡ s
    → IsQuiet w
    → total weight w.mutators ≡ 0
    → Reaches Resting w
rest_from resting w s h e = (w, stays w, (h, e, s))
rest_from lulled w s h e = ended w s h e
rest_from calming w s h e =
    let some_pending = (at_splitter calming w s h).1 in
    let pending = h.pending in absurd (omega arith)
rest_from roused w s h e =
    let none_pending : w.gate.mutations_pending ≡ 0 = h.pending ∙ e in
    let in_lull : (calm w).splitter ≡ lulled = unfold calm in rw none_pending refl in
    before Resting w (calm w) (looks w s)
      (ended (calm w) in_lull (Go-IsQuiet w (calm w) (looks w s) h) (unfold calm in e))

abbrev awake : Mutator → ℕ
awake outside = 0
awake waiting = 0
awake woken = 1
awake mutating = 0

is_woken : (m : Mutator) (k : ℕ) → awake m ≡ suc k → m ≡ woken
is_woken outside k e = absurd (omega arith)
is_woken waiting k e = absurd (omega arith)
is_woken woken k e = refl
is_woken mutating k e = absurd (omega arith)

All-outside :
    (l : List Mutator)
    → total weight l ≡ 0
    → total asleep l ≡ 0
    → total awake l ≡ 0
    → All (λ m. m ≡ outside) l
All-outside [] a b c = tt
All-outside (outside ∷ l) a b c = (refl, All-outside l (omega arith) (omega arith) (omega arith))
All-outside (waiting ∷ l) a b c = absurd (omega arith)
All-outside (woken ∷ l) a b c = absurd (omega arith)
All-outside (mutating ∷ l) a b c = absurd (omega arith)

-- A thread that has been woken gets in once mutations are not blocked.
enter_open :
    (i : ℕ) (w : World)
    → w.gate.mutations_blocked ≡ false
    → ((enter i w).mutators ≡ set_elem i mutating w.mutators) × ((enter i w).splitter ≡ w.splitter)
unfolding enter
enter_open i w b = rw (b, enter) (refl, refl)

leave_resting : (i : ℕ) (w : World) → w.splitter ≡ resting → (leave i w).splitter ≡ resting
unfolding leave notify_splitter
leave_resting i w e = elim (Bool-cases ((w.gate.mutations_pending + (2 ^ 64 - 1)) % 2 ^ 64 == 0)) [
  | inl z ↦ rw (e, z) refl
  | inr z ↦ rw (e, z) refl
]

-- The threads that have been woken do their mutations one after the other.
finish : (n : ℕ) (w : World) → total awake w.mutators ≡ n → Resting w → Reaches Finished w
finish zero w e h =
    let free : w.gate.mutations_blocked ≡ false = at_splitter resting w h.2 h.0 in
    (w, stays w, (All-outside w.mutators h.1 (h.0.sleeping free) e, h.2))
finish (suc n) w e h =
    let (i, m, k, found, b) = find_weight awake n w.mutators e in
    let idle = h.1 in
    let same : m ≡ woken = is_woken m k b in
    let there_is : get_elem? w.mutators i ≡ some woken = found ∙ ap some same in
    let free : w.gate.mutations_blocked ≡ false = at_splitter resting w h.2 h.0 in
    let (inside, rests) = enter_open i w free in
    let goes : Go w (enter i w) = resumes w i there_is in
    let is_in : get_elem? (enter i w).mutators i ≡ some mutating =
      subst (λ l. get_elem? l i ≡ some mutating) (sym inside)
        (get_elem?-set_elem i mutating woken w.mutators there_is) in
    let out : Go (enter i w) (leave i (enter i w)) = leaves (enter i w) i is_in in
    let left : (leave i (enter i w)).mutators ≡ set_elem i outside (enter i w).mutators =
      unfold leave in refl in
    let moves : (weigh : Mutator → ℕ)
        → total weigh (leave i (enter i w)).mutators + weigh woken
          ≡ total weigh w.mutators + weigh outside =
      λ weigh.
        let one = total-set_elem weigh i mutating woken w.mutators there_is in
        let two = total-set_elem weigh i outside mutating (enter i w).mutators is_in in
        let same_in = ap (total weigh) inside in
        let same_out = ap (total weigh) left in omega arith in
    let fewer = moves awake in
    let none_in = moves weight in
    before Finished w (enter i w) goes (
      before Finished (enter i w) (leave i (enter i w)) out (
        finish n (leave i (enter i w)) (omega arith) (
          Go-IsQuiet (enter i w) (leave i (enter i w)) out (Go-IsQuiet w (enter i w) goes h.0),
          omega arith,
          leave_resting i (enter i w) (rests ∙ h.2),
        )))

-- Whatever state fewer than 2 ^ 64 threads that mutate and the one that splits have got into, they
-- can go on, without a new call and without a wake-up that no notification gives, until each of them
-- is outside: every thread that waits is notified when it has to be.
pub finish_lem : (n : ℕ) (w : World) → n < 2 ^ 64 → Steps (start n) w → Reaches Finished w
finish_lem n w b steps =
    let quiet = Steps-IsQuiet (start n) w steps (start-IsQuiet n b) in
    let (t, to_stop, (h, none_in)) = stop (total weight w.mutators) w refl quiet in
    let (u, to_rest, at_rest) = rest_from t.splitter t refl h none_in in
    let (v, to_finish, done) = finish (total awake u.mutators) u refl at_rest in
    (v, Goes-trans w t v to_stop (Goes-trans t u v to_rest to_finish), done)
