-- ===== src/Tablet/Logs/Shared.antt =====
-- A log that two tablets share after a split is replaced in both, in whichever order the tablets are
-- told: src/cc/kdi/tablet/Tablet.cc.
use kdi.Common.{
  ℕ, suc, ◌≡◌, refl, ap, ◌∙◌, true, false, not, ◌&&◌, Option, none, some, List, [], ◌∷◌, ◌==◌, leb,
  lookup, member, if◌then◌else◌, Bool-cases, inl, inr, arith,
}
use kdi.Chain.{Tablet, replace_fragments_internal}
use kdi.FragDag
use kdi.Tablet.Logs.{
  Logs, Server, World, modify, set_chain, with_dag, with_logs, erase_clone, erase_duplicate,
  set_split_pending, done, find_clone, is_split_pending, is_log_replacement, is_duplicate, chain_of,
  get_disk_size, check_split, finish_log, ignore_duplicate, replace_fragments,
}

pub lookup-modify-other :
    {V : Type 0} (t u : ℕ) (change : V → V) (m : List (ℕ × V))
    → (u == t) ≡ false
    → lookup u (modify t change m) ≡ lookup u m
lookup-modify-other t u change [] n = refl
lookup-modify-other t u change ((j, w) ∷ m) n = elim (Bool-cases (t == j)) [
  | inl s ↦ let other : (u == j) ≡ false = ground arith in rw (s, other) refl
  | inr s ↦ rw s (ap (λ o. if u == j then some w else o) (lookup-modify-other t u change m n))
]

-- What is read of a tablet's logs.
abbrev pub observe : {X : Type 0} → X → (Logs → X) → ℕ → List (ℕ × Logs) → X
observe default of u m = elim (lookup u m) [ none ↦ default | some l ↦ of l ]

-- A change that leaves what is read of the logs, and one of another tablet's logs.
pub observe-modify :
    {X : Type 0} (default : X) (of : Logs → X) (t u : ℕ) (change : Logs → Logs)
    (m : List (ℕ × Logs))
    → ((l : Logs) → of (change l) ≡ of l)
    → observe default of u (modify t change m) ≡ observe default of u m
observe-modify default of t u change [] same = refl
observe-modify default of t u change ((j, l) ∷ m) same =
    let ih = observe-modify default of t u change m same in
    elim (Bool-cases (t == j)) [
      | inl s ↦ elim (Bool-cases (u == j)) [
        | inl q ↦ rw (s, observe, q) (same l)
        | inr q ↦ rw (s, observe, q) refl
      ]
      | inr s ↦ elim (Bool-cases (u == j)) [
        | inl q ↦ rw (s, observe, q) refl
        | inr q ↦ rw (s, observe, q) ih
      ]
    ]

pub observe-other :
    {X : Type 0} (default : X) (of : Logs → X) (t u : ℕ) (change : Logs → Logs)
    (m : List (ℕ × Logs))
    → (u == t) ≡ false
    → observe default of u (modify t change m) ≡ observe default of u m
observe-other default of t u change m n =
    ap (λ (o : Option Logs). elim o [ none ↦ default | some l ↦ of l ])
      (lookup-modify-other t u change m n)

pub observe-changed :
    {X : Type 0} (default : X) (of : Logs → X) (t : ℕ) (change : Logs → Logs) (m : List (ℕ × Logs))
    → ((l : Logs) → of (change l) ≡ default)
    → observe default of t (modify t change m) ≡ default
observe-changed default of t change [] none_left = refl
observe-changed default of t change ((j, l) ∷ m) none_left = elim (Bool-cases (t == j)) [
  | inl s ↦ rw (s, observe, s) (none_left l)
  | inr s ↦ rw (s, observe, s) (observe-changed default of t change m none_left)
]

-- What the replacement of the log `f` looks at. The rest of a store has no part in it.
pub record Same (f : ℕ) (a b : Server) : Type 0 where
  pub chains : (u : ℕ) → lookup u a.dag.tablets ≡ lookup u b.dag.tablets
  pub clones : (u : ℕ) → find_clone u f a ≡ find_clone u f b
  pub duplicates : (u : ℕ) → is_duplicate u f a ≡ is_duplicate u f b

module _ (world : World) where
  check_split-Same : (f t : ℕ) (s : Server) → Same f (check_split world t s) s
  unfolding check_split
  check_split-Same f t s =
      let due =
        world.has_super_tablet t
        && (not (is_split_pending t s)
            && leb world.split_threshold (get_disk_size world t (chain_of world t s))) in
      elim (Bool-cases due) [
        | inl e ↦
            rw (e, check_split)
              (record {
                chains = λ u. refl;
                clones = λ u.
                    observe-modify none (λ l. lookup f l.cloned_logs) t u set_split_pending s.logs
                      (λ l. refl);
                duplicates = λ u.
                    observe-modify false (λ l. member f l.duplicated_logs) t u set_split_pending
                      s.logs (λ l. refl);
              })
        | inr e ↦
            rw (e, check_split)
              (record { chains = λ u. refl; clones = λ u. refl; duplicates = λ u. refl })
      ]

  finish_log-Same :
      (f t new : ℕ) (s : Server)
      → (after : Server) × (finish_log world t new (done s) ≡ done after) × Same f after s
  unfolding finish_log
  finish_log-Same f t new s =
      let grown = with_dag (FragDag.add_fragment t new s.dag) s in
      let same = check_split-Same f t grown in
      (
        check_split world t grown,
        refl,
        record {
          chains = λ u. same.chains u ∙ (unfold FragDag.add_fragment in refl);
          clones = same.clones;
          duplicates = same.duplicates;
        },
      )

  pub replace_here :
      (fuel t f new : ℕ) (s : Server) (tablet changed : Tablet)
      → is_log_replacement world (f ∷ []) ≡ true
      → lookup t s.dag.tablets ≡ some tablet
      → replace_fragments_internal tablet (f ∷ []) (some new) ≡ some changed
      → find_clone t f s ≡ none
      → (after : Server) × (replace_fragments world (suc fuel) t (f ∷ []) new s ≡ done after)
        × Same f after (with_dag (set_chain t changed s.dag) s)
  unfolding replace_fragments
  replace_here fuel t f new s tablet changed l e i c =
      let (after, q, same) = finish_log-Same f t new (with_dag (set_chain t changed s.dag) s) in
      (after, rw (e, i, l, c, replace_fragments) q, same)

  pub replace_forward :
      (fuel t clone f new : ℕ) (s mid : Server) (tablet changed : Tablet)
      → is_log_replacement world (f ∷ []) ≡ true
      → lookup t s.dag.tablets ≡ some tablet
      → replace_fragments_internal tablet (f ∷ []) (some new) ≡ some changed
      → find_clone t f s ≡ some clone
      → replace_fragments world fuel clone
          (f ∷ [])
          new
          (with_logs (modify t (erase_clone f) s.logs) (with_dag (set_chain t changed s.dag) s))
        ≡ done mid
      → (after : Server) × (replace_fragments world (suc fuel) t (f ∷ []) new s ≡ done after)
        × Same f after mid
  unfolding replace_fragments
  replace_forward fuel t clone f new s mid tablet changed l e i c m =
      let (after, q, same) = finish_log-Same f t new mid in
      (after, rw (e, i, l, c, replace_fragments, m) q, same)

  pub replace_again :
      (fuel t f new : ℕ) (s : Server) (tablet : Tablet)
      → is_log_replacement world (f ∷ []) ≡ true
      → lookup t s.dag.tablets ≡ some tablet
      → replace_fragments_internal tablet (f ∷ []) (some new) ≡ none
      → is_duplicate t f s ≡ true
      → replace_fragments world (suc fuel) t (f ∷ []) new s
        ≡ done (with_logs (modify t (erase_duplicate f) s.logs) s)
  unfolding replace_fragments ignore_duplicate
  replace_again fuel t f new s tablet l e i d =
      rw (e, i, l, d, replace_fragments, ignore_duplicate) refl

-- A log that the tablet `high` had when `low` was split off, and that was then added to `low` again:
-- the chains before and after the replacement of the log.
pub record IsShared (world : World) (high low f new : ℕ) (s : Server) : Type 0 where
  pub log : is_log_replacement world (f ∷ []) ≡ true
  pub other : (low == high) ≡ false
  pub high_chain : Tablet
  pub low_chain : Tablet
  pub high_after : Tablet
  pub low_after : Tablet
  pub high_has : lookup high s.dag.tablets ≡ some high_chain
  pub low_has : lookup low s.dag.tablets ≡ some low_chain
  pub high_replaced : replace_fragments_internal high_chain (f ∷ []) (some new) ≡ some high_after
  pub low_replaced : replace_fragments_internal low_chain (f ∷ []) (some new) ≡ some low_after
  pub once : replace_fragments_internal low_after (f ∷ []) (some new) ≡ none
  pub cloned : find_clone high f s ≡ some low
  pub last_clone : find_clone low f s ≡ none
  pub duplicate : is_duplicate low f s ≡ true

-- Both tablets have the new fragment, and nothing is left to be forwarded or ignored.
pub record IsSettled (high low f : ℕ) (high_after low_after : Tablet) (s : Server) : Type 0 where
  pub high_has : lookup high s.dag.tablets ≡ some high_after
  pub low_has : lookup low s.dag.tablets ≡ some low_after
  pub forwarded : find_clone high f s ≡ none
  pub ignored : is_duplicate low f s ≡ false
