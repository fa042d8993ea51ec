-- ===== src/Tablet/Logs/Forward.antt =====
-- The forwarding of replacements to the tablets that share a log ends: src/cc/kdi/tablet/Tablet.cc.
use kdi.Common.{
  ℕ, zero, suc, ◌<◌, ◌≤◌, ◌≡◌, ◌⊎◌, refl, none, some, List, [], ◌∷◌, length, ◌==◌, lookup, remove,
  Bool-cases, Option-cases, inl, inr, arith,
}
use kdi.Chain.{replace_fragments_internal}
use kdi.Tablet.Logs.{
  Logs, Server, World, modify, set_chain, with_dag, with_logs, erase_clone, Replaced, done, raised,
  out_of_fuel, find_clone, is_log_replacement, is_duplicate, finish_log, ignore_duplicate,
  replace_fragments, count_clones, replace,
}

abbrev Ends : Replaced → Type 0
Ends (done s) = Unit
Ends raised = Unit
Ends out_of_fuel = ⊥

length-remove : (f : ℕ) (m : List (ℕ × ℕ)) → length (remove f m) ≤ length m
length-remove f [] = omega arith
length-remove f ((g, c) ∷ m) = let ih = length-remove f m in ground arith

length-remove-found :
    (f c : ℕ) (m : List (ℕ × ℕ)) → lookup f m ≡ some c → length (remove f m) < length m
length-remove-found f c [] e = absurd (ground arith)
length-remove-found f c ((g, d) ∷ m) e = elim (Bool-cases (f == g)) [
  | inl s ↦ rw s (let b = length-remove f m in omega arith)
  | inr s ↦ rw s (let b = length-remove-found f c m (rw s at e) in omega arith)
]

pub count_clones-modify :
    (t f c : ℕ) (m : List (ℕ × Logs))
    → elim (lookup t m) [ none ↦ none | some l ↦ lookup f l.cloned_logs ] ≡ some c
    → count_clones (modify t (erase_clone f) m) < count_clones m
count_clones-modify t f c [] e = absurd (ground arith)
count_clones-modify t f c ((u, l) ∷ m) e = elim (Bool-cases (t == u)) [
  | inl s ↦ rw s (let b = length-remove-found f c l.cloned_logs (rw s at e) in omega arith)
  | inr s ↦ rw s (let b = count_clones-modify t f c m (rw s at e) in omega arith)
]

module _ (world : World) where
  finish_log-Ends : (t new : ℕ) (r : Replaced) → Ends r → Ends (finish_log world t new r)
  unfolding finish_log
  finish_log-Ends t new (done s) e = tt
  finish_log-Ends t new raised e = tt
  finish_log-Ends t new out_of_fuel e = e

  ignore_duplicate-Ends : (t f : ℕ) (s : Server) → Ends (ignore_duplicate world t f s)
  unfolding ignore_duplicate
  ignore_duplicate-Ends t f s = elim (Bool-cases (is_duplicate t f s)) [
    | inl e ↦ rw e tt
    | inr e ↦ rw e tt
  ]

  replace_fragments-Ends :
      (fuel t : ℕ) (old : List ℕ) (new : ℕ) (s : Server)
      → count_clones s.logs < fuel
      → Ends (replace_fragments world fuel t old new s)
  unfolding replace_fragments
  replace_fragments-Ends zero t old new s b = absurd (omega arith)
  replace_fragments-Ends (suc fuel) t [] new s b = tt
  replace_fragments-Ends (suc fuel) t (f ∷ old) new s b =
      elim (Option-cases (lookup t s.dag.tablets)) [
        | inl e ↦ rw (e, replace_fragments) tt
        | inr (tablet, e) ↦
            elim (Option-cases (replace_fragments_internal tablet (f ∷ old) (some new))) [
              | inl n ↦ elim (Bool-cases (is_log_replacement world (f ∷ old))) [
                | inl l ↦ rw (e, n, l, replace_fragments) (ignore_duplicate-Ends t f s)
                | inr l ↦ rw (e, n, l, replace_fragments) tt
              ]
              | inr (changed, n) ↦
                  let next = with_dag (set_chain t changed s.dag) s in
                  elim (Bool-cases (is_log_replacement world (f ∷ old))) [
                    | inl l ↦ elim (Option-cases (find_clone t f s)) [
                      | inl c ↦
                          rw (e, n, l, c, replace_fragments) (finish_log-Ends t new (done next) tt)
                      | inr (clone, c) ↦
                          let fewer = count_clones-modify t f clone s.logs c in
                          rw (e, n, l, c, replace_fragments)
                            (finish_log-Ends t new
                              (replace_fragments world fuel clone (f ∷ old) new
                                (with_logs (modify t (erase_clone f) s.logs) next))
                              (replace_fragments-Ends fuel clone (f ∷ old) new
                                (with_logs (modify t (erase_clone f) s.logs) next) (omega arith)))
                    ]
                    | inr l ↦ rw (e, n, l, replace_fragments) tt
                  ]
            ]
      ]

  -- A replacement of fragments comes to an end, with the store after it or with a raised error,
  -- however the tablets that have cloned a log forward it to each other: each forwarding takes a
  -- clone away, so that one round more than there are clones is enough.
  pub replace_ends :
      (t : ℕ) (old : List ℕ) (new : ℕ) (s : Server)
      → ((after : Server) × (replace world t old new s ≡ done after))
        ⊎ (replace world t old new s ≡ raised)
  unfolding replace
  replace_ends t old new s =
      ended (replace_fragments world (suc (count_clones s.logs)) t old new s) refl
        (replace_fragments-Ends (suc (count_clones s.logs)) t old new s (omega arith))
    where
      ended :
          (r : Replaced)
          → replace world t old new s ≡ r
          → Ends r
          → ((after : Server) × (replace world t old new s ≡ done after))
            ⊎ (replace world t old new s ≡ raised)
      ended (done after) e h = inl (after, e)
      ended raised e h = inr e
      ended out_of_fuel e h = absurd h
