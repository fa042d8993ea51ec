-- ===== src/Tablet/Logs/Append.antt =====
-- Adding a log to a tablet keeps the logs behind the other fragments, and no fragment twice:
-- src/cc/kdi/tablet/Tablet.cc.
use kdi.Common.{
  ℕ, ◌≡◌, refl, sym, ap, subst, ◌∙◌, ◌⊎◌, true, false, ◌||◌, some, List, [], ◌∷◌, ◌++◌, ◌==◌,
  ==_iff, member, member-insert, lookup, Distinct, All, All-append, Bool-cases, inl, inr, arith,
}
use kdi.Chain.{Tablet}
use kdi.Tablet.Logs.{
  Logs, Server, World, modify, set_chain, with_dag, with_logs, Search, found, all_logs, stopped,
  search_back, search_log, add_fragment, insert_duplicate, is_duplicate, chain_of,
}

pub lookup-modify :
    {V : Type 0} (t : ℕ) (change : V → V) (m : List (ℕ × V)) (v : V)
    → lookup t m ≡ some v
    → lookup t (modify t change m) ≡ some (change v)
lookup-modify t change [] v e = absurd (ground arith)
lookup-modify t change ((u, w) ∷ m) v e = elim (Bool-cases (t == u)) [
  | inl s ↦
      rw (s, s)
        (ap some (ap change (let q : some w ≡ some v = rw s at e in let r : w ≡ v = cc in r)))
  | inr s ↦ rw (s, s) (lookup-modify t change m v (rw s at e))
]

member-append : (f g : ℕ) (s : List ℕ) → member g (s ++ (f ∷ [])) ≡ (member g s || (g == f))
member-append f g [] = ground arith
member-append f g (h ∷ s) = let ih = member-append f g s in ground arith

Distinct-append : (f : ℕ) (s : List ℕ) → Distinct s → member f s ≡ false → Distinct (s ++ (f ∷ []))
Distinct-append f [] d m = (refl, tt)
Distinct-append f (g ∷ s) d m =
    let head = d.0 in
    let more = member-append f g s in (ground arith, Distinct-append f s d.1 (ground arith))

module _ (world : World) where
  abbrev pub IsLog : ℕ → Type 0
  IsLog f = world.is_immutable f ≡ false

  -- Behind a log there are only logs.
  abbrev pub LogsLast : List ℕ → Type 0
  LogsLast [] = Unit
  LogsLast (f ∷ s) = (IsLog f → All IsLog s) × LogsLast s

  LogsLast-append : (f : ℕ) (s : List ℕ) → IsLog f → LogsLast s → LogsLast (s ++ (f ∷ []))
  LogsLast-append f [] l h = ((λ i. tt), tt)
  LogsLast-append f (g ∷ s) l h =
      ((λ i. All-append IsLog s (f ∷ []) (h.0 i) (l, tt)), LogsLast-append f s l h.1)

  search_logs :
      (f : ℕ) (s : List ℕ)
      → All IsLog s
      → (search_log world f s ≡ found) ⊎ (search_log world f s ≡ all_logs)
  search_logs f [] a = inr refl
  search_logs f (g ∷ s) a =
      let log = a.0 in
      elim (search_logs f s a.1) [
        | inl e ↦ inl (rw e refl)
        | inr e ↦ elim (Bool-cases (g == f)) [
          | inl q ↦ inl (rw (e, log, q) refl)
          | inr q ↦ inr (rw (e, log, q) refl)
        ]
      ]

  search_log-member :
      (f : ℕ) (s : List ℕ) → IsLog f → LogsLast s → member f s ≡ true → search_log world f s ≡ found
  search_log-member f [] l h m = absurd (ground arith)
  search_log-member f (g ∷ s) l h m = elim (Bool-cases (f == g)) [
    | inl q ↦
        let same = (==_iff f g).0 q in
        let log : IsLog g = rw (← same) l in
        let other : (g == f) ≡ true = ground arith in
        elim (search_logs f s (h.0 log)) [ inl e ↦ rw e refl | inr e ↦ rw (e, log, other) refl ]
    | inr q ↦ rw (search_log-member f s l h.1 (rw q at m)) refl
  ]

  search_log-found : (f : ℕ) (s : List ℕ) → search_log world f s ≡ found → member f s ≡ true
  search_log-found f [] e = absurd cc
  search_log-found f (g ∷ s) e = back (search_log world f s) refl e (search_log-found f s)
    where
      back :
          (r : Search)
          → search_log world f s ≡ r
          → search_back world f g r ≡ found
          → (search_log world f s ≡ found → member f s ≡ true)
          → member f (g ∷ s) ≡ true
      back found q p later = let m = later q in ground arith
      back stopped q p later = absurd cc
      back all_logs q p later = elim (Bool-cases (world.is_immutable g)) [
        | inl i ↦ absurd (let r : stopped ≡ found = rw i at p in cc)
        | inr i ↦ elim (Bool-cases (g == f)) [
          | inl k ↦ ground arith
          | inr k ↦ absurd (let r : all_logs ≡ found = rw (i, k) at p in cc)
        ]
      ]

  chain_of-lookup :
      (t : ℕ) (s : Server) (tablet : Tablet)
      → lookup t s.dag.tablets ≡ some tablet
      → chain_of world t s ≡ tablet.fragments
  chain_of-lookup t s tablet e = rw (chain_of, e) refl

  is_duplicate-lookup :
      (t f : ℕ) (s : Server) (logs : Logs)
      → lookup t s.logs ≡ some logs
      → is_duplicate t f s ≡ member f logs.duplicated_logs
  is_duplicate-lookup t f s logs e = rw (is_duplicate, e) refl

  abbrev noting : ℕ → ℕ → Server → Server
  noting t f s = with_logs (modify t (insert_duplicate f) s.logs) s

  appended : ℕ → Tablet → Tablet
  appended f tablet = record {
    fragments = tablet.fragments ++ (f ∷ []);
    references = tablet.references ++ (f ∷ []);
    dead_files = tablet.dead_files;
  }

  add_fragment-found :
      (t f : ℕ) (s : Server) (tablet : Tablet)
      → lookup t s.dag.tablets ≡ some tablet
      → search_log world f tablet.fragments ≡ found
      → add_fragment world t f s ≡ some (with_logs (modify t (insert_duplicate f) s.logs) s)
  unfolding add_fragment
  add_fragment-found t f s tablet e q = rw (e, q, add_fragment) refl

  add_fragment-new :
      (t f : ℕ) (s : Server) (tablet : Tablet) (r : Search)
      → lookup t s.dag.tablets ≡ some tablet
      → search_log world f tablet.fragments ≡ r
      → (r ≡ found → ⊥)
      → add_fragment world t f s ≡ some (with_dag (set_chain t (appended f tablet) s.dag) s)
  unfolding appended add_fragment
  add_fragment-new t f s tablet found e q n = absurd (n refl)
  add_fragment-new t f s tablet all_logs e q n = rw (e, q, add_fragment) refl
  add_fragment-new t f s tablet stopped e q n = rw (e, q, add_fragment) refl

  -- Adding a log to a tablet whose logs stand last and whose chain has no fragment twice keeps both
  -- so. The chain then has the log and what it had before, and a log that it had already is noted
  -- as added twice.
  pub add_fragment_lem :
      (t f : ℕ) (s : Server) (tablet : Tablet) (logs : Logs)
      → lookup t s.dag.tablets ≡ some tablet
      → lookup t s.logs ≡ some logs
      → IsLog f
      → LogsLast tablet.fragments
      → Distinct tablet.fragments
      → (after : Server) × (add_fragment world t f s ≡ some after)
        × LogsLast (chain_of world t after)
        × Distinct (chain_of world t after)
        × ((g : ℕ) → member g (chain_of world t after) ≡ (member g tablet.fragments || (g == f)))
        × (is_duplicate t f after ≡ (member f tablet.fragments || is_duplicate t f s))
  unfolding appended
  add_fragment_lem t f s tablet logs e k l h d = elim (Bool-cases (member f tablet.fragments)) [
    | inl m ↦
        let noted = lookup-modify t (insert_duplicate f) s.logs logs k in
        (
          noting t f s,
          add_fragment-found t f s tablet e (search_log-member f tablet.fragments l h m),
          subst LogsLast (sym (chain_of-lookup t (noting t f s) tablet e)) h,
          subst Distinct (sym (chain_of-lookup t (noting t f s) tablet e)) d,
          λ g.
              ap (member g) (chain_of-lookup t (noting t f s) tablet e)
              ∙ elim (Bool-cases (g == f)) [
                | inl q ↦ let same = (==_iff g f).0 q in rw (q, same, m) refl
                | inr q ↦ rw q (ground arith)
              ],
          is_duplicate-lookup t f (noting t f s) (insert_duplicate f logs) noted
              ∙ rw m (let i = member-insert f f logs.duplicated_logs in ground arith),
        )
    | inr m ↦
        let changed = lookup-modify t (λ old. appended f tablet) s.dag.tablets tablet e in
        let after = with_dag (set_chain t (appended f tablet) s.dag) s in
        let chain = chain_of-lookup t after (appended f tablet) changed in
        (
          after,
          add_fragment-new t f s tablet (search_log world f tablet.fragments) e refl
              (λ q. let n = search_log-found f tablet.fragments q in ground arith),
          subst LogsLast (sym chain) (LogsLast-append f tablet.fragments l h),
          subst Distinct (sym chain) (Distinct-append f tablet.fragments d m),
          λ g. ap (member g) chain ∙ member-append f g tablet.fragments,
          rw m refl,
        )
  ]
