-- ===== src/Tablet/Split/Clones.antt =====
-- The fragments and the shared logs of a tablet and its clone: src/cc/kdi/tablet/Tablet.cc.

use kdi.Common.{
  ℕ, ◌≡◌, refl, ap, ◌∙◌, true, false, not, ◌&&◌, some, List, [], ◌∷◌, ◌==◌, ==_iff, if◌then◌else◌,
  member, lookup, assign, lookup-assign, All, Bool-cases, inl, inr, arith,
}
use kdi.Chain.{Tablet}
use kdi.FragDag
use kdi.Tablet.Logs.{Logs, Server, World, find_clone, is_duplicate}
use kdi.Tablet.Logs.Append.{IsLog, LogsLast, lookup-modify}
use kdi.Tablet.Split.{add_immutable, cloned, share_logs, split_logs, split_server, clone_tablet}

module _ (world : World) where
  share_logs-All :
      (clone : ℕ) (s : List ℕ) (m : List (ℕ × ℕ))
      → All (IsLog world) s
      → (share_logs world clone s m).1 ≡ false
  share_logs-All clone [] m a = refl
  share_logs-All clone (f ∷ s) m a =
      let ih = share_logs-All clone s m a.1 in let log = a.0 in rw (ih, log) refl

  -- The logs of a chain become shared, and no other fragment.
  lookup-share_logs :
      (f clone : ℕ) (s : List ℕ) (m : List (ℕ × ℕ))
      → LogsLast world s
      → lookup f (share_logs world clone s m).0
        ≡ (if member f s && not (world.is_immutable f) then some clone else lookup f m)
  lookup-share_logs f clone [] m h = refl
  lookup-share_logs f clone (g ∷ s) m h =
      let ih = lookup-share_logs f clone s m h.1 in
      let r = share_logs world clone s m in
      elim (Bool-cases (world.is_immutable g)) [
        | inl i ↦
            let stop : (share_logs world clone (g ∷ s) m).0 ≡ r.0 = elim (Bool-cases r.1) [
              | inl b ↦ rw b refl
              | inr b ↦ rw (b, i) refl
            ] in
            ap (lookup f) stop ∙ ih ∙ ap (λ b. if b then some clone else lookup f m) (unshared i)
        | inr i ↦
            let share : (share_logs world clone (g ∷ s) m).0 ≡ assign g clone r.0 =
              rw (share_logs-All clone s m (h.0 i), i) refl in
            ap (lookup f) share ∙ lookup-assign g f clone r.0 ∙ elim (Bool-cases (f == g)) [
              | inl q ↦
                  let same = (==_iff f g).0 q in
                  let log : world.is_immutable f ≡ false = rw same i in rw (q, log) refl
              | inr q ↦ rw q ih
            ]
      ]
    where
      unshared :
          world.is_immutable g ≡ true
          → (member f s && not (world.is_immutable f))
            ≡ (member f (g ∷ s) && not (world.is_immutable f))
      unshared i = elim (Bool-cases (f == g)) [
        | inl q ↦
            let same = (==_iff f g).0 q in
            let fixed : world.is_immutable f ≡ true = rw same i in ground arith
        | inr q ↦ rw q refl
      ]

  tablets-add_immutable :
      (t : ℕ) (s : List ℕ) (d : FragDag.Dag) → (add_immutable world t s d).tablets ≡ d.tablets
  unfolding FragDag.add_fragment
  tablets-add_immutable t [] d = refl
  tablets-add_immutable t (f ∷ s) d = elim (Bool-cases (world.is_immutable f)) [
    | inl i ↦ rw (i, add_immutable) (tablets-add_immutable t s (FragDag.add_fragment t f d))
    | inr i ↦ rw (i, add_immutable) (tablets-add_immutable t s d)
  ]

-- A tablet and the clone that was made of it.
pub record IsCloned (world : World) (t clone : ℕ) (tablet : Tablet) (s after : Server)
    : Type 0 where
  pub kept : lookup t after.dag.tablets ≡ some tablet
  pub chain : lookup clone after.dag.tablets ≡ some (cloned world tablet)
  pub shared :
      (f : ℕ)
      → find_clone t f after ≡ (
          if member f tablet.fragments && not (world.is_immutable f)
          then some clone
          else find_clone t f s)
  pub passed_on : (f : ℕ) → find_clone clone f after ≡ find_clone t f s
  pub unique : (f : ℕ) → is_duplicate clone f after ≡ false

-- Cloning a tablet whose logs stand last gives its chain to the clone and keeps it in the tablet,
-- which then forwards the replacement of every log in the chain to the clone. The clone has taken
-- over the clones that the tablet knew before, so that every one of them is still told.
pub clone_tablet_lem :
    (world : World) (t clone : ℕ) (s : Server) (tablet : Tablet) (logs : Logs)
    → (t == clone) ≡ false
    → lookup t s.dag.tablets ≡ some tablet
    → lookup t s.logs ≡ some logs
    → LogsLast world tablet.fragments
    → (after : Server) × (clone_tablet world t clone s ≡ some after)
      × IsCloned world t clone tablet s after
unfolding clone_tablet
clone_tablet_lem world t clone s tablet logs n e k h = (
  split_server world t clone tablet logs s,
  rw (e, clone_tablet, k) refl,
  record {
    kept = rw n (ap (lookup t) (tablets-add_immutable world clone tablet.fragments s.dag) ∙ e);
    chain = rw same refl;
    shared = λ f. shared f;
    passed_on = λ f. rw (find_clone, same, k) refl;
    unique = λ f. rw (is_duplicate, same) refl;
  },
)
  where
    same : (clone == clone) ≡ true
    same = ground arith

    shared :
        (f : ℕ)
        → find_clone t f (split_server world t clone tablet logs s) ≡ (
            if member f tablet.fragments && not (world.is_immutable f)
            then some clone
            else find_clone t f s)
    shared f =
        let changed = lookup-modify t (split_logs world clone tablet) s.logs logs k in
        rw (find_clone, n, changed, k)
          (lookup-share_logs world f clone tablet.fragments logs.cloned_logs h)
