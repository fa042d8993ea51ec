-- ===== src/Tablet/Logs/Orders.antt =====
-- The two orders in which two tablets can be told of the replacement of a log that they share:
-- src/cc/kdi/tablet/Tablet.cc.
use kdi.Common.{
  ℕ, zero, suc, ◌<◌, ◌≡◌, refl, sym, subst, ◌∙◌, true, false, none, some, [], ◌∷◌, ◌==◌, lookup,
  remove, erase, member, member-erase, lookup-remove, arith,
}
use kdi.Chain.{Tablet}
use kdi.Tablet.Logs.{
  Logs, Server, World, modify, set_chain, with_dag, with_logs, erase_clone, erase_duplicate, done,
  find_clone, is_duplicate, replace_fragments, count_clones, replace,
}
use kdi.Tablet.Logs.Forward.{count_clones-modify}
use kdi.Tablet.Logs.Append.{lookup-modify}
use kdi.Tablet.Logs.Shared.{
  lookup-modify-other, observe-modify, observe-other, observe-changed, replace_here,
  replace_forward, replace_again, IsShared, IsSettled,
}

positive : (m n : ℕ) → m < n → (k : ℕ) × (n ≡ suc k)
positive m zero b = absurd (omega arith)
positive m (suc n) b = (n, refl)

module _ (world : World) (high low f new : ℕ) (s : Server)
    (h : IsShared world high low f new s) where
  reverse_other : (high == low) ≡ false
  reverse_other = let o = h.other in ground arith

  same_f : (f == f) ≡ true
  same_f = ground arith

  removed : (l : Logs) → lookup f (remove f l.cloned_logs) ≡ none
  removed l = lookup-remove f f l.cloned_logs ∙ rw same_f refl

  erased : (l : Logs) → member f (erase f l.duplicated_logs) ≡ false
  erased l = member-erase f f l.duplicated_logs ∙ rw same_f refl

  high_first :
      (mid : Server) × (after : Server) × (replace world high (f ∷ []) new s ≡ done mid)
      × (replace world low (f ∷ []) new mid ≡ done after)
      × IsSettled high low f h.high_after h.low_after after
  unfolding replace
  high_first =
      let changed = with_dag (set_chain high h.high_after s.dag) s in
      let told = with_logs (modify high (erase_clone f) s.logs) changed in
      let (n, count) =
        positive _ (count_clones s.logs) (count_clones-modify high f low s.logs h.cloned) in
      let low_has =
        lookup-modify-other high low (λ old. h.high_after) s.dag.tablets h.other ∙ h.low_has in
      let low_clone =
        observe-other none (λ l. lookup f l.cloned_logs) high low (erase_clone f) s.logs h.other
        ∙ h.last_clone in
      let (mid, q, same) =
        replace_here world n low f new told h.low_chain h.low_after h.log low_has h.low_replaced
          low_clone in
      let forward : replace_fragments world (count_clones s.logs) low (f ∷ []) new told ≡ done mid =
        subst (λ k. replace_fragments world k low (f ∷ []) new told ≡ done mid) (sym count) q in
      let (after, r, kept) =
        replace_forward world (count_clones s.logs) high low f new s mid h.high_chain h.high_after
          h.log h.high_has h.high_replaced h.cloned forward in
      let has_low : lookup low after.dag.tablets ≡ some h.low_after =
        kept.chains low
        ∙ same.chains low
        ∙ lookup-modify low (λ old. h.low_after) (modify high (λ old. h.high_after) s.dag.tablets)
            h.low_chain low_has in
      let has_high : lookup high after.dag.tablets ≡ some h.high_after =
        kept.chains high
        ∙ same.chains high
        ∙ lookup-modify-other low high (λ old. h.low_after)
            (modify high (λ old. h.high_after) s.dag.tablets) reverse_other
        ∙ lookup-modify high (λ old. h.high_after) s.dag.tablets h.high_chain h.high_has in
      let twice : is_duplicate low f after ≡ true =
        kept.duplicates low
        ∙ same.duplicates low
        ∙ observe-modify false (λ l. member f l.duplicated_logs) high low (erase_clone f) s.logs
            (λ l. refl)
        ∙ h.duplicate in
      let gone : find_clone high f after ≡ none =
        kept.clones high
        ∙ same.clones high
        ∙ observe-changed none (λ l. lookup f l.cloned_logs) high (erase_clone f) s.logs
            (λ l. removed l) in
      (
        after,
        with_logs (modify low (erase_duplicate f) after.logs) after,
        r,
        replace_again world (count_clones after.logs) low f new after h.low_after h.log has_low
            h.once twice,
        record {
          high_has = has_high;
          low_has = has_low;
          forwarded =
              observe-modify none (λ l. lookup f l.cloned_logs) low high (erase_duplicate f)
                after.logs (λ l. refl)
              ∙ gone;
          ignored =
              observe-changed false (λ l. member f l.duplicated_logs) low (erase_duplicate f)
                after.logs (λ l. erased l);
        },
      )

  low_first :
      (mid : Server) × (after : Server) × (replace world low (f ∷ []) new s ≡ done mid)
      × (replace world high (f ∷ []) new mid ≡ done after)
      × IsSettled high low f h.high_after h.low_after after
  unfolding replace
  low_first =
      let (mid, q, same) =
        replace_here world (count_clones s.logs) low f new s h.low_chain h.low_after h.log h.low_has
          h.low_replaced h.last_clone in
      let has_low : lookup low mid.dag.tablets ≡ some h.low_after =
        same.chains low
        ∙ lookup-modify low (λ old. h.low_after) s.dag.tablets h.low_chain h.low_has in
      let has_high : lookup high mid.dag.tablets ≡ some h.high_chain =
        same.chains high
        ∙ lookup-modify-other low high (λ old. h.low_after) s.dag.tablets reverse_other
        ∙ h.high_has in
      let clone : find_clone high f mid ≡ some low = same.clones high ∙ h.cloned in
      let told =
        with_logs (modify high (erase_clone f) mid.logs)
          (with_dag (set_chain high h.high_after mid.dag) mid) in
      let (n, count) =
        positive _ (count_clones mid.logs) (count_clones-modify high f low mid.logs clone) in
      let low_told : lookup low told.dag.tablets ≡ some h.low_after =
        lookup-modify-other high low (λ old. h.high_after) mid.dag.tablets h.other ∙ has_low in
      let twice : is_duplicate low f told ≡ true =
        observe-modify false (λ l. member f l.duplicated_logs) high low (erase_clone f) mid.logs
          (λ l. refl)
        ∙ same.duplicates low
        ∙ h.duplicate in
      let ignored = with_logs (modify low (erase_duplicate f) told.logs) told in
      let again = replace_again world n low f new told h.low_after h.log low_told h.once twice in
      let forward : replace_fragments world (count_clones mid.logs) low (f ∷ []) new told
          ≡ done ignored =
        subst (λ k. replace_fragments world k low (f ∷ []) new told ≡ done ignored) (sym count)
          again in
      let (after, r, kept) =
        replace_forward world (count_clones mid.logs) high low f new mid ignored h.high_chain
          h.high_after h.log has_high h.high_replaced clone forward in
      (
        mid,
        after,
        q,
        r,
        record {
          high_has =
              kept.chains high
              ∙ lookup-modify high (λ old. h.high_after) mid.dag.tablets h.high_chain has_high;
          low_has = kept.chains low ∙ low_told;
          forwarded =
              kept.clones high
              ∙ observe-modify none (λ l. lookup f l.cloned_logs) low high (erase_duplicate f)
                  told.logs (λ l. refl)
              ∙ observe-changed none (λ l. lookup f l.cloned_logs) high (erase_clone f) mid.logs
                  (λ l. removed l);
          ignored =
              kept.duplicates low
              ∙ observe-changed false (λ l. member f l.duplicated_logs) low (erase_duplicate f)
                  told.logs (λ l. erased l);
        },
      )

-- What the replacement of a log in two tablets, one after the other, comes to.
abbrev pub BothReplaced :
    World → ℕ → ℕ → ℕ → ℕ → (first second : ℕ) → Tablet → Tablet → Server → Type 0
BothReplaced world high low f new first second high_after low_after s =
    (mid : Server) × (after : Server) × (replace world first (f ∷ []) new s ≡ done mid)
    × (replace world second (f ∷ []) new mid ≡ done after)
    × IsSettled high low f high_after low_after after

-- If a tablet has a log when another is split off it, and the log is then added to the other one
-- again, so that both are told of its replacement, then neither order of telling them raises an
-- error. After both, each of the chains has the replacement once, and no clone or duplicate of the
-- log is remembered.
pub replace_orders :
    (world : World) (high low f new : ℕ) (s : Server) (h : IsShared world high low f new s)
    → BothReplaced world high low f new high low h.high_after h.low_after s
      × BothReplaced world high low f new low high h.high_after h.low_after s
replace_orders world high low f new s h =
    (high_first world high low f new s h, low_first world high low f new s h)
