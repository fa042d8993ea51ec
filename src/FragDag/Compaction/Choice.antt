-- ===== src/FragDag/Compaction/Choice.antt =====
-- What `chooseCompactionSet` of src/cc/kdi/tablet/FragDag.cc chooses.

use kdi.Common.{
  ℕ, zero, suc, ◌+◌, ◌-◌, ◌/◌, ◌≤◌, ◌<◌, ◌≡◌, refl, sym, ap, subst, ◌∙◌, ◌⊎◌, Bool, true, false,
  ◌||◌, Option, none, some, List, [], ◌∷◌, ◌++◌, arith, Bool-cases, Option-cases, inl, inr, ltb,
  leb, ◌==◌, if◌then◌else◌, length, member, member-insert, lookup, All, All-append, Distinct,
}
use kdi.Chain.{Tablet, get_max_adjacent_chain}
use kdi.Chain.Longest.{get_max_adjacent_chain_longest}
use kdi.FragDag.{Dag}
use kdi.FragDag.Compaction.{
  CompactionList, grow, chain_length, sort_in, sort_by_length, insert_range, Chosen, add_list,
  add_seeded, choose_seeded, choose_adjacent, choose_compaction_set,
}
use kdi.FragDag.Compaction.Run.{grow-IsAround}

-- The tablet's chain has the fragment, and no fragment twice.
abbrev pub HasFragment : Dag → ℕ → ℕ → Type 0
HasFragment d frag t =
    (tablet : Tablet) × (lookup t d.tablets ≡ some tablet)
    × Distinct tablet.fragments
    × (member frag tablet.fragments ≡ true)

-- A list of two or more adjacent fragments of its tablet's chain.
abbrev pub IsCompaction : Dag → CompactionList → Type 0
IsCompaction d l =
    (tablet : Tablet) × (before : List ℕ) × (after : List ℕ) × (lookup l.tablet d.tablets
      ≡ some tablet)
    × (tablet.fragments ≡ before ++ (l.fragments ++ after))
    × (1 < length l.fragments)

-- A fragment is in one of the lists.
abbrev pub among : ℕ → List CompactionList → Bool
among f [] = false
among f (l ∷ ls) = member f l.fragments || among f ls

abbrev pub IsSeeded : ℕ → Dag → ℕ → CompactionList → Type 0
IsSeeded width d frag l =
    IsCompaction d l × (member frag l.fragments ≡ true) × (length l.fragments ≤ width)

abbrev pub IsAdjacent : Dag → List CompactionList → CompactionList → Type 0
IsAdjacent d seeded l = IsCompaction d l × All (λ f. among f seeded ≡ true) l.fragments

member-insert_range :
    (f : ℕ) (list frags : List ℕ)
    → member f (insert_range list frags) ≡ (member f frags || member f list)
member-insert_range f [] frags = ground arith
member-insert_range f (g ∷ list) frags =
    let ih = member-insert_range f list (kdi.Common.insert g frags) in
    let one = member-insert g f frags in ground arith

-- What the first loop gives.
record IsChosen (width : ℕ) (d : Dag) (frag : ℕ) (all_frags : List ℕ) (c : Chosen) : Type 0 where
  seeded : All (IsSeeded width d frag) c.compactions
  remain : All (HasFragment d frag) c.remaining
  all : (f : ℕ) → member f c.all_frags ≡ (member f all_frags || among f c.compactions)
  least : (c.remaining ≡ []) ⊎ (1 < c.smallest_chain)

add_seeded-IsChosen :
    (width : ℕ) (d : Dag) (frag : ℕ) (t : ℕ) (list all_frags : List ℕ) (smallest : ℕ) (ts : List ℕ)
    (more : List ℕ → ℕ → Option Chosen)
    → (1 < width → 1 < smallest)
    → (1 < length list → IsSeeded width d frag (record { tablet = t; fragments = list }))
    → All (HasFragment d frag) ts
    → ((frags : List ℕ) (least : ℕ)
        → (1 < width → 1 < least)
        → (c : Chosen) × (more frags least ≡ some c) × IsChosen width d frag frags c)
    → (c : Chosen) × (add_seeded t list all_frags smallest ts more ≡ some c)
      × IsChosen width d frag all_frags c
unfolding add_seeded
add_seeded-IsChosen width d frag t list all_frags smallest ts more l good a spec =
    elim (Bool-cases (ltb 1 (length list))) [
      | inl big ↦
          let added : CompactionList = record { tablet = t; fragments = list } in
          let frags = insert_range list all_frags in
          let least = if ltb (length list) smallest then length list else smallest in
          let seeded : IsSeeded width d frag added = good (ground arith) in
          let wide = seeded.2 in
          let enough : 1 < least = let s = l (ground arith) in ground arith in
          elim (Bool-cases (leb 32 (length frags))) [
            | inl full ↦ (
              record {
                compactions = added ∷ [];
                remaining = ts;
                all_frags = frags;
                smallest_chain = least;
              },
              rw (big, full, add_seeded) refl,
              record {
                seeded = (seeded, tt);
                remain = a;
                all = λ f. let i = member-insert_range f list all_frags in ground arith;
                least = inr enough;
              },
            )
            | inr room ↦
                let (c, q, i) = spec frags least (λ w. enough) in
                (
                  add_list added c,
                  rw (big, room, q, add_seeded) refl,
                  record {
                    seeded = (seeded, i.seeded);
                    remain = i.remain;
                    all = λ f.
                        let j = member-insert_range f list all_frags in
                        let k = i.all f in ground arith;
                    least = i.least;
                  },
                )
          ]
      | inr small ↦ let (c, q, i) = spec all_frags smallest l in (c, rw (small, add_seeded) q, i)
    ]

choose_seeded_step :
    (width : ℕ) (d : Dag) (frag : ℕ) (all_frags : List ℕ) (smallest t : ℕ) (ts : List ℕ)
    (tablet : Tablet) (list : List ℕ)
    → lookup t d.tablets ≡ some tablet
    → grow width d tablet.fragments frag ≡ some list
    → choose_seeded width d frag all_frags smallest (t ∷ ts)
      ≡ add_seeded t list all_frags smallest ts
          (λ frags least. choose_seeded width d frag frags least ts)
unfolding choose_seeded add_seeded
choose_seeded_step width d frag all_frags smallest t ts tablet list e g =
    rw (e, choose_seeded, g) refl

choose_seeded-IsChosen :
    (width : ℕ) (d : Dag) (frag : ℕ) (all_frags : List ℕ) (smallest : ℕ) (ts : List ℕ)
    → (1 < width → 1 < smallest)
    → All (HasFragment d frag) ts
    → (c : Chosen) × (choose_seeded width d frag all_frags smallest ts ≡ some c)
      × IsChosen width d frag all_frags c
choose_seeded-IsChosen width d frag all_frags smallest [] l a = (
  record { compactions = []; remaining = []; all_frags = all_frags; smallest_chain = smallest },
  unfold choose_seeded in refl,
  record { seeded = tt; remain = tt; all = λ f. ground arith; least = inl refl },
)
choose_seeded-IsChosen width d frag all_frags smallest (t ∷ ts) l a =
    let (tablet, e, distinct, m) = a.0 in
    let (list, g, r) = grow-IsAround width d tablet.fragments frag distinct m in
    let (c, q, i) =
      add_seeded-IsChosen width d frag t list all_frags smallest ts
        (λ frags least. choose_seeded width d frag frags least ts) l
        (λ b. ((tablet, r.before, r.after, e, r.split, b), r.inside, r.bound b)) a.1
        (λ frags least w. choose_seeded-IsChosen width d frag frags least ts w a.1) in
    (c, choose_seeded_step width d frag all_frags smallest t ts tablet list e g ∙ q, i)

choose_adjacent-All :
    (d : Dag) (frag : ℕ) (all_frags : List ℕ) (smallest : ℕ) (seeded : List CompactionList)
    (ts : List ℕ)
    → ((f : ℕ) → member f all_frags ≡ among f seeded)
    → ((ts ≡ []) ⊎ (1 < smallest))
    → All (HasFragment d frag) ts
    → (ls : List CompactionList) × (choose_adjacent d all_frags smallest ts ≡ some ls)
      × All (IsAdjacent d seeded) ls
unfolding choose_adjacent
choose_adjacent-All d frag all_frags smallest seeded [] same l a = ([], refl, tt)
choose_adjacent-All d frag all_frags smallest seeded (t ∷ ts) same l a = elim l [
  | inl e ↦ absurd cc
  | inr b ↦
      let (tablet, e, distinct, m) = a.0 in
      let (ls, q, i) = choose_adjacent-All d frag all_frags smallest seeded ts same (inr b) a.1 in
      let run = (get_max_adjacent_chain_longest all_frags tablet.fragments).0 in
      let chain = get_max_adjacent_chain all_frags tablet.fragments in
      elim (Bool-cases (ltb (smallest / 2) (length chain))) [
        | inl big ↦ (
          record { tablet = t; fragments = chain } ∷ ls,
          rw (e, q, choose_adjacent, big) refl,
          (
            ((tablet, run.before, run.after, e, run.split, ground arith), inside chain run.inside),
            i,
          ),
        )
        | inr small ↦ (ls, rw (e, q, choose_adjacent, small) refl, i)
      ]
]
  where
    inside :
        (s : List ℕ) → All (λ f. member f all_frags ≡ true) s → All (λ f. among f seeded ≡ true) s
    inside [] h = tt
    inside (f ∷ s) h = (sym (same f) ∙ h.0, inside s h.1)

All-sort_in :
    (P : ℕ → Type 0) (d : Dag) (t : ℕ) (ts : List ℕ) → P t → All P ts → All P (sort_in d t ts)
unfolding sort_in
All-sort_in P d t [] p a = (p, tt)
All-sort_in P d t (u ∷ ts) p a = elim (Bool-cases (ltb (chain_length d t) (chain_length d u))) [
  | inl l ↦ rw (l, sort_in) (a.0, All-sort_in P d t ts p a.1)
  | inr l ↦ rw (l, sort_in) (p, (a.0, a.1))
]

All-sort_by_length :
    (P : ℕ → Type 0) (d : Dag) (ts : List ℕ) → All P ts → All P (sort_by_length d ts)
unfolding sort_by_length
All-sort_by_length P d [] a = tt
All-sort_by_length P d (t ∷ ts) a =
    All-sort_in P d t (sort_by_length d ts) a.0 (All-sort_by_length P d ts a.1)

-- If the chains of the tablets of the heaviest fragment hold it, and no fragment twice, then a set
-- is chosen: lists of two or more adjacent fragments of a tablet's chain. The first ones have the
-- heaviest fragment and are no longer than the width; the others have fragments of the first ones.
pub choose_compaction_set_lem :
    (width : ℕ) (frag : ℕ) (d : Dag) (tablets : List ℕ)
    → lookup frag d.active_tablets ≡ some tablets
    → All (HasFragment d frag) tablets
    → (seeded : List CompactionList) × (adjacent : List CompactionList) × (choose_compaction_set
          width
          (some frag)
          d
        ≡ some (seeded ++ adjacent))
      × All (IsSeeded width d frag) seeded
      × All (IsAdjacent d seeded) adjacent
unfolding choose_compaction_set
choose_compaction_set_lem width frag d tablets e a =
    let (c, q, i) =
      choose_seeded-IsChosen width d frag [] width (sort_by_length d tablets) (λ w. w)
        (All-sort_by_length (HasFragment d frag) d tablets a) in
    let (ls, r, j) =
      choose_adjacent-All d frag c.all_frags c.smallest_chain c.compactions c.remaining
        (λ f. let k = i.all f in ground arith) i.least i.remain in
    (c.compactions, ls, rw (e, q, r, choose_compaction_set) refl, i.seeded, j)
