-- ===== src/FragDag/Removal.antt =====
-- `addFragment` and `removeTablet` keep the two maps of the graph in agreement.
use kdi.Common.{ℕ, ◌≡◌, ap, sym, ◌∙◌, not, ◌&&◌, ◌||◌, ◌==◌, member}
use kdi.FragDag.{Dag, tablets_of, add_fragment, remove_tablet}
use kdi.FragDag.Edges.{Consistent, member-add_fragment, member-remove_tablet}

-- Adding a fragment to a tablet keeps the two maps of the graph in agreement, and afterwards they
-- hold this edge and those that they held before.
pub add_fragment-Consistent :
    (t f : ℕ) (d : Dag)
    → Consistent d
    → Consistent (add_fragment t f d)
      × ((g s : ℕ)
          → member s (tablets_of g (add_fragment t f d))
            ≡ (((s == t) && (g == f)) || member s (tablets_of g d)))
add_fragment-Consistent t f d c = (
  λ g s.
      let m = member-add_fragment t f s g d in
      m.0 ∙ ap (λ b. ((s == t) && (g == f)) || b) (c g s) ∙ sym m.1,
  λ g s. (member-add_fragment t f s g d).0,
)

-- Removing a tablet from a graph whose two maps agree leaves a graph whose maps agree, which holds
-- the edges of the other tablets and no others.
pub remove_tablet-Consistent :
    (t : ℕ) (d : Dag)
    → Consistent d
    → Consistent (remove_tablet t d)
      × ((g s : ℕ)
          → member s (tablets_of g (remove_tablet t d))
            ≡ (not (s == t) && member s (tablets_of g d)))
remove_tablet-Consistent t d c = (
  λ g s.
      let m = member-remove_tablet t d c s g in m.0 ∙ ap (λ b. not (s == t) && b) (c g s) ∙ sym m.1,
  λ g s. (member-remove_tablet t d c s g).0,
)
