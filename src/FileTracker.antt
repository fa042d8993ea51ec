-- ===== src/FileTracker.antt =====
-- Reference counts of files: src/cc/kdi/tablet/FileTracker.cc. A file is the number of its name; the
-- calls of `fs::remove` are recorded in their order.
pub mod Release
mod Examples
use kdi.Common.{
  ℕ, zero, suc, ◌+◌, ◌-◌, ◌^◌, ◌%◌, Option, none, some, List, [], ◌∷◌, ◌++◌, ◌==◌, if◌then◌else◌,
  lookup, assign, remove,
}

pub record FileTracker : Type 0 where
  pub files : List (ℕ × ℕ)
  pub deleted : List ℕ

set_count : ℕ → ℕ → FileTracker → FileTracker
set_count f n t = record { files = assign f n t.files; deleted = t.deleted }

-- `none` is the raised `RuntimeError`. A file that is not in the map reads as a count of zero.
unfoldable pub track : ℕ → FileTracker → Option FileTracker
unfolding set_count
track f t = elim (lookup f t.files) [
  | none ↦ some (set_count f 1 t)
  | some n ↦ if n == 0 then some (set_count f 1 t) else none
]

unfoldable pub untrack : ℕ → FileTracker → FileTracker
untrack f t = record { files = remove f t.files; deleted = t.deleted }

unfoldable pub add_reference : ℕ → FileTracker → FileTracker
unfolding set_count
add_reference f t = elim (lookup f t.files) [ none ↦ t | some n ↦ set_count f ((n + 1) % 2 ^ 64) t ]

delete_file : ℕ → FileTracker → FileTracker
delete_file f t = record { files = remove f t.files; deleted = t.deleted ++ (f ∷ []) }

-- The count is a `size_t`, which wraps.
unfoldable pub release : ℕ → FileTracker → FileTracker
unfolding set_count delete_file
release f t = elim (lookup f t.files) [
  | none ↦ t
  | some n ↦
      let left = (n + (2 ^ 64 - 1)) % 2 ^ 64 in
      if left == 0 then delete_file f t else set_count f left t
]
