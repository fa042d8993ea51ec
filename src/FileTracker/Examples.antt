-- ===== src/FileTracker/Examples.antt =====
-- A tracked file: tests, and the theorem at a concrete input.
use kdi.Common.{ℕ, suc, ◌+◌, ◌≡◌, refl, some, none, [], ◌∷◌, ◌++◌, lookup, arith}
use kdi.FileTracker.{FileTracker, track, add_reference, release}
use kdi.FileTracker.Release.{Counts, releases, references, releases_lem}

abbrev untracked : FileTracker
untracked = record { files = []; deleted = 3 ∷ [] }

abbrev tracked : FileTracker
tracked = record { files = (7, 1) ∷ []; deleted = 3 ∷ [] }

tracks_a_file : track 7 untracked ≡ some tracked
unfolding track
tracks_a_file = refl

tracks_only_once : track 7 tracked ≡ none
unfolding track
tracks_only_once = refl

deletes_after_two :
    releases 2 7 (add_reference 7 tracked) ≡ record { files = []; deleted = 3 ∷ 7 ∷ [] }
unfolding add_reference release
deletes_after_two = refl

releases_lem_example :
    ((k n : ℕ) → k + n ≡ 1 → Counts 7 (suc n) (3 ∷ []) (releases k 7 (references 1 7 tracked)))
    × ((releases 2 7 (references 1 7 tracked)).deleted ≡ (3 ∷ []) ++ (7 ∷ []))
    × (lookup 7 (releases 2 7 (references 1 7 tracked)).files ≡ none)
releases_lem_example = releases_lem 7 1 untracked tracked tracks_a_file (omega arith)
