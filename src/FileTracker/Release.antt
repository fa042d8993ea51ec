-- ===== src/FileTracker/Release.antt =====
-- A file is deleted by the release of its last reference and not before.
use kdi.Common.{
  ℕ, zero, suc, ◌+◌, ◌-◌, ◌^◌, ◌%◌, ◌<◌, ◌≡◌, refl, sym, ap, subst, ◌∙◌, true, false, none, some,
  List, [], ◌∷◌, ◌++◌, arith, Bool-cases, Option-cases, inl, inr, ◌==◌, lookup, lookup-assign,
  lookup-remove,
}
use kdi.FileTracker.{FileTracker, set_count, track, add_reference, delete_file, release}

abbrev pub releases : ℕ → ℕ → FileTracker → FileTracker
releases zero f t = t
releases (suc m) f t = releases m f (release f t)

abbrev pub references : ℕ → ℕ → FileTracker → FileTracker
references zero f t = t
references (suc m) f t = references m f (add_reference f t)

-- A release of a file with several references, and of one with its last reference.
release_shared :
    (f n : ℕ) (t : FileTracker)
    → lookup f t.files ≡ some (suc (suc n))
    → suc (suc n) < 2 ^ 64
    → release f t ≡ set_count f (suc n) t
unfolding release
release_shared f n t e b =
    let left : (suc (suc n) + (2 ^ 64 - 1)) % 2 ^ 64 ≡ suc n = omega arith in
    let more : (suc n == 0) ≡ false = ground arith in rw (e, release, left, more)

release_last : (f : ℕ) (t : FileTracker) → lookup f t.files ≡ some 1 → release f t ≡ delete_file f t
unfolding release
release_last f t e = rw (e, release)

add_reference_known :
    (f n : ℕ) (t : FileTracker)
    → lookup f t.files ≡ some n
    → suc n < 2 ^ 64
    → add_reference f t ≡ set_count f (suc n) t
unfolding add_reference
add_reference_known f n t e b =
    let more : (n + 1) % 2 ^ 64 ≡ suc n = omega arith in rw (e, add_reference, more)

lookup-set_count : (f n : ℕ) (t : FileTracker) → lookup f (set_count f n t).files ≡ some n
unfolding set_count
lookup-set_count f n t =
    lookup-assign f f n t.files ∙ (let q : (f == f) ≡ true = ground arith in rw q)

-- A file with a count and a list of deletions.
abbrev pub Counts : ℕ → ℕ → List ℕ → FileTracker → Type 0
Counts f n deleted t = (lookup f t.files ≡ some n) × (t.deleted ≡ deleted)

set_count-Counts :
    (f n : ℕ) (ds : List ℕ) (t : FileTracker) → t.deleted ≡ ds → Counts f n ds (set_count f n t)
unfolding set_count
set_count-Counts f n ds t e = (lookup-set_count f n t, e)

references-Counts :
    (m f n : ℕ) (ds : List ℕ) (t : FileTracker)
    → Counts f n ds t
    → n + m < 2 ^ 64
    → Counts f (n + m) ds (references m f t)
references-Counts zero f n ds t c b = (c.0 ∙ ap some (omega arith), c.1)
references-Counts (suc m) f n ds t c b =
    let step : Counts f (suc n) ds (add_reference f t) =
      subst (Counts f (suc n) ds) (sym (add_reference_known f n t c.0 (omega arith)))
        (set_count-Counts f (suc n) ds t c.1) in
    let ih = references-Counts m f (suc n) ds (add_reference f t) step (omega arith) in
    (ih.0 ∙ ap some (omega arith), ih.1)

releases-Counts :
    (k f n : ℕ) (ds : List ℕ) (t : FileTracker)
    → Counts f (k + suc n) ds t
    → k + suc n < 2 ^ 64
    → Counts f (suc n) ds (releases k f t)
releases-Counts zero f n ds t c b = (c.0 ∙ ap some (omega arith), c.1)
releases-Counts (suc k) f n ds t c b =
    let shared = release_shared f (k + n) t (c.0 ∙ ap some (omega arith)) (omega arith) in
    let same : suc (k + n) ≡ k + suc n = omega arith in
    let step : Counts f (k + suc n) ds (release f t) =
      subst (Counts f (k + suc n) ds) (sym shared)
        (rw same (set_count-Counts f (k + suc n) ds t c.1)) in
    releases-Counts k f n ds (release f t) step (omega arith)

releases_last : (k f : ℕ) (t : FileTracker) → releases (suc k) f t ≡ release f (releases k f t)
releases_last zero f t = refl
releases_last (suc k) f t = releases_last k f (release f t)

track-Counts : (f : ℕ) (t u : FileTracker) → track f t ≡ some u → Counts f 1 t.deleted u
unfolding track
track-Counts f t u e =
    let tracked : set_count f 1 t ≡ u = elim (Option-cases (lookup f t.files)) [
      | inl q ↦ let r = rw (q, track) at e in cc
      | inr (n, q) ↦ elim (Bool-cases (n == 0)) [
        | inl z ↦ let r = rw (q, track, z) at e in cc
        | inr z ↦ absurd (let r = rw (q, track, z) at e in ground arith)
      ]
    ] in
    subst (Counts f 1 t.deleted) tracked (set_count-Counts f 1 t.deleted t refl)

-- A file that is tracked and then referenced `m` more times keeps its count, less the releases,
-- through the next `m` releases, and none of them deletes a file. The release after them deletes
-- the file, once, and forgets it.
pub releases_lem :
    (f m : ℕ) (t u : FileTracker)
    → track f t ≡ some u
    → 1 + m < 2 ^ 64
    → ((k n : ℕ) → k + n ≡ m → Counts f (suc n) t.deleted (releases k f (references m f u)))
      × ((releases (suc m) f (references m f u)).deleted ≡ t.deleted ++ (f ∷ []))
      × (lookup f (releases (suc m) f (references m f u)).files ≡ none)
unfolding delete_file
releases_lem f m t u e b =
    let start = references-Counts m f 1 t.deleted u (track-Counts f t u e) b in
    let through : (k n : ℕ)
        → k + n ≡ m
        → Counts f (suc n) t.deleted (releases k f (references m f u)) =
      λ k n s.
        releases-Counts k f n t.deleted (references m f u)
          (start.0 ∙ ap some (omega arith), start.1) (omega arith) in
    let last = through m 0 (omega arith) in
    let q =
      releases_last m f (references m f u)
      ∙ release_last f (releases m f (references m f u)) last.0 in
    (
      through,
      ap (λ x. x.deleted) q ∙ ap (λ ds. ds ++ (f ∷ [])) last.1,
      ap (λ x. lookup f x.files) q
          ∙ lookup-remove f f (releases m f (references m f u)).files
          ∙ (let same : (f == f) ≡ true = ground arith in rw same),
    )
