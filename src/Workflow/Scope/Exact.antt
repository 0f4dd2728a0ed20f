-- ===== src/Workflow/Scope/Exact.antt =====
-- An incremental run covers exactly the files that a full run would.
use code_intelegence.Base.{
  String, ◌≡◌, refl, Bool, true, false, not, ◌&&◌, ◌||◌, Option, none, some, List, [], ◌∷◌, arith,
  ◌==◌, contains, eq_iff, if◌then◌else◌, Bool-cases, inl, inr,
}
use code_intelegence.Workflow.Scope.{
  DiffEntry, changed_paths, deleted_paths, changed_files, unchanged_paths,
}

-- The statuses that a diff gives for a path.
unfoldable pub statuses : String → List DiffEntry → List String
statuses p [] = []
statuses p (e ∷ diff) = let rest = statuses p diff in if e.path == p then e.status ∷ rest else rest

-- What `git diff --name-status --no-renames` is documented to print for a path, from the blobs, if
-- any, that the two commits have there. A change of type is read as "M".
abbrev pub expected : Option String → Option String → List String
expected none none = []
expected none (some b) = "A" ∷ []
expected (some a) none = "D" ∷ []
expected (some a) (some b) = if a == b then [] else "M" ∷ []

abbrev pub IsDiff : (String → Option String) → (String → Option String) → List DiffEntry → Type 0
IsDiff old new diff = (p : String) → statuses p diff ≡ expected (old p) (new p)

abbrev any_changed : List String → Bool
any_changed [] = false
any_changed (s ∷ rest) = (s == "A" || s == "M") || any_changed rest

abbrev any_deleted : List String → Bool
any_deleted [] = false
any_deleted (s ∷ rest) = (not (s == "A" || s == "M") && s == "D") || any_deleted rest

contains-changed_paths :
    (p : String) (diff : List DiffEntry)
    → contains p (changed_paths diff) ≡ any_changed (statuses p diff)
unfolding changed_paths statuses
contains-changed_paths p [] = refl
contains-changed_paths p (e ∷ diff) = ground (arith, contains-changed_paths p diff)

contains-deleted_paths :
    (p : String) (diff : List DiffEntry)
    → contains p (deleted_paths diff) ≡ any_deleted (statuses p diff)
unfolding deleted_paths statuses
contains-deleted_paths p [] = refl
contains-deleted_paths p (e ∷ diff) = ground (arith, contains-deleted_paths p diff)

contains-changed_files :
    (p : String) (diff : List DiffEntry) (files : List String)
    → contains p (changed_files diff files) ≡ (contains p files && contains p (changed_paths diff))
unfolding changed_files
contains-changed_files p diff [] = refl
contains-changed_files p diff (f ∷ files) =
    ground (arith, contains-changed_files p diff files, eq_iff f p)

contains-unchanged_paths :
    (p : String) (diff : List DiffEntry) (files : List String)
    → contains p (unchanged_paths diff files) ≡ (
        contains p files
        && (not (contains p (changed_paths diff)) && not (contains p (deleted_paths diff))))
unfolding unchanged_paths
contains-unchanged_paths p diff [] = refl
contains-unchanged_paths p diff (f ∷ files) =
    ground (arith, contains-unchanged_paths p diff files, eq_iff f p)

-- A list of files that has exactly the source files of a commit.
abbrev pub Lists : (String → Option String → Bool) → (String → Option String) → List String → Type 0
Lists is_source tree files = (p : String) → contains p files ≡ is_source p (tree p)

-- What becomes of one path, from its blobs: it is parsed or copied just if it is wanted, not both,
-- and copied only if it has not changed.
abbrev Covered : Option String → Option String → Bool → Bool → Bool → Type 0
Covered old new parsed copied wanted =
    ((parsed || copied) ≡ wanted) × ((parsed && copied) ≡ false) × (copied ≡ true → old ≡ new)

-- `is_source` says whether a run without a base indexes a path with this blob.
module _ (is_source : String → Option String → Bool)
    (absent : (p : String) → is_source p none ≡ false) where
  covered :
      (p : String) (old new : Option String)
      → Covered old new
          (is_source p new && any_changed (expected old new))
          (is_source p old
            && (not (any_changed (expected old new)) && not (any_deleted (expected old new))))
          (is_source p new)
  covered p none none = rw absent (refl, refl, λ h. refl)
  covered p none (some b) = (ground arith, ground arith, λ h. absurd (ground arith))
  covered p (some a) none = rw absent (ground arith, ground arith, λ h. absurd (ground arith))
  covered p (some a) (some b) = elim (Bool-cases (a == b)) [
    | inl same ↦
        let blobs : a ≡ b = ground (arith, eq_iff a b) in
        rw (same, blobs) (ground arith, ground arith, λ h. refl)
    | inr other ↦ rw other (ground arith, ground arith, λ h. absurd (ground arith))
  ]

  -- Suppose that the old snapshot lists exactly the source files of the base commit, the workspace
  -- those of the target commit, and the diff is what git prints for the two commits. Then a path
  -- is parsed again or copied forward just if a full run would index it, no path is both, and a
  -- path that is copied has the same blob in the two commits.
  pub incremental_scope :
      (old new : String → Option String) (diff : List DiffEntry)
      (old_files source_files : List String)
      → IsDiff old new diff
      → Lists is_source old old_files
      → Lists is_source new source_files
      → (p : String)
      → ((contains p (changed_files diff source_files)
            || contains p (unchanged_paths diff old_files))
          ≡ contains p source_files)
        × ((contains p (changed_files diff source_files)
              && contains p (unchanged_paths diff old_files))
            ≡ false)
        × (contains p (unchanged_paths diff old_files) ≡ true → old p ≡ new p)
  incremental_scope old new diff old_files source_files d o n p =
      rw
        (
          contains-changed_files,
          contains-unchanged_paths,
          contains-changed_paths,
          contains-deleted_paths,
          d p,
          o p,
          n p,
        )
        (covered p (old p) (new p))
