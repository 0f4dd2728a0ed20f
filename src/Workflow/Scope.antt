-- ===== src/Workflow/Scope.antt =====
-- backend-worker/internal/workflow/incremental/handler.go: which files an incremental run parses
-- again and which it copies from the old snapshot; gitclient/gitclient.go: the diff that it reads.
pub mod Exact
use code_intelegence.Base.{
  ℕ, String, Bool, true, false, not, ◌&&◌, ◌||◌, List, [], ◌∷◌, ◌==◌, contains, if◌then◌else◌,
}
use code_intelegence.Domain.Errors.{GoError, other, Result, ok, err}

pub record DiffEntry : Type 0 where
  pub status : String
  pub path : String

-- A status that is none of the three becomes "M".
abbrev pub normalise : String → String
normalise status = if status == "A" || (status == "M" || status == "D") then status else "M"

-- parts[:len(parts)-1] if the last part is empty
unfoldable pub drop_trailing_empty : List String → List String
drop_trailing_empty [] = []
drop_trailing_empty (p ∷ []) = if p == "" then [] else p ∷ []
drop_trailing_empty (p ∷ (q ∷ parts)) = p ∷ drop_trailing_empty (q ∷ parts)

unfoldable pub entries_of : List String → Result GoError (List DiffEntry)
entries_of [] = ok []
entries_of (s ∷ []) = err (other "gitclient: diff output has odd number of fields")
entries_of (s ∷ (p ∷ parts)) = elim (entries_of parts) [
  | err e ↦ err e
  | ok rest ↦ ok (record { status = normalise s; path = p } ∷ rest)
]

-- The argument is the output split at its NUL bytes; no output is one empty part.
unfoldable pub parse_diff_name_status_z : List String → Result GoError (List DiffEntry)
unfolding drop_trailing_empty entries_of
parse_diff_name_status_z parts = entries_of (drop_trailing_empty parts)

-- The sets changedPaths and deletedPaths.
unfoldable pub changed_paths : List DiffEntry → List String
changed_paths [] = []
changed_paths (e ∷ diff) =
    let rest = changed_paths diff in
    if e.status == "A" || e.status == "M" then e.path ∷ rest else rest

unfoldable pub deleted_paths : List DiffEntry → List String
deleted_paths [] = []
deleted_paths (e ∷ diff) =
    let rest = deleted_paths diff in
    if e.status == "A" || e.status == "M"
    then rest
    else if e.status == "D"
    then e.path ∷ rest
    else rest

-- The source files on disk that have changed.
unfoldable pub changed_files : List DiffEntry → List String → List String
unfolding changed_paths
changed_files diff [] = []
changed_files diff (f ∷ source_files) =
    let rest = changed_files diff source_files in
    if contains f (changed_paths diff) then f ∷ rest else rest

-- The files of the old snapshot that are neither changed nor deleted.
unfoldable pub unchanged_paths : List DiffEntry → List String → List String
unfolding changed_paths deleted_paths
unchanged_paths diff [] = []
unchanged_paths diff (f ∷ old_files) =
    let rest = unchanged_paths diff old_files in
    if not (contains f (changed_paths diff)) && not (contains f (deleted_paths diff))
    then f ∷ rest
    else rest
