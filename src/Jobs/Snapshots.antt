-- ===== src/Jobs/Snapshots.antt =====
-- The table index_snapshots with the queries of datastore/postgres/sqlc/indexing.sql.go, and the
-- activation of a snapshot in backend-worker/internal/indexing/pipeline.go.
pub mod Activation
use code_intelegence.Base.{
  String, Bool, true, false, not, ◌&&◌, ◌||◌, Option, none, some, List, [], ◌∷◌, ◌==◌, lookup,
  insert, delete, if◌then◌else◌,
}
use code_intelegence.Domain.Errors.{GoError, Result, ok, wrap}
use code_intelegence.Postgres.Tx.{Server, Body, query, on_error, exec_tx, ◌>>◌}
use code_intelegence.Jobs.Table.{Jobs, queued, running, same_status, IndexingJob}

pub data SnapshotStatus : Type 0 where
  building active : SnapshotStatus

abbrev pub is_building : SnapshotStatus → Bool
is_building building = true
is_building active = false

-- A row of index_snapshots. created_at, activated_at and commit_id are left out.
pub record IndexSnapshot : Type 0 where
  pub project_id : String
  pub branch : String
  pub embedding_version_id : String
  pub git_commit : String
  pub is_active : Bool
  pub status : SnapshotStatus

abbrev pub Snapshots : Type 0
Snapshots = List (String × IndexSnapshot)

-- CreateIndexSnapshotParams
pub record SnapshotParams : Type 0 where
  pub project_id : String
  pub branch : String
  pub embedding_version_id : String
  pub git_commit : String

-- The columns of the unique key (project_id, branch, embedding_version_id, git_commit).
abbrev pub same_key : SnapshotParams → IndexSnapshot → Bool
same_key p s =
    s.project_id == p.project_id
    && (s.branch == p.branch
        && (s.embedding_version_id == p.embedding_version_id && s.git_commit == p.git_commit))

unfoldable pub find_key : SnapshotParams → Snapshots → Option String
find_key p [] = none
find_key p ((id, s) ∷ rest) = if same_key p s then some id else find_key p rest

abbrev pub new_snapshot : SnapshotParams → IndexSnapshot
new_snapshot p = record {
  project_id = p.project_id;
  branch = p.branch;
  embedding_version_id = p.embedding_version_id;
  git_commit = p.git_commit;
  is_active = false;
  status = building;
}

-- INSERT ... ON CONFLICT DO UPDATE SET status = 'building', is_active = FALSE: a row with the same
-- key is taken over under its old id, and only otherwise `fresh` becomes the id of a new row.
abbrev upsert : Option String → String → SnapshotParams → Snapshots → String × Snapshots
upsert (some id) fresh p snaps = (id, insert id (new_snapshot p) snaps)
upsert none fresh p snaps = (fresh, insert fresh (new_snapshot p) snaps)

unfoldable pub create_index_snapshot : String → SnapshotParams → Snapshots → String × Snapshots
unfolding find_key
create_index_snapshot fresh p snaps = upsert (find_key p snaps) fresh p snaps

abbrev pub on_branch : String → String → IndexSnapshot → Bool
on_branch project_id branch s = s.project_id == project_id && s.branch == branch

unfoldable pub deactivate_active_snapshot : String → String → Snapshots → Snapshots
deactivate_active_snapshot project_id branch [] = []
deactivate_active_snapshot project_id branch ((id, s) ∷ rest) =
    (
      id,
      (if on_branch project_id branch s && s.is_active then record s { is_active = false } else s),
    )
    ∷ deactivate_active_snapshot project_id branch rest

unfoldable pub activate_snapshot : String → Snapshots → Snapshots
activate_snapshot id [] = []
activate_snapshot id ((k, s) ∷ rest) =
    (k, (if k == id then record s { is_active = true; status = active } else s))
    ∷ activate_snapshot id rest

-- The callback of ActivateSnapshotTx.
unfoldable pub activate_steps : String → String → String → Body Snapshots (Unit {0})
activate_steps project_id branch id = do
  on_error (wrap "deactivate snapshot") (
      query "DeactivateActiveSnapshot"
        (λ s. (ok tt, deactivate_active_snapshot project_id branch s)))
  on_error (wrap "activate snapshot")
      (query "ActivateSnapshot" (λ s. (ok tt, activate_snapshot id s)))

-- One transaction, with no retry.
unfoldable pub activate_snapshot_tx :
    Server → String → String → String → Snapshots → Result GoError (Unit {0}) × Snapshots
activate_snapshot_tx server project_id branch id =
    exec_tx server 0 (activate_steps project_id branch id)

-- LEFT JOIN indexing_jobs ON index_snapshot_id = s.id AND status IN ('queued', 'running')
abbrev pub links : String → IndexingJob → Bool
links id job =
    (same_status job.status queued || same_status job.status running)
    && (elim job.index_snapshot_id [ none ↦ false | some s ↦ s == id ])

unfoldable pub any_job : (IndexingJob → Bool) → Jobs → Bool
any_job p [] = false
any_job p ((k, job) ∷ jobs) = p job || any_job p jobs

abbrev pub is_orphaned : Jobs → String → IndexSnapshot → Bool
is_orphaned jobs id s = is_building s.status && (not s.is_active && not (any_job (links id) jobs))

unfoldable pub list_orphaned_building_snapshots : Jobs → Snapshots → List String
list_orphaned_building_snapshots jobs [] = []
list_orphaned_building_snapshots jobs ((id, s) ∷ rest) =
    let ids = list_orphaned_building_snapshots jobs rest in
    if is_orphaned jobs id s then id ∷ ids else ids

-- DELETE ... WHERE id = $1 AND status = 'building' AND is_active = FALSE
abbrev deletable : Option IndexSnapshot → Bool
deletable none = false
deletable (some s) = is_building s.status && not s.is_active

unfoldable pub delete_orphaned_building_snapshot : String → Snapshots → Snapshots
delete_orphaned_building_snapshot id snaps =
    if deletable (lookup id snaps) then delete id snaps else snaps
