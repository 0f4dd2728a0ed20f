-- ===== src/Workflow/Run.antt =====
-- backend-worker/internal/workflow/{fullindex,incremental}/handler.go: a run of an indexing job.
--
-- What the run calls outside these files is a `Calls`: each interface's answer, or the failure of a
-- query. Commit indexing and the link of the snapshot to its commit are left out: their failures are
-- only logged, and what they change no row here has. So are the vectors of copied chunks.
use text.Mathlib.Text.{find?}
use code_intelegence.Base.{
  ℕ, ◌+◌, String, Bool, true, false, ◌&&◌, Option, none, some, List, [], ◌∷◌, ◌++◌, ◌==◌, ltb,
  length, if◌then◌else◌,
}
use code_intelegence.Domain.Errors.{GoError, wrap, Result, ok, err}
use code_intelegence.Jobs.Repository.{set_job_progress}
use code_intelegence.Jobs.Snapshots.{
  IndexSnapshot, Snapshots, SnapshotParams, create_index_snapshot, on_branch,
}
use code_intelegence.Parser.Batch.{FileInput}
use code_intelegence.Workflow.Bytes.{Bytes}
use code_intelegence.Workflow.Files.{
  Library, read_source_files, parseable_files, raw_files, build_file_inputs, build_raw_file_results,
}
use code_intelegence.Workflow.Pipeline.{Storage, PipelineInput, check, process_files, activate, run}
use code_intelegence.Workflow.Scope.{DiffEntry, changed_files, unchanged_paths}
use code_intelegence.Workflow.Split.{
  ParsedFileResult, split_oversized_chunks, default_max_input_chars,
}
use code_intelegence.Workflow.Steps.{FileRow, Step, pure, ◌>>=◌, ◌>>◌, fails_as, when}

-- execution.Context and workspace.Result, with the fields that the handlers use.
pub record ExecContext : Type 0 where
  pub project_id : String
  pub branch : String

pub record Workspace : Type 0 where
  pub commit_sha : String
  pub source_files : List String

-- The outcome of a stage other than success: failJob with a category and a step, or a loop that
-- does not end.
pub data Failure : Type 0 where
  failed : String → GoError → String → Failure
  hangs : Failure

pub record Calls : Type 0 where
  pub load_execution_context : Result GoError ExecContext
  pub project_lock : Option GoError
  pub claim_refused : Option GoError
  pub now : ℕ
  pub resolve_version : Result GoError String
  pub prepare : Result GoError Workspace
  pub active_refused : Option GoError
  pub git_diff : String → String → Result GoError (List String)
  pub list_files_refused : Option GoError
  pub read_file : String → Result GoError Bytes
  pub parse_files : List FileInput → Result GoError (List ParsedFileResult)
  pub create_refused : Option GoError
  pub fresh_snapshot : String
  pub delete_refused : Option GoError
  pub storage : Storage
  pub copy_file : String → Option GoError
  pub copy_vectors : Option GoError
  pub chunks_copied : ℕ
  pub progress_refused : Option GoError
  pub complete_refused : Option GoError
  pub fail_refused : Option GoError
  pub library : Library
  pub message : GoError → String
  pub marshal : String → GoError → String → String

-- strings.Contains
abbrev mentions : String → String → Bool
mentions msg part = elim (find? msg part) [ none ↦ false | some i ↦ true ]

unfoldable pub categorize_pipeline_error : String → String
categorize_pipeline_error msg =
    if mentions msg "ensure collection"
    then "vector_write"
    else if mentions msg "upsert vectors"
    then "vector_write"
    else if mentions msg "embed"
    then "embedding"
    else if mentions msg "activate snapshot"
    then "activation"
    else "artifact_write"

-- `if err != nil { h.failJob(..., category, err, step); return nil }`
abbrev pub or_fail : {A : Type 0} → String → String → Step GoError A → Step Failure A
or_fail category step = fails_as (λ e. failed category e step)

unfoldable pub answer : {A : Type 0} → Result GoError A → Step GoError A
answer r w = (r, w)

-- A loop of the source, which has ended or runs on.
unfoldable pub ended : {A : Type 0} → Option A → Step Failure A
ended none w = (err hangs, w)
ended (some a) w = (ok a, w)

-- The query GetActiveSnapshotForBranch.
unfoldable pub active_snapshot : String → String → Snapshots → Option (String × IndexSnapshot)
active_snapshot project_id branch [] = none
active_snapshot project_id branch ((id, s) ∷ rest) =
    if on_branch project_id branch s && s.is_active
    then some (id, s)
    else active_snapshot project_id branch rest

-- The query DeleteSnapshotArtifacts.
unfoldable pub delete_rows : String → List FileRow → List FileRow
delete_rows id [] = []
delete_rows id (f ∷ files) =
    let rest = delete_rows id files in if f.index_snapshot_id == id then rest else f ∷ rest

-- The paths that the query ListSnapshotFiles gives; their order has no effect here.
unfoldable pub snapshot_paths : String → List FileRow → List String
snapshot_paths id [] = []
snapshot_paths id (f ∷ files) =
    let rest = snapshot_paths id files in
    if f.index_snapshot_id == id then f.file_path ∷ rest else rest

unfoldable pub total_chunks : List ParsedFileResult → ℕ
total_chunks [] = 0
total_chunks (p ∷ parsed) = length p.chunks + total_chunks parsed

-- The arguments of both pipelines: `fuel` bounds the rounds of the splitting loops.
module _ (calls : Calls) (fuel : ℕ) (job_id : String) where
  -- repo.CreateSnapshot, with the id of the row.
  unfoldable pub create_snapshot : SnapshotParams → Step GoError String
  unfolding create_index_snapshot
  create_snapshot params w = elim calls.create_refused [
    | some e ↦ (err (wrap "repository: create snapshot" e), w)
    | none ↦
        let (id, snapshots) = create_index_snapshot calls.fresh_snapshot params w.snapshots in
        (ok id, record w { snapshots = snapshots })
  ]

  unfoldable pub delete_snapshot_artifacts : String → Step GoError (Unit {0})
  unfolding delete_rows
  delete_snapshot_artifacts id w = elim calls.delete_refused [
    | some e ↦ (err e, w)
    | none ↦ (ok tt, record w { files = delete_rows id w.files })
  ]

  -- A snapshot without artifacts, old or new.
  unfoldable pub prepare_snapshot : ExecContext → String → String → Step Failure String
  unfolding create_snapshot delete_snapshot_artifacts
  prepare_snapshot ctx version commit_sha = do
    id ← or_fail "artifact_write" "create_snapshot" (
        create_snapshot (record {
          project_id = ctx.project_id;
          branch = ctx.branch;
          embedding_version_id = version;
          git_commit = commit_sha;
        }))
    or_fail "artifact_write" "cleanup_stale_artifacts" (delete_snapshot_artifacts id)
    pure id

  -- Reading, parsing and splitting; the names of the steps differ between the two pipelines.
  unfoldable pub parse_sources :
      String → String → List String → Step Failure (List ParsedFileResult)
  unfolding read_source_files parseable_files raw_files build_file_inputs build_raw_file_results
      split_oversized_chunks
  parse_sources read_step parse_step files = do
    contents ← or_fail "repo_access" read_step (answer (read_source_files calls.read_file files))
    parsed ← or_fail "parser" parse_step (
        answer (
          calls.parse_files
            (build_file_inputs calls.library (parseable_files calls.library files) contents)))
    raw ← ended (build_raw_file_results calls.library fuel (raw_files calls.library files) contents)
    ended (split_oversized_chunks calls.library.sum256 fuel default_max_input_chars (parsed ++ raw))

  -- Nothing is read or parsed when no file has changed.
  abbrev pub parse_changed : List String → Step Failure (List ParsedFileResult)
  parse_changed [] = pure []
  parse_changed (f ∷ files) = parse_sources "read_changed_files" "parse_changed_files" (f ∷ files)

  abbrev pub pipeline_input : ExecContext → String → List ParsedFileResult → PipelineInput
  pipeline_input ctx snapshot_id parsed = record {
    project_id = ctx.project_id;
    snapshot_id = snapshot_id;
    job_id = job_id;
    branch = ctx.branch;
    parsed_files = parsed;
  }

  -- failJob with categorizePipelineError
  abbrev pub or_fail_pipeline : String → Step GoError (Unit {0}) → Step Failure (Unit {0})
  or_fail_pipeline step =
      fails_as (λ e. failed (categorize_pipeline_error (calls.message e)) e step)

  -- runFullPipeline, and the same part of the full-index handler.
  unfoldable pub full_pipeline : ExecContext → String → Workspace → Step Failure (Unit {0})
  unfolding parse_sources prepare_snapshot run categorize_pipeline_error
  full_pipeline ctx version ws = do
    parsed ← parse_sources "read_source_files" "parse_files" ws.source_files
    snapshot_id ← prepare_snapshot ctx version ws.commit_sha
    or_fail_pipeline "pipeline" (run calls.storage (pipeline_input ctx snapshot_id parsed))

  -- CopyForwardFiles: the rows of the unchanged files, under the new snapshot.
  unfoldable pub copy_forward_files : String → List String → Step GoError (Unit {0})
  copy_forward_files id [] = pure tt
  copy_forward_files id (path ∷ paths) = do
    fails_as (wrap "copyforward: file") (check (calls.copy_file path))
    (λ w. (
      ok tt,
      record w { files = w.files ++ (record { index_snapshot_id = id; file_path = path } ∷ []) },
    ))
    copy_forward_files id paths

  -- The counters of the pipeline and of the copied files together; a failure is only logged.
  unfoldable pub note_totals : List ParsedFileResult → List String → Step Failure (Unit {0})
  unfolding set_job_progress total_chunks
  note_totals parsed paths w = (
    ok tt,
    record w {
      jobs =
          (set_job_progress calls.progress_refused job_id (length parsed + length paths)
            (total_chunks parsed + calls.chunks_copied) 0 w.jobs).1;
    },
  )

  unfoldable pub copy_forward :
      String → List ParsedFileResult → List String → Step Failure (Unit {0})
  unfolding copy_forward_files note_totals
  copy_forward id parsed paths = do
    or_fail "artifact_write" "copy_forward_files" (copy_forward_files id paths)
    when (ltb 0 calls.chunks_copied)
        (or_fail "vector_write" "copy_forward_vectors" (check calls.copy_vectors))
    note_totals parsed paths

  -- Listing the files of the base.
  abbrev pub list_base : String → Step GoError (List String)
  list_base base_id w = elim calls.list_files_refused [
    | some e ↦ (err e, w)
    | none ↦ (ok (snapshot_paths base_id w.files), w)
  ]

  unfoldable pub incremental_pipeline :
      ExecContext → String → Workspace → String → List DiffEntry → Step Failure (Unit {0})
  unfolding parse_sources prepare_snapshot process_files activate copy_forward snapshot_paths
      changed_files unchanged_paths categorize_pipeline_error
  incremental_pipeline ctx version ws base_id diff = do
    old_files ← or_fail "context_load" "list_old_files" (list_base base_id)
    parsed ← parse_changed (changed_files diff ws.source_files)
    snapshot_id ← prepare_snapshot ctx version ws.commit_sha
    when (ltb 0 (length parsed)) (
        or_fail_pipeline "pipeline_changed"
          (process_files calls.storage (pipeline_input ctx snapshot_id parsed)))
    when (ltb 0 (length (unchanged_paths diff old_files)))
        (copy_forward snapshot_id parsed (unchanged_paths diff old_files))
    or_fail "activation" "activate_snapshot"
        (activate calls.storage (pipeline_input ctx snapshot_id parsed))
