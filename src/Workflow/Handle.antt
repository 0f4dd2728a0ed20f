-- ===== src/Workflow/Handle.antt =====
-- backend-worker/internal/workflow/{fullindex,incremental}/handler.go: Handle, from the load of the
-- job to its end. A job id that is no UUID, and the cleanup of the workspace, are left out.
pub mod Retry
pub mod Quiet
pub mod Ends
pub mod Settled
pub mod Finishes
use code_intelegence.Base.{ℕ, String, Bool, false, Option, none, some, List, ◌==◌, if◌then◌else◌}
use code_intelegence.Domain.Errors.{GoError, other, wrap, Result, ok, err}
use code_intelegence.Jobs.Repository.{claim_job, set_job_completed, set_job_failed}
use code_intelegence.Jobs.Snapshots.{Snapshots}
use code_intelegence.Workflow.Scope.{DiffEntry, parse_diff_name_status_z}
use code_intelegence.Workflow.Steps.{World, Step, ◌>>=◌}
use code_intelegence.Workflow.Run.{
  ExecContext, Workspace, Failure, failed, hangs, Calls, or_fail, answer, active_snapshot,
  full_pipeline, incremental_pipeline,
}

module _ (calls : Calls) (fuel : ℕ) (job_id : String) where
  -- DiffNameStatus
  unfoldable pub diff_name_status : String → String → Result GoError (List DiffEntry)
  unfolding parse_diff_name_status_z
  diff_name_status base target = elim (calls.git_diff base target) [
    | err e ↦ err (wrap "gitclient: diff" e)
    | ok parts ↦ parse_diff_name_status_z parts
  ]

  -- resolveIncrementalBase: the base snapshot and the diff from it, or none to fall back.
  unfoldable pub resolve_incremental_base :
      ExecContext → String → Workspace → Snapshots → Option (String × List DiffEntry)
  unfolding active_snapshot diff_name_status
  resolve_incremental_base ctx version ws snapshots = elim calls.active_refused [
    | some e ↦ none
    | none ↦ (elim (active_snapshot ctx.project_id ctx.branch snapshots) [
      | none ↦ none
      | some (id, s) ↦
          if s.embedding_version_id == version
          then (elim (diff_name_status s.git_commit ws.commit_sha) [
            | err e ↦ none
            | ok diff ↦ some (id, diff)
          ])
          else none
    ])
  ]

  abbrev pub from_base :
      Option (String × List DiffEntry) → ExecContext → String → Workspace → Step Failure (Unit {0})
  from_base none ctx version ws = full_pipeline calls fuel job_id ctx version ws
  from_base (some (base_id, diff)) ctx version ws =
      incremental_pipeline calls fuel job_id ctx version ws base_id diff

  unfoldable pub incremental_or_full : ExecContext → String → Workspace → Step Failure (Unit {0})
  unfolding full_pipeline incremental_pipeline resolve_incremental_base
  incremental_or_full ctx version ws w =
      from_base (resolve_incremental_base ctx version ws w.snapshots) ctx version ws w

  -- After the claim: version, workspace, and the pipeline of the workflow.
  unfoldable pub stages :
      (ExecContext → String → Workspace → Step Failure (Unit {0}))
      → ExecContext
      → Step Failure (Unit {0})
  stages pipeline ctx = do
    version ← or_fail "context_load" "resolve_embedding_version" (answer calls.resolve_version)
    ws ← or_fail "repo_access" "prepare_workspace" (answer calls.prepare)
    pipeline ctx version ws

  -- What Handle returns, none if it does not, and the state that it leaves.
  abbrev pub Handled : Type 0
  Handled = Option (Result GoError (Unit {0})) × World

  unfoldable pub settle : Result Failure (Unit {0}) × World → Handled
  unfolding set_job_completed set_job_failed
  settle (ok _, w) = (
    some (ok tt),
    record w { jobs = (set_job_completed calls.complete_refused calls.now job_id w.jobs).1 },
  )
  settle (err (failed category e step), w) = (
    some (ok tt),
    record w {
      jobs =
          (set_job_failed calls.fail_refused calls.now job_id (calls.marshal category e step)
            w.jobs).1;
    },
  )
  settle (err hangs, w) = (none, w)

  -- errors.Is(err, repository.ErrJobNotQueued)
  abbrev pub is_not_queued : GoError → Bool
  is_not_queued (other s) = s == "job not in queued status"
  is_not_queued (wrap msg e) = is_not_queued e
  is_not_queued _ = false

  module _ (pipeline : ExecContext → String → Workspace → Step Failure (Unit {0})) where
    unfoldable pub after_claim : ExecContext → Result GoError (Unit {0}) → World → Handled
    unfolding stages settle
    after_claim ctx (ok _) w = settle (stages pipeline ctx w)
    after_claim ctx (err e) w =
        if is_not_queued e then (some (ok tt), w) else (some (err (wrap "claim job" e)), w)

    -- Handler.Handle, over the pipeline of either workflow.
    unfoldable pub handle : String → World → Handled
    unfolding after_claim claim_job
    handle worker_id w = elim calls.load_execution_context [
      | err e ↦ (some (err (wrap "load context" e)), w)
      | ok ctx ↦ (elim calls.project_lock [
        | some e ↦ (some (err (wrap "project lock" e)), w)
        | none ↦
            let (result, jobs) = claim_job calls.claim_refused calls.now job_id worker_id w.jobs in
            after_claim ctx result (record w { jobs = jobs })
      ])
    ]
