-- ===== src/Workflow/Handle/Finishes.antt =====
-- Both workflows finish the job that they claim.
use code_intelegence.Base.{ℕ, ◌≤◌, String, ◌≡◌, Option, none, some, List, All, length}
use code_intelegence.Domain.Errors.{ok}
use code_intelegence.Jobs.Table.{queued}
use code_intelegence.Jobs.Lifecycle.{status_of}
use code_intelegence.Parser.Batch.{FileInput}
use code_intelegence.Workflow.Bytes.{Bytes}
use code_intelegence.Workflow.Scope.{DiffEntry}
use code_intelegence.Workflow.Split.{ParsedFileResult, default_max_input_chars}
use code_intelegence.Workflow.Split.Rejoin.{Splittable}
use code_intelegence.Workflow.Steps.{World}
use code_intelegence.Workflow.Steps.Laws.{Keeps, Avoids}
use code_intelegence.Workflow.Run.{ExecContext, Workspace, hangs, Calls, full_pipeline}
use code_intelegence.Workflow.Handle.{handle, from_base, incremental_or_full}
use code_intelegence.Workflow.Handle.Quiet.{seen, full_pipeline-Keeps, incremental_pipeline-Keeps}
use code_intelegence.Workflow.Handle.Ends.{full_pipeline-Avoids, incremental_pipeline-Avoids}
use code_intelegence.Workflow.Handle.Settled.{Settled, handle-Settled}

module _ (calls : Calls) (fuel : ℕ) (job_id : String) where
  from_base-Keeps :
      (base : Option (String × List DiffEntry)) (ctx : ExecContext) (version : String)
      (ws : Workspace)
      → Keeps (seen job_id) (from_base calls fuel job_id base ctx version ws)
  from_base-Keeps none ctx version ws w =
      full_pipeline-Keeps job_id calls fuel job_id ctx version ws w
  from_base-Keeps (some (base_id, diff)) ctx version ws w =
      incremental_pipeline-Keeps job_id calls fuel job_id ctx version ws base_id diff w

  incremental_or_full-Keeps :
      (ctx : ExecContext) (version : String) (ws : Workspace)
      → Keeps (seen job_id) (incremental_or_full calls fuel job_id ctx version ws)
  unfolding incremental_or_full
  incremental_or_full-Keeps ctx version ws w = from_base-Keeps _ ctx version ws w

  module _ (room : default_max_input_chars ≤ fuel)
      (bounded : (f : String) (s : Bytes) → calls.read_file f ≡ ok s → length s ≤ fuel)
      (splittable : (inputs : List FileInput) (results : List ParsedFileResult)
        → calls.parse_files inputs ≡ ok results
        → All (λ r. All (Splittable calls.library.sum256 fuel) r.chunks) results) where
    from_base-Avoids :
        (base : Option (String × List DiffEntry)) (ctx : ExecContext) (version : String)
        (ws : Workspace)
        → Avoids hangs (from_base calls fuel job_id base ctx version ws)
    from_base-Avoids none ctx version ws w =
        full_pipeline-Avoids calls fuel job_id room bounded splittable ctx version ws w
    from_base-Avoids (some (base_id, diff)) ctx version ws w =
        incremental_pipeline-Avoids calls fuel job_id room bounded splittable ctx version ws base_id
          diff w

    incremental_or_full-Avoids :
        (ctx : ExecContext) (version : String) (ws : Workspace)
        → Avoids hangs (incremental_or_full calls fuel job_id ctx version ws)
    unfolding incremental_or_full
    incremental_or_full-Avoids ctx version ws w = from_base-Avoids _ ctx version ws w

    -- Suppose that the job is queued, its context loads, the project's lock is free, the database
    -- answers the claim and the two final updates, no file is longer than the fuel, which is at
    -- least 7500, and the parser's chunks are valid UTF-8 and no longer than that. Then Handle of
    -- the full and of the incremental workflow returns nil, whatever else fails, and the job that
    -- it leaves is completed or failed.
    pub handle_finishes :
        calls.complete_refused ≡ none
        → calls.fail_refused ≡ none
        → calls.project_lock ≡ none
        → calls.claim_refused ≡ none
        → (ctx : ExecContext) → calls.load_execution_context ≡ ok ctx
        → (worker_id : String) (w : World) → status_of job_id w.jobs ≡ some queued
        → Settled job_id (handle calls fuel job_id (full_pipeline calls fuel job_id) worker_id w)
          × Settled job_id
              (handle calls fuel job_id (incremental_or_full calls fuel job_id) worker_id w)
    handle_finishes completes fails locked claims ctx loaded worker_id w h = (
      handle-Settled calls fuel job_id completes fails _
          (full_pipeline-Keeps job_id calls fuel job_id)
          (full_pipeline-Avoids calls fuel job_id room bounded splittable) worker_id w ctx loaded
          locked claims h,
      handle-Settled calls fuel job_id completes fails _ incremental_or_full-Keeps
          incremental_or_full-Avoids worker_id w ctx loaded locked claims h,
    )
