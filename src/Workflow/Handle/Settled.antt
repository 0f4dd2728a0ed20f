-- ===== src/Workflow/Handle/Settled.antt =====
-- A job that a run has claimed is finished when the run returns.
use mathlib.Core.Path.{◌∙◌}
use code_intelegence.Base.{
  ℕ, String, ◌≡◌, refl, ap, arith, ◌⊎◌, inl, inr, true, Option, none, some, lookup, ◌==◌, eq_refl,
  Option-cases,
}
use code_intelegence.Domain.Errors.{GoError, Result, ok, err}
use code_intelegence.Jobs.Table.{
  JobStatus, queued, running, completed, failed, succeeded, finished, IndexingJob, Jobs,
  same_status, update_from, claimed, claim_queued_indexing_job,
  set_indexing_job_completed_from_running, set_indexing_job_failed_from_running,
}
use code_intelegence.Jobs.Table.Laws.{lookup-update_from, rows-update_from}
use code_intelegence.Jobs.Repository.{text, claim_job, set_job_completed, set_job_failed}
use code_intelegence.Jobs.Lifecycle.{status_of}
use code_intelegence.Workflow.Steps.{World, Step}
use code_intelegence.Workflow.Steps.Laws.{
  Keeps, bind-Keeps, fails_as-Keeps, Avoids, bind-Avoids, fails_as-Avoids,
}
use code_intelegence.Workflow.Run as Run
use code_intelegence.Workflow.Run.{
  ExecContext, Workspace, Failure, hangs, Calls, full_pipeline, answer,
}
use code_intelegence.Workflow.Handle.{settle, stages, after_claim, handle}
use code_intelegence.Workflow.Handle.Retry.{handle-claim}
use code_intelegence.Workflow.Handle.Quiet.{seen, answer-Keeps}
use code_intelegence.Workflow.Handle.Ends.{failed-hangs}

same_status_refl : (s : JobStatus) → same_status s s ≡ true
same_status_refl queued = refl
same_status_refl running = refl
same_status_refl completed = refl
same_status_refl failed = refl

found_job :
    (id : String) (jobs : Jobs) (s : JobStatus)
    → status_of id jobs ≡ some s
    → (job : IndexingJob) × (lookup id jobs ≡ some job) × (job.status ≡ s)
found_job id jobs s h = elim (Option-cases (lookup id jobs)) [
  | inl missing ↦ absurd (ground arith)
  | inr (job, found) ↦ (job, found, ground arith)
]

module _ (from to : JobStatus) (change : IndexingJob → IndexingJob)
    (sets : (job : IndexingJob) → (change job).status ≡ to) (id : String) (jobs : Jobs) where
  -- A guarded update of a job in the right status.
  status_of-update_from :
      status_of id jobs ≡ some from → status_of id (update_from from change id jobs).1 ≡ some to
  status_of-update_from h =
      let (job, found, is) = found_job id jobs from h in
      let itself : (id == id) ≡ true = eq_refl id in
      let hit : same_status job.status from ≡ true = rw is (same_status_refl from) in
      rw (lookup-update_from from change id jobs id, itself, found, hit) (ap some (sets job))

  rows-update_one : status_of id jobs ≡ some from → (update_from from change id jobs).0 ≡ 1
  rows-update_one h =
      let (job, found, is) = found_job id jobs from h in
      let hit : same_status job.status from ≡ true = rw is (same_status_refl from) in
      rw (rows-update_from from change id jobs, found, hit) refl

module _ (now : ℕ) (id : String) (jobs : Jobs) where
  claim_job-queued :
      (worker : String)
      → status_of id jobs ≡ some queued
      → ((claim_job none now id worker jobs).0 ≡ ok tt)
        × (status_of id (claim_job none now id worker jobs).1 ≡ some running)
  unfolding claim_job claim_queued_indexing_job
  claim_job-queued worker h = (
    rw (rows-update_one queued running (claimed now (text worker)) (λ job. refl) id jobs h) refl,
    status_of-update_from queued running (claimed now (text worker)) (λ job. refl) id jobs h,
  )

  set_job_completed-running :
      status_of id jobs ≡ some running
      → status_of id (set_job_completed none now id jobs).1 ≡ some completed
  unfolding set_job_completed set_indexing_job_completed_from_running
  set_job_completed-running h =
      status_of-update_from running completed (succeeded now) (λ job. refl) id jobs h

  set_job_failed-running :
      (details : String)
      → status_of id jobs ≡ some running
      → status_of id (set_job_failed none now id details jobs).1 ≡ some failed
  unfolding set_job_failed set_indexing_job_failed_from_running
  set_job_failed-running details h =
      status_of-update_from running failed (finished failed now details) (λ job. refl) id jobs h

abbrev pub Settled : String → Option (Result GoError (Unit {0})) × World → Type 0
Settled id r =
    (r.0 ≡ some (ok tt))
    × ((status_of id r.1.jobs ≡ some completed) ⊎ (status_of id r.1.jobs ≡ some failed))

module _ (calls : Calls) (fuel : ℕ) (job_id : String) (completes : calls.complete_refused ≡ none)
    (fails : calls.fail_refused ≡ none) where
  settle-Settled :
      (r : Result Failure (Unit {0}) × World)
      → (r.0 ≡ err hangs → ⊥)
      → status_of job_id r.1.jobs ≡ some running
      → Settled job_id (settle calls fuel job_id r)
  unfolding settle
  settle-Settled (ok u, w) h s =
      (refl, inl (rw completes (set_job_completed-running calls.now job_id w.jobs s)))
  settle-Settled (err (Run.failed category e step), w) h s =
      (refl, inr (rw fails (set_job_failed-running calls.now job_id w.jobs _ s)))
  settle-Settled (err hangs, w) h s = absurd (h refl)

  module _ (pipeline : ExecContext → String → Workspace → Step Failure (Unit {0}))
      (quiet : (ctx : ExecContext) (version : String) (ws : Workspace)
        → Keeps (seen job_id) (pipeline ctx version ws))
      (ends : (ctx : ExecContext) (version : String) (ws : Workspace)
        → Avoids hangs (pipeline ctx version ws)) where
    stages-Keeps : (ctx : ExecContext) → Keeps (seen job_id) (stages calls fuel job_id pipeline ctx)
    unfolding stages
    stages-Keeps ctx =
        bind-Keeps (seen job_id) _ _
          (fails_as-Keeps (seen job_id) _ _ (answer-Keeps job_id calls fuel job_id _))
          λ version.
            bind-Keeps (seen job_id) _ _
              (fails_as-Keeps (seen job_id) _ _ (answer-Keeps job_id calls fuel job_id _))
              λ ws. quiet ctx version ws

    stages-Avoids : (ctx : ExecContext) → Avoids hangs (stages calls fuel job_id pipeline ctx)
    unfolding stages
    stages-Avoids ctx =
        bind-Avoids hangs _ _ (fails_as-Avoids hangs _ _ (failed-hangs _ _)) λ version w w1 h.
          bind-Avoids hangs _ _ (fails_as-Avoids hangs _ _ (failed-hangs _ _))
            (λ ws w' w2 h'. ends ctx version ws w2) w1

    pub handle-Settled :
        (worker_id : String) (w : World) (ctx : ExecContext)
        → calls.load_execution_context ≡ ok ctx
        → calls.project_lock ≡ none
        → calls.claim_refused ≡ none
        → status_of job_id w.jobs ≡ some queued
        → Settled job_id (handle calls fuel job_id pipeline worker_id w)
    handle-Settled worker_id w ctx loaded locked claims h =
        let (won, is_running) = claim_job-queued calls.now job_id w.jobs worker_id h in
        rw (handle-claim calls fuel job_id pipeline worker_id w ctx loaded locked, claims, won)
          (unfold after_claim in
            settle-Settled _ (stages-Avoids ctx _) (stages-Keeps ctx _ ∙ is_running))
