-- ===== src/Workflow/Handle/Retry.antt =====
-- When Handle returns an error, so that the queue delivers the task again.
use mathlib.Core.Path.{sym, ◌∙◌}
use code_intelegence.Base.{
  ℕ, String, ◌≡◌, refl, ap, lookup, inl, inr, Option, none, some, arith, Option-cases, Bool-cases,
}
use code_intelegence.Domain.Errors.{GoError, Result, ok, err}
use code_intelegence.Jobs.Table.{Jobs, queued, same_status, claim_queued_indexing_job, update_from}
use code_intelegence.Jobs.Repository.{claim_job}
use code_intelegence.Workflow.Steps.{World, Step}
use code_intelegence.Workflow.Steps.Laws.{Result-cases}
use code_intelegence.Workflow.Run.{ExecContext, Workspace, Failure, failed, hangs, Calls}
use code_intelegence.Workflow.Handle.{settle, after_claim, stages, handle}

-- A claim that fails leaves the table as it was.
claim_job-err :
    (refused : Option GoError) (now : ℕ) (id worker : String) (jobs : Jobs) {e : GoError}
    → (claim_job refused now id worker jobs).0 ≡ err e
    → (claim_job refused now id worker jobs).1 ≡ jobs
unfolding claim_job claim_queued_indexing_job update_from
claim_job-err (some e) now id worker jobs h = refl
claim_job-err none now id worker jobs h = elim (Option-cases (lookup id jobs)) [
  | inl missing ↦ ground arith
  | inr (job, found) ↦ elim (Bool-cases (same_status job.status queued)) [
    | inl hit ↦ absurd (ground arith)
    | inr miss ↦ ground arith
  ]
]

module _ (calls : Calls) (fuel : ℕ) (job_id : String)
    (pipeline : ExecContext → String → Workspace → Step Failure (Unit {0})) where
  settle-no_err :
      (r : Result Failure (Unit {0}) × World) {e : GoError}
      → (settle calls fuel job_id r).0 ≡ some (err e)
      → ⊥
  unfolding settle
  settle-no_err (ok u, w) h = absurd (ground arith)
  settle-no_err (err (failed c e step), w) h = absurd (ground arith)
  settle-no_err (err hangs, w) h = absurd (ground arith)

  -- An error after the claim is the claim's own, and nothing follows it.
  after_claim-err :
      (ctx : ExecContext) (r : Result GoError (Unit {0})) (w : World) {e : GoError}
      → (after_claim calls fuel job_id pipeline ctx r w).0 ≡ some (err e)
      → ((why : GoError) × (r ≡ err why)) × ((after_claim calls fuel job_id pipeline ctx r w).1 ≡ w)
  unfolding after_claim
  after_claim-err ctx (ok u) w h =
      absurd (settle-no_err (stages calls fuel job_id pipeline ctx w) h)
  after_claim-err ctx (err why) w h = ((why, refl), ground arith)

  -- Past the load and the lock.
  pub handle-claim :
      (worker_id : String) (w : World) (ctx : ExecContext)
      → calls.load_execution_context ≡ ok ctx
      → calls.project_lock ≡ none
      → handle calls fuel job_id pipeline worker_id w
        ≡ after_claim calls fuel job_id pipeline ctx
            (claim_job calls.claim_refused calls.now job_id worker_id w.jobs).0
            (record w {
              jobs = (claim_job calls.claim_refused calls.now job_id worker_id w.jobs).1;
            })
  unfolding handle
  handle-claim worker_id w ctx loaded locked = rw (handle, loaded, locked) refl

  -- If Handle returns an error, nothing has been changed: the job is not claimed, and the tables and
  -- the points are as they were, so that the task may be delivered again.
  pub handle-err :
      (worker_id : String) (w : World) {e : GoError}
      → (handle calls fuel job_id pipeline worker_id w).0 ≡ some (err e)
      → (handle calls fuel job_id pipeline worker_id w).1 ≡ w
  unfolding handle after_claim
  handle-err worker_id w h = elim (Result-cases calls.load_execution_context) [
    | inr (e, loaded) ↦ ground arith
    | inl (ctx, loaded) ↦ elim (Option-cases calls.project_lock) [
      | inr (e, locked) ↦ ground arith
      | inl locked ↦
          let claim = claim_job calls.claim_refused calls.now job_id worker_id w.jobs in
          let w1 = record w { jobs = claim.1 } in
          let opened = handle-claim worker_id w ctx loaded locked in
          let ((why, refused), same) =
            after_claim-err ctx claim.0 w1 (sym (ap (λ r. r.0) opened) ∙ h) in
          let kept = claim_job-err calls.claim_refused calls.now job_id worker_id w.jobs refused in
          ap (λ r. r.1) opened ∙ same ∙ ap (λ jobs. record w { jobs = jobs }) kept
    ]
  ]
