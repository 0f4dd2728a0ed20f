-- ===== src/JobHealth/Late.antt =====
-- A check that comes just after the job's worker has completed the job.
use code_intelegence.Base.{
  ℕ, String, ◌≡◌, ◌≢◌, refl, ◌∙◌, true, false, none, some, List, eq_refl, delete, lookup,
  lookup-delete,
}
use code_intelegence.Jobs.Table.{
  IndexingJob, running, succeeded, set_indexing_job_completed_from_running,
}
use code_intelegence.Jobs.Table.Laws.{lookup-update_from}
use code_intelegence.Jobs.Repository.{set_job_completed}
use code_intelegence.Worker.Heartbeat.{status, is_active_job}
use code_intelegence.Worker.Registry.{Registry, clear_job, publish}
use code_intelegence.Worker.Registry.Busy.{is_active_job-publish}
use code_intelegence.JobHealth.{Outside, Check, World, is_fresh, check_and_reap_if_dead}
use code_intelegence.JobHealth.Effects.{spared_by, finished_reported_failed}

cleared_not_shown :
    (pick : List (String × String) → String × String) (reg : Registry) (id : String)
    → id ≢ ""
    → is_active_job (publish pick (clear_job id reg)) id ≡ false
unfolding clear_job
cleared_not_shown pick reg id named =
    is_active_job-publish pick (clear_job id reg) id named (delete id reg.active_jobs) refl
    ∙ rw (lookup-delete id id reg.active_jobs, eq_refl id) refl

-- The tables after the worker's SetJobCompleted.
abbrev pub after_completion : ℕ → String → World → World
after_completion now id w = record w { jobs = (set_job_completed none now id w.jobs).1 }

module _ (out : Outside) (threshold : ℕ) (c : Check) (w : World) (reg : Registry)
    (pick : List (String × String) → String × String) (now : ℕ) where
  completed_row :
      (job : IndexingJob)
      → lookup c.job_id w.jobs ≡ some job
      → job.status ≡ running
      → lookup c.job_id (after_completion now c.job_id w).jobs ≡ some (succeeded now job)
  unfolding set_job_completed set_indexing_job_completed_from_running
  completed_row job here runs =
      lookup-update_from running (succeeded now) c.job_id w.jobs c.job_id
      ∙ rw (eq_refl c.job_id, here, runs) refl

  -- The API reads a running job and asks for a check. In between the worker completes the job,
  -- clears it from its registry and publishes its heartbeat, which the check reads. If the start that
  -- the check is given is missing or no less than the threshold ago, the job's id is valid and not
  -- empty, and the database answers, then the check reports the job as failed, though the table has
  -- it completed and is not changed by the check.
  pub completed_reported_failed :
      (job : IndexingJob)
      → lookup c.job_id w.jobs ≡ some job
      → job.status ≡ running
      → c.current_status ≡ "running"
      → c.job_id ≢ ""
      → is_fresh out.now threshold c.started_at ≡ false
      → out.heartbeat c.worker_id ≡ status (publish pick (clear_job c.job_id reg))
      → out.is_uuid c.job_id ≡ true
      → out.fail_stale_fails ≡ none
      → (lookup c.job_id (after_completion now c.job_id w).jobs ≡ some (succeeded now job))
        × (check_and_reap_if_dead out threshold c (after_completion now c.job_id w)
            ≡ ("failed", after_completion now c.job_id w))
  completed_reported_failed job here runs asked named old beat valid answered =
      let row = completed_row job here runs in
      let unseen : spared_by (out.heartbeat c.worker_id) c.job_id ≡ false =
        rw beat (cleared_not_shown pick reg c.job_id named) in
      (
        row,
        finished_reported_failed out threshold c (after_completion now c.job_id w)
            (succeeded now job) asked old (λ _. unseen) valid answered row refl,
      )
