-- ===== src/Jobs/Repository.antt =====
-- backend-worker/internal/repository/job.go: the operations by which a worker changes a job. The
-- first argument is the query's failure, if the database refuses it.
use code_intelegence.Base.{ℕ, String, Bool, Option, none, some, ltb, leb, ◌==◌, if◌then◌else◌}
use code_intelegence.Domain.Errors.{GoError, other, wrap, Result, ok, err}
use code_intelegence.Jobs.Table.{
  Jobs, claim_queued_indexing_job, set_indexing_job_completed_from_running,
  set_indexing_job_failed_from_running, set_indexing_job_progress,
}

abbrev pub err_job_not_queued : GoError
err_job_not_queued = other "job not in queued status"

-- pgtype.Text{String: workerID, Valid: workerID != ""}
abbrev pub text : String → Option String
text s = if s == "" then none else some s

abbrev rows_claimed : ℕ × Jobs → Result GoError (Unit {0}) × Jobs
rows_claimed (rows, jobs) =
    (if leb rows 0 then err (wrap "repository: claim job" err_job_not_queued) else ok tt, jobs)

unfoldable pub claim_job :
    Option GoError → ℕ → String → String → Jobs → Result GoError (Unit {0}) × Jobs
claim_job (some e) now job_id worker_id jobs = (err (wrap "repository: claim job" e), jobs)
claim_job none now job_id worker_id jobs =
    rows_claimed (claim_queued_indexing_job now (text worker_id) job_id jobs)

abbrev transitioned : ℕ × Jobs → Result GoError Bool × Jobs
transitioned (rows, jobs) = (ok (ltb 0 rows), jobs)

unfoldable pub set_job_completed : Option GoError → ℕ → String → Jobs → Result GoError Bool × Jobs
set_job_completed (some e) now job_id jobs = (err (wrap "repository: set job completed" e), jobs)
set_job_completed none now job_id jobs =
    transitioned (set_indexing_job_completed_from_running now job_id jobs)

unfoldable pub set_job_failed :
    Option GoError → ℕ → String → String → Jobs → Result GoError Bool × Jobs
set_job_failed (some e) now job_id details jobs = (err (wrap "repository: set job failed" e), jobs)
set_job_failed none now job_id details jobs =
    transitioned (set_indexing_job_failed_from_running now details job_id jobs)

unfoldable pub set_job_progress :
    Option GoError → String → ℕ → ℕ → ℕ → Jobs → Result GoError (Unit {0}) × Jobs
set_job_progress (some e) job_id files chunks vectors jobs =
    (err (wrap "repository: set job progress" e), jobs)
set_job_progress none job_id files chunks vectors jobs =
    (ok tt, set_indexing_job_progress files chunks vectors job_id jobs)
