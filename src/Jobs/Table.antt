-- ===== src/Jobs/Table.antt =====
-- The table indexing_jobs with the queries of datastore/postgres/sqlc/indexing.sql.go that change a
-- job. Rows are kept by their primary key; times are numbers, passed in where a query says NOW().
pub mod Laws
use code_intelegence.Base.{
  ℕ, ◌+◌, String, Bool, true, false, Option, none, some, List, [], ◌∷◌, ltb, lookup, insert,
  if◌then◌else◌,
}

-- The values that the queries write to the column `status`.
pub data JobStatus : Type 0 where
  queued running completed failed : JobStatus

abbrev pub same_status : JobStatus → JobStatus → Bool
same_status queued queued = true
same_status running running = true
same_status completed completed = true
same_status failed failed = true
same_status _ _ = false

-- A row of indexing_jobs. The provider configurations and created_at are left out.
pub record IndexingJob : Type 0 where
  pub project_id : String
  pub index_snapshot_id : Option String
  pub job_type : String
  pub status : JobStatus
  pub files_processed : ℕ
  pub chunks_upserted : ℕ
  pub vectors_deleted : ℕ
  pub error_details : String
  pub worker_id : Option String
  pub started_at : Option ℕ
  pub finished_at : Option ℕ

abbrev pub Jobs : Type 0
Jobs = List (String × IndexingJob)

-- UPDATE ... WHERE id = $1 AND status = $2: the rows affected, and the table.
unfoldable pub update_from : JobStatus → (IndexingJob → IndexingJob) → String → Jobs → ℕ × Jobs
update_from from change id jobs = elim (lookup id jobs) [
  | none ↦ (0, jobs)
  | some job ↦ if same_status job.status from then (1, insert id (change job) jobs) else (0, jobs)
]

-- UPDATE ... WHERE id = $1
unfoldable pub update_any : (IndexingJob → IndexingJob) → String → Jobs → Jobs
update_any change id jobs = elim (lookup id jobs) [
  | none ↦ jobs
  | some job ↦ insert id (change job) jobs
]

-- INSERT of a queued job under a generated id. The handler passes a NULL index_snapshot_id.
unfoldable pub create_indexing_job : String → Option String → String → String → Jobs → Jobs
create_indexing_job project_id index_snapshot_id job_type id = insert id (record {
  project_id = project_id;
  index_snapshot_id = index_snapshot_id;
  job_type = job_type;
  status = queued;
  files_processed = 0;
  chunks_upserted = 0;
  vectors_deleted = 0;
  error_details = "[]";
  worker_id = none;
  started_at = none;
  finished_at = none;
})

abbrev pub claimed : ℕ → Option String → IndexingJob → IndexingJob
claimed now worker_id job = record job {
  status = running;
  started_at = some now;
  worker_id = worker_id;
}

abbrev pub finished : JobStatus → ℕ → String → IndexingJob → IndexingJob
finished status now details job = record job {
  status = status;
  error_details = details;
  finished_at = some now;
}

abbrev pub succeeded : ℕ → IndexingJob → IndexingJob
succeeded now job = record job { status = completed; finished_at = some now }

unfoldable pub claim_queued_indexing_job : ℕ → Option String → String → Jobs → ℕ × Jobs
claim_queued_indexing_job now worker_id = update_from queued (claimed now worker_id)

unfoldable pub set_indexing_job_completed_from_running : ℕ → String → Jobs → ℕ × Jobs
set_indexing_job_completed_from_running now = update_from running (succeeded now)

unfoldable pub set_indexing_job_failed_from_running : ℕ → String → String → Jobs → ℕ × Jobs
set_indexing_job_failed_from_running now details = update_from running (finished failed now details)

-- The one update of a status without a guard on it.
unfoldable pub set_indexing_job_failed : ℕ → String → String → Jobs → Jobs
set_indexing_job_failed now details = update_any (finished failed now details)

unfoldable pub fail_stale_job : ℕ → String → String → Jobs → ℕ × Jobs
fail_stale_job now details = update_from running (finished failed now details)

unfoldable pub set_indexing_job_progress : ℕ → ℕ → ℕ → String → Jobs → Jobs
set_indexing_job_progress files chunks vectors = update_any (λ job. record job {
  files_processed = files;
  chunks_upserted = chunks;
  vectors_deleted = vectors;
})

-- status = 'running' AND started_at < NOW() - threshold; a NULL started_at is not less.
abbrev pub is_stale : ℕ → ℕ → IndexingJob → Bool
is_stale now threshold job =
    if same_status job.status running
    then (elim job.started_at [ none ↦ false | some t ↦ ltb (t + threshold) now ])
    else false

unfoldable pub list_stale_running_jobs : ℕ → ℕ → Jobs → Jobs
list_stale_running_jobs now threshold [] = []
list_stale_running_jobs now threshold ((id, job) ∷ jobs) =
    let rest = list_stale_running_jobs now threshold jobs in
    if is_stale now threshold job then (id, job) ∷ rest else rest
