-- ===== src/Worker/Reaper.antt =====
-- backend-worker/internal/reaper/reaper.go: one reap cycle over running jobs and building snapshots.
pub mod Spares
pub mod Verdict
pub mod Orphans
use code_intelegence.Base.{
  ℕ, zero, suc, ◌+◌, String, Bool, true, false, Option, none, some, List, [], ◌∷◌, ◌==◌, leb,
  if◌then◌else◌, ◌++◌,
}
use code_intelegence.Domain.Errors.{GoError, wrap, Result, ok, err}
use code_intelegence.Jobs.Table.{Jobs, IndexingJob, fail_stale_job, list_stale_running_jobs}
use code_intelegence.Jobs.Snapshots.{
  Snapshots, list_orphaned_building_snapshots, delete_orphaned_building_snapshot,
}
use code_intelegence.Worker.Heartbeat.{
  WorkerStatus, Reply, missing, redis_error, malformed, status, is_active_job,
}

-- One SCAN: an error, or some keys and the next cursor.
pub data Page : Type 0 where
  scan_error : Page
  page : List String → ℕ → Page

-- What the database, Redis and the clock answer during one cycle. `heartbeat` is the GET of
-- worker:status:{id}, `publish_fails` the failure to publish a job's event, `get` the GET of a scanned key, `scan` the SCAN at a cursor, and `done i` says
-- whether the context has ended before the i-th scan.
pub record Outside : Type 0 where
  pub now : ℕ
  pub list_stale_fails : Option GoError
  pub fail_stale_fails : String → Option GoError
  pub list_orphans_fails : Option GoError
  pub delete_fails : String → Option GoError
  pub publish_fails : String → Option GoError
  pub heartbeat : String → Reply
  pub get : String → Reply
  pub scan : ℕ → Page
  pub done : ℕ → Bool

abbrev pub max_scan_iterations : ℕ
max_scan_iterations = 1000

abbrev pub reaper_error_details : String
reaper_error_details =
    "[{\"category\":\"worker_crash\",\"message\":\"Worker process became unreachable during indexing. The job was automatically marked as failed.\",\"step\":\"reaper\"}]"

-- A key that cannot be read or decoded is passed over.
abbrev owns : String → Reply → Bool
owns job (status ws) = is_active_job ws job
owns job _ = false

unfoldable pub any_owner : Outside → String → List String → Bool
any_owner out job [] = false
any_owner out job (key ∷ keys) = if owns job (out.get key) then true else any_owner out job keys

-- The rest of a round of the SCAN loop, `more` being what the further rounds give.
abbrev after_page : Outside → String → Page → (ℕ → Bool) → Bool
after_page out job scan_error more = true
after_page out job (page keys next) more =
    if any_owner out job keys then true else if leb next 0 then false else more next

-- The SCAN loop at round `i` with `left` rounds to go. An ended context and a failed SCAN count as
-- alive; after the last page, or after the last round, nobody owns the job.
unfoldable pub scan_rounds : Outside → String → ℕ → ℕ → ℕ → Bool
unfolding any_owner
scan_rounds out job zero i cursor = false
scan_rounds out job (suc left) i cursor =
    let more = λ (next : ℕ). scan_rounds out job left (suc i) next in
    if out.done i then true else after_page out job (out.scan cursor) more

unfoldable pub scan_for_job_owner : Outside → String → Bool
unfolding scan_rounds
scan_for_job_owner out job = scan_rounds out job max_scan_iterations 0 0

abbrev pub alive_by : Reply → String → Bool
alive_by missing job = false
alive_by redis_error job = true
alive_by malformed job = false
alive_by (status ws) job = is_active_job ws job

unfoldable pub is_worker_alive : Outside → String → String → Bool
is_worker_alive out worker_id job =
    if worker_id == "" then scan_for_job_owner out job else alive_by (out.heartbeat worker_id) job

-- job.WorkerID.String if it is valid, and "" otherwise
abbrev pub worker_of : IndexingJob → String
worker_of job = elim job.worker_id [ none ↦ "" | some w ↦ w ]

-- What a cycle has done: the tables, the number of jobs reaped, and the job:failed events in the
-- order in which they were published, as (project, job).
pub record Cycle : Type 0 where
  pub jobs : Jobs
  pub snapshots : Snapshots
  pub reaped : ℕ
  pub events : List (String × String)

abbrev pub new_cycle : Jobs → Snapshots → Cycle
new_cycle jobs snaps = record { jobs = jobs; snapshots = snaps; reaped = 0; events = [] }

-- PublishJobFailed only logs its failure.
abbrev pub published :
    Option GoError → String × String → List (String × String) → List (String × String)
published none event events = events ++ event ∷ []
published (some e) event events = events

-- FailStaleJob's result for one job: a job that somebody else has finished is passed over.
abbrev pub fail_one : Outside → String → IndexingJob → ℕ × Jobs → Cycle → Cycle
fail_one out id job (rows, jobs) c = if leb rows 0 then c else record c {
  jobs = jobs;
  reaped = c.reaped + 1;
  events = published (out.publish_fails id) (job.project_id, id) c.events;
}

unfoldable pub reap_one : Outside → String → IndexingJob → Cycle → Cycle
reap_one out id job c =
    if is_worker_alive out (worker_of job) id then c else elim (out.fail_stale_fails id) [
      | some e ↦ c
      | none ↦ fail_one out id job (fail_stale_job out.now reaper_error_details id c.jobs) c
    ]

unfoldable pub reap_all : Outside → Jobs → Cycle → Cycle
unfolding reap_one
reap_all out [] c = c
reap_all out ((id, job) ∷ rest) c = reap_all out rest (reap_one out id job c)

abbrev delete_one : Outside → String → Snapshots → Snapshots
delete_one out id snaps = elim (out.delete_fails id) [
  | none ↦ delete_orphaned_building_snapshot id snaps
  | some e ↦ snaps
]

unfoldable pub delete_all : Outside → List String → Snapshots → Snapshots
delete_all out [] snaps = snaps
delete_all out (id ∷ ids) snaps = delete_all out ids (delete_one out id snaps)

unfoldable pub clean_snapshots : Outside → Cycle → Cycle
unfolding delete_all
clean_snapshots out c = elim out.list_orphans_fails [
  | some e ↦ c
  | none ↦ record c {
    snapshots = delete_all out (list_orphaned_building_snapshots c.jobs c.snapshots) c.snapshots;
  }
]

-- A cycle over the tables; `threshold` is the configured StaleThreshold. The error is that of
-- listing the stale jobs, which ends the cycle.
unfoldable pub run_once : Outside → ℕ → Jobs → Snapshots → Result GoError Cycle
unfolding reap_all clean_snapshots
run_once out threshold jobs snaps = elim out.list_stale_fails [
  | some e ↦ err (wrap "reaper: list stale jobs" e)
  | none ↦ ok (
      clean_snapshots out
        (reap_all out (list_stale_running_jobs out.now threshold jobs) (new_cycle jobs snaps)))
]
