-- ===== src/JobHealth.antt =====
-- backend-api/internal/jobhealth/checker.go: the check of a running job when the API reads it.
pub mod Effects
pub mod Agreement
pub mod Late
use code_intelegence.Base.{
  ℕ, ◌+◌, String, Bool, true, false, not, ◌||◌, Option, none, some, List, [], ◌∷◌, ◌++◌, ◌==◌, leb,
  ltb, if◌then◌else◌,
}
use code_intelegence.Domain.Errors.{GoError}
use code_intelegence.Jobs.Table.{Jobs, fail_stale_job}
use code_intelegence.Jobs.Snapshots.{Snapshots, delete_orphaned_building_snapshot}
use code_intelegence.Worker.Heartbeat.{
  WorkerStatus, Reply, missing, redis_error, malformed, status, is_active_job,
}

abbrev pub reaper_error_details : String
reaper_error_details =
    "[{\"category\":\"worker_crash\",\"message\":\"Worker process became unreachable during indexing. The job was automatically marked as failed.\",\"step\":\"reaper\"}]"

-- What the clock, Redis, the UUID parser and the database answer during one check.
pub record Outside : Type 0 where
  pub now : ℕ
  pub heartbeat : String → Reply
  pub is_uuid : String → Bool
  pub fail_stale_fails : Option GoError
  pub delete_fails : Option GoError
  pub publish_fails : Option GoError

-- The arguments of CheckAndReapIfDead; `started_at` is none for the zero time.
pub record Check : Type 0 where
  pub job_id : String
  pub worker_id : String
  pub current_status : String
  pub started_at : Option ℕ
  pub project_id : String
  pub snapshot_id : String

-- The tables, and the job:failed events published, as (project, job).
pub record World : Type 0 where
  pub jobs : Jobs
  pub snapshots : Snapshots
  pub events : List (String × String)

-- The snapshot of a reaped job is deleted if it has one; an error is only logged.
abbrev clean_snapshot : Outside → String → Snapshots → Snapshots
clean_snapshot out snapshot_id snaps =
    if snapshot_id == "" || not (out.is_uuid snapshot_id) then snaps else (elim out.delete_fails [
      | some e ↦ snaps
      | none ↦ delete_orphaned_building_snapshot snapshot_id snaps
    ])

-- Publish only logs its failure.
abbrev pub published :
    Option GoError → String × String → List (String × String) → List (String × String)
published none event events = events ++ event ∷ []
published (some e) event events = events

-- After FailStaleJob, with the rows affected.
abbrev pub reaped : Outside → Check → ℕ × Jobs → World → String × World
reaped out c (rows, jobs) w = if leb rows 0 then ("failed", record w { jobs = jobs }) else (
  "failed",
  record {
    jobs = jobs;
    snapshots = clean_snapshot out c.snapshot_id w.snapshots;
    events = published out.publish_fails (c.project_id, c.job_id) w.events;
  },
)

unfoldable pub reap : Outside → Check → World → String × World
reap out c w = if not (out.is_uuid c.job_id) then ("running", w) else elim out.fail_stale_fails [
  | some e ↦ ("running", w)
  | none ↦ reaped out c (fail_stale_job out.now reaper_error_details c.job_id w.jobs) w
]

-- !startedAt.IsZero() && time.Since(startedAt) < staleThreshold
abbrev pub is_fresh : ℕ → ℕ → Option ℕ → Bool
is_fresh now threshold none = false
is_fresh now threshold (some t) = ltb now (t + threshold)

-- The slow path, by what the heartbeat's key holds.
abbrev pub by_heartbeat : Outside → Check → Reply → World → String × World
by_heartbeat out c redis_error w = (c.current_status, w)
by_heartbeat out c malformed w = (c.current_status, w)
by_heartbeat out c missing w = reap out c w
by_heartbeat out c (status ws) w =
    if is_active_job ws c.job_id then ("running", w) else reap out c w

unfoldable pub check_and_reap_if_dead : Outside → ℕ → Check → World → String × World
unfolding reap
check_and_reap_if_dead out threshold c w =
    if not (c.current_status == "running")
    then (c.current_status, w)
    else if is_fresh out.now threshold c.started_at
    then (c.current_status, w)
    else if c.worker_id == ""
    then reap out c w
    else by_heartbeat out c (out.heartbeat c.worker_id) w
