-- ===== src/Examples/Workers.antt =====
-- A worker that holds one job, and a reap cycle beside it.
use code_intelegence.Base.{
  length, ◌≤◌, ◌⊎◌, ℕ, String, ◌≡◌, ◌≢◌, refl, true, false, none, some, List, [], ◌∷◌, arith,
  eq_iff, ◌==◌, if◌then◌else◌, lookup, insert, delete,
}
use code_intelegence.Domain.Errors.{ok}
use code_intelegence.Jobs.Table.{
  Jobs, IndexingJob, JobStatus, queued, running, completed, failed, same_status, is_stale,
  create_indexing_job,
}
use code_intelegence.Jobs.Lifecycle.{Op, create, claim, run}
use code_intelegence.Jobs.Snapshots.{IndexSnapshot, Snapshots, building, is_building}
use code_intelegence.Worker.Heartbeat.{
  Reply, WorkerStatus, missing, redis_error, status, is_active_job,
}
use code_intelegence.Worker.Registry as Registry
use code_intelegence.Worker.Registry.Busy.{
  Change, begin, finish, apply_all, under_way, heartbeat_tracks_jobs,
}
use code_intelegence.Worker.Reaper.{Outside, page, Cycle, is_worker_alive, worker_of, run_once}
use code_intelegence.Worker.Reaper.Spares.{Keyed, Touched, run_once_touches, run_once_counts}
use code_intelegence.Worker.Reaper.Orphans.{building_snapshot_deleted}
use code_intelegence.JobHealth as JobHealth

-- The job "j" is running on the worker "w", whose heartbeat shows it; the job "k" on a worker that
-- is gone.
abbrev pub ops : List Op
ops =
    create "p" "full-index" "j"
    ∷ create "p" "full-index" "k"
    ∷ claim none 5 "j" "w"
    ∷ claim none 6 "k" "gone"
    ∷ []

abbrev pub beats : String → Reply
beats id =
    if id == "w"
    then status (record { current_job_id = "j"; active_jobs = ("j", "p") ∷ [] })
    else missing

abbrev pub cycle_outside : Outside
cycle_outside = record {
  now = 100;
  list_stale_fails = none;
  fail_stale_fails = λ _. none;
  list_orphans_fails = none;
  delete_fails = λ _. none;
  publish_fails = λ _. none;
  heartbeat = beats;
  get = λ _. missing;
  scan = λ _. page [] 0;
  done = λ _. false;
}

abbrev half_built : IndexSnapshot
half_built = record {
  project_id = "p";
  branch = "main";
  embedding_version_id = "v";
  git_commit = "c1";
  is_active = false;
  status = building;
}

abbrev pub snapshots : Snapshots
snapshots = ("s", half_built) ∷ []

abbrev pub job_of : String → ℕ → JobStatus → IndexingJob
job_of worker at now = record {
  project_id = "p";
  index_snapshot_id = none;
  job_type = "full-index";
  status = now;
  files_processed = 0;
  chunks_upserted = 0;
  vectors_deleted = 0;
  error_details = "[]";
  worker_id = some worker;
  started_at = some at;
  finished_at = none;
}

abbrev pub reaped_job : IndexingJob
reaped_job = record (job_of "gone" 6 failed) {
  error_details = JobHealth.reaper_error_details;
  finished_at = some 100;
}

abbrev pub cycle_end : Cycle
cycle_end = record {
  jobs = ("j", job_of "w" 5 running) ∷ ("k", reaped_job) ∷ [];
  snapshots = [];
  reaped = 1;
  events = ("p", "k") ∷ [];
}

cycle_runs : run_once cycle_outside 60 (run ops []) snapshots ≡ ok cycle_end
unfolding run_once code_intelegence.Jobs.Table.list_stale_running_jobs
    code_intelegence.Jobs.Snapshots.list_orphaned_building_snapshots run
    code_intelegence.Jobs.Table.update_from lookup insert is_worker_alive is_active_job
    code_intelegence.Jobs.Snapshots.any_job
    code_intelegence.Jobs.Snapshots.delete_orphaned_building_snapshot delete
cycle_runs = refl

jobs-Keyed : Keyed (run ops [])
unfolding run code_intelegence.Jobs.Table.update_from lookup insert
jobs-Keyed = (refl, (refl, tt))

run_once_touches_example :
    Touched cycle_outside 60 "j" (lookup "j" (run ops [])) (lookup "j" cycle_end.jobs)
    × ((job : IndexingJob)
        → lookup "j" (run ops []) ≡ some job
        → worker_of job ≢ ""
        → (beats (worker_of job) ≡ redis_error)
          ⊎ (ws : WorkerStatus) × (beats (worker_of job) ≡ status ws)
            × (is_active_job ws "j" ≡ true)
        → lookup "j" cycle_end.jobs ≡ lookup "j" (run ops []))
run_once_touches_example =
    run_once_touches cycle_outside 60 (run ops []) snapshots cycle_end "j" jobs-Keyed cycle_runs

run_once_counts_example :
    (length cycle_end.events ≤ cycle_end.reaped)
    × (((id : String) → cycle_outside.publish_fails id ≡ none)
        → cycle_end.reaped ≡ length cycle_end.events)
run_once_counts_example =
    run_once_counts cycle_outside 60 (run ops []) snapshots cycle_end cycle_runs

there : lookup "s" snapshots ≡ some half_built
unfolding lookup
there = refl

building_snapshot_deleted_example : lookup "s" cycle_end.snapshots ≡ none
building_snapshot_deleted_example =
    building_snapshot_deleted cycle_outside "s" half_built refl refl (λ _. refl) 60 ops snapshots
      cycle_end refl there cycle_runs

abbrev started : Registry.Registry
started = record {
  worker_id = "w";
  status = Registry.idle;
  active_jobs = [];
  started = true;
  stopped = false;
}

abbrev pick_first : List (String × String) → String × String
pick_first [] = ("", "")
pick_first (x ∷ xs) = x

abbrev changes : List Change
changes = begin "j" "p" ∷ begin "k" "p" ∷ finish "j" ∷ []

abbrev k : String
k = "k"

k_named : k ≢ ""
k_named e = ground (arith, eq_iff k "")

heartbeat_tracks_jobs_example :
    is_active_job (Registry.publish pick_first (apply_all changes started)) "k"
    ≡ under_way "k" false changes
unfolding lookup
heartbeat_tracks_jobs_example = heartbeat_tracks_jobs pick_first changes started "k" k_named
