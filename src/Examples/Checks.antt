-- ===== src/Examples/Checks.antt =====
-- Checks by the API of the jobs that the reap cycle of the workers' example meets.
use code_intelegence.Base.{
  String, ◌≡◌, ◌≢◌, refl, true, false, none, some, List, [], ◌∷◌, ◌==◌, if◌then◌else◌, arith,
  eq_iff, lookup, insert, delete,
}
use code_intelegence.Jobs.Table.{IndexingJob, running, completed, succeeded}
use code_intelegence.Worker.Heartbeat.{Reply, missing, malformed, status}
use code_intelegence.Worker.Registry.{Registry, busy, clear_job, publish}
use code_intelegence.Worker.Reaper as Reaper
use code_intelegence.Worker.Reaper.Spares.{Keyed}
use code_intelegence.Domain.Errors.{ok}
use code_intelegence.JobHealth.{Outside, Check, World, check_and_reap_if_dead}
use code_intelegence.JobHealth.Agreement.{agrees_with_reaper}
use code_intelegence.JobHealth.Late.{after_completion, completed_reported_failed}
use code_intelegence.Examples.Workers.{beats, cycle_outside, snapshots, job_of, reaped_job}

abbrev outside : Outside
outside = record {
  now = 100;
  heartbeat = beats;
  is_uuid = λ _. true;
  fail_stale_fails = none;
  delete_fails = none;
  publish_fails = none;
}

abbrev check_of : String → String → Check
check_of job worker = record {
  job_id = job;
  worker_id = worker;
  current_status = "running";
  started_at = if worker == "w" then some 5 else some 6;
  project_id = "p";
  snapshot_id = "";
}

abbrev world : World
world = record {
  jobs =
      ("j", job_of "w" 5 running)
      ∷ ("k", job_of "gone" 6 running)
      ∷ ("l", job_of "w" 7 completed)
      ∷ [];
  snapshots = snapshots;
  events = [];
}

abbrev w : String
w = "w"

w_named : w ≢ ""
w_named e = ground (arith, eq_iff w "")

abbrev gone : String
gone = "gone"

gone_named : gone ≢ ""
gone_named e = ground (arith, eq_iff gone "")

gone_decoded : beats "gone" ≢ malformed
gone_decoded e = ground arith

abbrev k_row : IndexingJob
k_row = job_of "gone" 6 running

world-Keyed : Keyed world.jobs
unfolding lookup
world-Keyed = (refl, (refl, (refl, tt)))

k_there : lookup "k" world.jobs ≡ some k_row
unfolding lookup
k_there = refl

abbrev world_end : Reaper.Cycle
world_end = record {
  jobs = ("j", job_of "w" 5 running) ∷ ("k", reaped_job) ∷ ("l", job_of "w" 7 completed) ∷ [];
  snapshots = [];
  reaped = 1;
  events = ("p", "k") ∷ [];
}

world_reaped : Reaper.run_once cycle_outside 60 world.jobs snapshots ≡ ok world_end
unfolding Reaper.run_once code_intelegence.Jobs.Table.list_stale_running_jobs
    code_intelegence.Jobs.Snapshots.list_orphaned_building_snapshots
    code_intelegence.Jobs.Table.update_from code_intelegence.Jobs.Table.fail_stale_job lookup insert
    Reaper.is_worker_alive code_intelegence.Worker.Heartbeat.is_active_job
    code_intelegence.Jobs.Snapshots.any_job
    code_intelegence.Jobs.Snapshots.delete_orphaned_building_snapshot delete
world_reaped = refl

agrees_with_reaper_example :
    lookup "k" (check_and_reap_if_dead outside 60 (check_of "k" "gone") world).1.jobs
    ≡ lookup "k" world_end.jobs
agrees_with_reaper_example =
    agrees_with_reaper outside 60 (check_of "k" "gone") world cycle_outside k_row
      (record { clock = refl; heartbeats = refl; fails = refl })
      (record { worker = refl; asked = refl; start = refl }) gone_named gone_decoded snapshots
      world_end world-Keyed k_there refl refl world_reaped

-- The worker "w" completes "j", which was its only job.
abbrev holds_j : Registry
holds_j = record {
  worker_id = "w";
  status = busy;
  active_jobs = ("j", "p") ∷ [];
  started = true;
  stopped = false;
}

abbrev pick_none : List (String × String) → String × String
pick_none jobs = ("", "")

abbrev beat_after : Outside
beat_after = record outside { heartbeat = λ id. status (publish pick_none (clear_job "j" holds_j)) }

j_there : lookup "j" world.jobs ≡ some (job_of "w" 5 running)
unfolding lookup
j_there = refl

abbrev j : String
j = "j"

j_named : j ≢ ""
j_named e = ground (arith, eq_iff j "")

completed_reported_failed_example :
    (lookup "j" (after_completion 50 "j" world).jobs ≡ some (succeeded 50 (job_of "w" 5 running)))
    × (check_and_reap_if_dead beat_after 60 (check_of "j" "w") (after_completion 50 "j" world)
        ≡ ("failed", after_completion 50 "j" world))
completed_reported_failed_example =
    completed_reported_failed beat_after 60 (check_of "j" "w") world holds_j pick_none 50
      (job_of "w" 5 running) j_there refl refl j_named refl refl refl refl
