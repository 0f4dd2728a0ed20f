-- ===== src/Examples/Tasks.antt =====
-- A task of the workflow, and one of another.
use code_intelegence.Base.{
  ◌≡◌, ◌≢◌, ◌⊎◌, refl, true, false, none, some, [], ◌∷◌, ◌==◌, if◌then◌else◌, lookup, insert,
}
use code_intelegence.Worker.Registry.{Registry, idle, busy, is_busy}
use code_intelegence.Worker.Consumer.{WorkflowTask, Handler, wrap_handler}
use code_intelegence.Worker.Consumer.Bracket.{
  accepted, IsRefused, task_bracketed, task_accepted_or_refused,
}

abbrev task : WorkflowTask
task = record {
  job_id = "j";
  workflow = "full-index";
  enqueued_at = "now";
  project_id = "p";
  trace_id = "";
  requested_by = "";
  worker_id = "";
}

abbrev reg : Registry
reg = record { worker_id = "w"; status = idle; active_jobs = []; started = true; stopped = false }

-- While the handler runs, the job "k" begins.
abbrev run_once_task : Handler
run_once_task t r = (none, record r { active_jobs = insert "k" "p" r.active_jobs })

abbrev given_task : WorkflowTask
given_task = record task { worker_id = "w" }

abbrev start : Registry
start = record reg { status = busy; active_jobs = ("j", "p") ∷ [] }

runs :
    (wrap_handler (λ _. some task) run_once_task "full-index" "{}" reg).given
    ≡ some (given_task, start)
unfolding wrap_handler code_intelegence.Worker.Registry.set_busy insert
runs = refl

task_bracketed_example :
    (given_task.job_id ≢ "")
    × (given_task.enqueued_at ≢ "")
    × (given_task.workflow ≡ "full-index")
    × (given_task.worker_id ≡ reg.worker_id)
    × (is_busy start.status ≡ true)
    × (lookup given_task.job_id start.active_jobs ≡ some given_task.project_id)
    × (lookup "k"
          (wrap_handler (λ _. some task) run_once_task "full-index" "{}" reg).registry.active_jobs
        ≡ (if given_task.job_id == "k"
            then none
            else lookup "k" (run_once_task given_task start).1.active_jobs))
task_bracketed_example =
    task_bracketed (λ _. some task) run_once_task "full-index" "{}" reg given_task start "k" runs

-- A task of another workflow.
mismatch : accepted (λ _. some task) run_once_task "incremental" "{}" reg ≡ false
mismatch = refl

task_accepted_or_refused_example :
    (accepted (λ _. some task) run_once_task "incremental" "{}" reg ≡ true)
      × ((wrap_handler (λ _. some task) run_once_task "incremental" "{}" reg).given ≢ none)
    ⊎ (accepted (λ _. some task) run_once_task "incremental" "{}" reg ≡ false)
      × IsRefused (λ _. some task) run_once_task "incremental" "{}" reg
task_accepted_or_refused_example =
    task_accepted_or_refused (λ _. some task) run_once_task "incremental" "{}" reg
