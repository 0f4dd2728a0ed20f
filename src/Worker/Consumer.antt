-- ===== src/Worker/Consumer.antt =====
-- backend-worker/internal/queue/consumer.go with the task of backend-worker/internal/workflow: how a
-- queue task is decoded, and how its handler runs between SetBusy and ClearJob. The JSON codec is a
-- parameter (`none`: an error), and so is the handler.
pub mod Bracket
use code_intelegence.Base.{String, Bool, true, false, not, Option, none, some, ◌==◌, if◌then◌else◌}
use code_intelegence.Domain.Errors.{GoError, other, wrap, Result, ok, err}
use code_intelegence.Worker.Registry.{Registry, set_busy, clear_job}

pub record WorkflowTask : Type 0 where
  pub job_id : String
  pub workflow : String
  pub enqueued_at : String
  pub project_id : String
  pub trace_id : String
  pub requested_by : String
  pub worker_id : String

abbrev required : WorkflowTask → Result GoError WorkflowTask
required task =
    if task.job_id == ""
    then err (other "consumer: missing required field job_id")
    else if task.workflow == ""
    then err (other "consumer: missing required field workflow")
    else if task.enqueued_at == ""
    then err (other "consumer: missing required field enqueued_at")
    else ok task

abbrev decoded : Option WorkflowTask → Result GoError WorkflowTask
decoded none = err (wrap "consumer: decode payload" (other "invalid JSON"))
decoded (some task) = required task

unfoldable pub decode_workflow_task :
    (String → Option WorkflowTask) → String → Result GoError WorkflowTask
decode_workflow_task unmarshal payload =
    if payload == "" then err (other "consumer: empty payload") else decoded (unmarshal payload)

-- A handler, run with the registry as it is at its start: what it returns, and the registry that the
-- other tasks of the worker leave until then.
abbrev pub Handler : Type 0
Handler = WorkflowTask → Registry → Option GoError × Registry

-- What became of a task: what the handler was called with, if it was; the error; the registry.
pub record Handled : Type 0 where
  pub given : Option (WorkflowTask × Registry)
  pub failure : Option GoError
  pub registry : Registry

abbrev refuse : GoError → Registry → Handled
refuse e reg = record { given = none; failure = some e; registry = reg }

-- The call of the handler, with `defer reg.ClearJob(task.JobID)` at its end.
abbrev call : Handler → WorkflowTask → Registry → Handled
call handle task busy = record {
  given = some (task, busy);
  failure = (handle task busy).0;
  registry = clear_job task.job_id (handle task busy).1;
}

abbrev pub run_task : Handler → String → Registry → Result GoError WorkflowTask → Handled
run_task handle name reg (err e) = refuse (wrap "consumer" e) reg
run_task handle name reg (ok task) =
    if not (task.workflow == name)
    then refuse (other "consumer: workflow mismatch") reg
    else call handle (record task { worker_id = reg.worker_id })
        (set_busy task.job_id task.project_id reg)

unfoldable pub wrap_handler :
    (String → Option WorkflowTask) → Handler → String → String → Registry → Handled
unfolding decode_workflow_task
wrap_handler unmarshal handle name payload reg =
    run_task handle name reg (decode_workflow_task unmarshal payload)
