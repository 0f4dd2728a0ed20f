-- ===== src/Worker/Consumer/Bracket.antt =====
-- What the registry shows of a task while and after its handler runs.
use code_intelegence.Base.{
  String, ◌≡◌, ◌≢◌, refl, Bool, true, false, not, ◌&&◌, Option, none, some, arith, eq_iff, eq_refl,
  ◌==◌, lookup, lookup-insert, lookup-delete, if◌then◌else◌, Bool-cases, Option-cases, ◌⊎◌, inl,
  inr, eq_of_==,
}
use mathlib.Core.Path.{subst, sym, ap, ◌∙◌}
use code_intelegence.Domain.Errors.{GoError, Result, ok, err}
use code_intelegence.Worker.Registry.{Registry, set_busy, clear_job, is_busy}
use code_intelegence.Worker.Consumer.{
  WorkflowTask, decode_workflow_task, Handler, run_task, wrap_handler,
}

module _ (unmarshal : String → Option WorkflowTask) (handle : Handler) (name payload : String)
    (reg : Registry) where
  decode_ok :
      (task : WorkflowTask)
      → decode_workflow_task unmarshal payload ≡ ok task
      → (task.job_id ≢ "") × (task.enqueued_at ≢ "")
  unfolding decode_workflow_task
  decode_ok task h = elim (Option-cases (unmarshal payload)) [
    | inl n ↦ ground arith
    | inr (t, e) ↦ ground (arith, eq_iff t.job_id "", eq_iff t.enqueued_at "")
  ]

  -- How the handler comes to be called, and what is left after it.
  pub record Called (result : Result GoError WorkflowTask) (run : WorkflowTask × Registry)
      : Type 0 where
    pub from : WorkflowTask
    pub decoded : result ≡ ok from
    pub job_is : run.0.job_id ≡ from.job_id
    pub queued_is : run.0.enqueued_at ≡ from.enqueued_at
    pub route : run.0.workflow ≡ name
    pub worker_is : run.0.worker_id ≡ reg.worker_id
    pub start_busy : is_busy run.1.status ≡ true
    pub start_job : lookup run.0.job_id run.1.active_jobs ≡ some run.0.project_id
    pub end_is :
        (run_task handle name reg result).registry ≡ clear_job run.0.job_id (handle run.0 run.1).1

  set_busy_job :
      (job project : String) → lookup job (set_busy job project reg).active_jobs ≡ some project
  unfolding set_busy
  set_busy_job job project = rw (lookup-insert job job project reg.active_jobs, eq_refl job) refl

  set_busy_busy : (job project : String) → is_busy (set_busy job project reg).status ≡ true
  unfolding set_busy
  set_busy_busy job project = refl

  no_call : {P : Type 0} {run : WorkflowTask × Registry} → none ≡ some run → P
  no_call h = ground arith

  some_inj : {a b : WorkflowTask × Registry} → some a ≡ some b → a ≡ b
  some_inj h = ground arith

  run_task-Called :
      (result : Result GoError WorkflowTask) (run : WorkflowTask × Registry)
      → (run_task handle name reg result).given ≡ some run
      → Called result run
  run_task-Called (err e) run h = ground arith
  run_task-Called (ok t) run h = elim (Bool-cases (t.workflow == name)) [
    | inr n ↦ no_call (rw n at h)
    | inl y ↦
        let given : some
              (record t { worker_id = reg.worker_id }, set_busy t.job_id t.project_id reg)
            ≡ some run =
          rw y at h in
        subst (Called (ok t)) (some_inj given) (record {
          from = t;
          decoded = refl;
          job_is = refl;
          queued_is = refl;
          route = eq_of_== _ _ y;
          worker_is = refl;
          start_busy = set_busy_busy t.job_id t.project_id;
          start_job = set_busy_job t.job_id t.project_id;
          end_is = rw y refl;
        })
  ]

  lookup-clear_job :
      (job k : String) (r : Registry)
      → lookup k (clear_job job r).active_jobs ≡ (if job == k then none else lookup k r.active_jobs)
  unfolding clear_job
  lookup-clear_job job k r = lookup-delete job k r.active_jobs

  -- A task whose handler runs has a job id, a queueing time and the workflow of the handler; the
  -- handler starts with the worker's id in the task, the worker busy and the job registered; and
  -- when it has returned, with an error or not, the job is registered no more, while every other job
  -- is as the handler's run left it.
  pub task_bracketed :
      (task : WorkflowTask) (start : Registry) (k : String)
      → (wrap_handler unmarshal handle name payload reg).given ≡ some (task, start)
      → (task.job_id ≢ "")
        × (task.enqueued_at ≢ "")
        × (task.workflow ≡ name)
        × (task.worker_id ≡ reg.worker_id)
        × (is_busy start.status ≡ true)
        × (lookup task.job_id start.active_jobs ≡ some task.project_id)
        × (lookup k (wrap_handler unmarshal handle name payload reg).registry.active_jobs
            ≡ (if task.job_id == k then none else lookup k (handle task start).1.active_jobs))
  unfolding wrap_handler
  task_bracketed task start k h =
      let c = run_task-Called (decode_workflow_task unmarshal payload) (task, start) h in
      let (named, timed) = decode_ok c.from c.decoded in
      (
        λ e. named (sym c.job_is ∙ e),
        λ e. timed (sym c.queued_is ∙ e),
        c.route,
        c.worker_is,
        c.start_busy,
        c.start_job,
        ap (λ r. lookup k r.active_jobs) c.end_is
            ∙ lookup-clear_job task.job_id k (handle task start).1,
      )

  -- A task with a job id and a queueing time that names the handler's workflow, which is not empty.
  abbrev pub is_acceptable : Option WorkflowTask → Bool
  is_acceptable none = false
  is_acceptable (some task) =
      not (task.job_id == "")
      && (not (task.enqueued_at == "") && (not (name == "") && task.workflow == name))

  abbrev pub accepted : Bool
  accepted = not (payload == "") && is_acceptable (unmarshal payload)

  -- What a refusal leaves.
  abbrev pub IsRefused : Type 0
  IsRefused =
      let handled = wrap_handler unmarshal handle name payload reg in
      (handled.given ≡ none) × (handled.failure ≢ none) × (handled.registry ≡ reg)

  run_task_refused :
      (result : Result GoError WorkflowTask)
      → (run_task handle name reg result).given ≡ none
      → ((run_task handle name reg result).failure ≢ none)
        × ((run_task handle name reg result).registry ≡ reg)
  run_task_refused (err e) h = (λ k. ground arith, refl)
  run_task_refused (ok t) h = (λ k. ground arith, ground arith)

  refused_whole : (wrap_handler unmarshal handle name payload reg).given ≡ none → IsRefused
  unfolding wrap_handler
  refused_whole h =
      let (failed, same) = run_task_refused (decode_workflow_task unmarshal payload) h in
      (h, failed, same)

  -- The handler runs exactly for a payload that is not empty and decodes to a task with a job id, a
  -- queueing time and the handler's workflow, which is not empty. Any other payload is refused: the
  -- handler does not run, an error is returned, and the registry stays as it was.
  pub task_accepted_or_refused :
      (accepted ≡ true) × ((wrap_handler unmarshal handle name payload reg).given ≢ none)
      ⊎ (accepted ≡ false) × IsRefused
  unfolding wrap_handler decode_workflow_task
  task_accepted_or_refused = elim (Option-cases (unmarshal payload)) [
    | inl n ↦ inr (ground arith, refused_whole (ground arith))
    | inr (t, e) ↦ elim (Bool-cases accepted) [
      | inl y ↦
          inl (y, λ k. ground (arith, eq_iff t.workflow name, eq_iff t.workflow "", eq_iff name ""))
      | inr n ↦ inr (
        n,
        refused_whole
            (ground (arith, eq_iff t.workflow name, eq_iff t.workflow "", eq_iff name "")),
      )
    ]
  ]
