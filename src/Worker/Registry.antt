-- ===== src/Worker/Registry.antt =====
-- backend-worker/internal/registry/registry.go: a worker's status and active jobs, and the payload
-- that its heartbeat publishes.
pub mod Busy
use code_intelegence.Base.{
  not, String, Bool, true, false, ◌&&◌, Option, none, some, List, [], ◌∷◌, ◌==◌, lookup, insert,
  delete, if◌then◌else◌,
}
use code_intelegence.Domain.Errors.{GoError, other, wrap, Result, ok, err}
use code_intelegence.Worker.Heartbeat.{WorkerStatus}

pub data Status : Type 0 where
  starting idle busy draining : Status

abbrev pub is_busy : Status → Bool
is_busy busy = true
is_busy _ = false

-- The state under the mutex, and whether the heartbeat was started and stopped.
pub record Registry : Type 0 where
  pub worker_id : String
  pub status : Status
  pub active_jobs : List (String × String)
  pub started : Bool
  pub stopped : Bool

-- `parses` is whether the Redis client's library parses a URL.
unfoldable pub new : (String → Bool) → String → String → Result GoError Registry
new parses redis_url worker_id =
    if worker_id == ""
    then err (other "registry: empty workerID")
    else if not (parses redis_url)
    then err (wrap "registry: parse redis url" (other "invalid URL"))
    else ok (record {
      worker_id = worker_id;
      status = starting;
      active_jobs = [];
      started = false;
      stopped = false;
    })

unfoldable pub set_status : Status → Registry → Registry
set_status status r = record r { status = status; active_jobs = [] }

unfoldable pub set_busy : String → String → Registry → Registry
set_busy job_id project_id r = record r {
  active_jobs = insert job_id project_id r.active_jobs;
  status = busy;
}

abbrev pub is_empty : List (String × String) → Bool
is_empty [] = true
is_empty (_ ∷ _) = false

unfoldable pub clear_job : String → Registry → Registry
clear_job job_id r =
    let jobs = delete job_id r.active_jobs in
    record r {
      active_jobs = jobs;
      status = if is_empty jobs && is_busy r.status then idle else r.status;
    }

-- The flag that StartHeartbeat sets; the first call starts the goroutine, a later one returns.
unfoldable pub start_heartbeat : Registry → Registry × Bool
start_heartbeat r = if r.started then (r, false) else (record r { started = true }, true)

-- Close's change of the state: draining, no active jobs, and the stop channel closed.
unfoldable pub close : Registry → Registry
close r = record r { status = draining; active_jobs = []; stopped = true }

-- The part of the payload that names jobs. `pick` is the entry that Go's iteration over the map
-- yields first, which may be any of them.
unfoldable pub publish : (List (String × String) → String × String) → Registry → WorkerStatus
publish pick r = elim r.active_jobs [
  | [] ↦ record { current_job_id = ""; active_jobs = [] }
  | _ ∷ _ ↦ record { current_job_id = (pick r.active_jobs).0; active_jobs = r.active_jobs }
]
