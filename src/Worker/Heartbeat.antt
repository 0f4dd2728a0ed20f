-- ===== src/Worker/Heartbeat.antt =====
-- The heartbeat that a worker stores in Redis under worker:status:{id}, as its readers see it:
-- workerStatus and isActiveJob in backend-worker/internal/reaper/reaper.go and
-- backend-api/internal/jobhealth/checker.go. Redis and the JSON codec are not this program's code;
-- what a read gives is a `Reply`.
use code_intelegence.Base.{
  String, Bool, true, false, Option, none, some, List, [], ◌∷◌, ◌==◌, lookup,
}

pub record WorkerStatus : Type 0 where
  pub current_job_id : String
  pub active_jobs : List (String × String)

abbrev pub has_entry : Option String → Bool
has_entry none = false
has_entry (some v) = true

unfoldable pub is_active_job : WorkerStatus → String → Bool
is_active_job ws job_id = elim ws.active_jobs [
  | [] ↦ ws.current_job_id == job_id
  | _ ∷ _ ↦ has_entry (lookup job_id ws.active_jobs)
]

-- What reading one heartbeat gives: no such key, an error of the connection, a payload that is no
-- JSON of a status, or a status.
pub data Reply : Type 0 where
  missing redis_error malformed : Reply
  status : WorkerStatus → Reply
