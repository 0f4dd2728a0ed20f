-- ===== src/Worker/Registry/Busy.antt =====
-- What the registry says of a worker's jobs, and what the readers of its heartbeat conclude.
use code_intelegence.Base.{
  String, ◌≡◌, ◌≢◌, refl, Bool, true, false, List, [], ◌∷◌, ◌==◌, lookup, insert, delete,
  if◌then◌else◌, arith, eq_iff, lookup-insert, lookup-delete, ap, ◌∙◌, not, ◌&&◌,
}
use code_intelegence.Worker.Heartbeat.{is_active_job, has_entry}
use code_intelegence.Worker.Registry.{
  Status, idle, Registry, is_busy, is_empty, set_busy, clear_job, publish, set_status, close,
}

-- What the heartbeat's readers see of a job is what the registry holds, whichever entry is
-- published as the current job.
pub is_active_job-publish :
    (pick : List (String × String) → String × String) (r : Registry) (job_id : String)
    → job_id ≢ ""
    → (jobs : List (String × String)) → r.active_jobs ≡ jobs
    → is_active_job (publish pick r) job_id ≡ has_entry (lookup job_id jobs)
unfolding is_active_job publish lookup
is_active_job-publish pick r job_id h [] e = ground (arith, eq_iff "" job_id)
is_active_job-publish pick r job_id h (x ∷ xs) e = rw e

-- A change of the registry by one of the worker's goroutines: a task begins, a task ends, or a
-- lifecycle transition, which is never to `busy`.
pub data Change : Type 0 where
  begin : String → String → Change
  finish : String → Change
  lifecycle : (status : Status) → is_busy status ≡ false → Change
  shut : Change

pub apply : Change → Registry → Registry
unfolding set_busy clear_job set_status close
apply (begin job_id project_id) r = set_busy job_id project_id r
apply (finish job_id) r = clear_job job_id r
apply (lifecycle status h) r = set_status status r
apply shut r = close r

pub apply_all : List Change → Registry → Registry
apply_all [] r = r
apply_all (c ∷ cs) r = apply_all cs (apply c r)

-- Whether a job is under way after some changes, from the changes alone: the last of them that
-- concerns it began it.
pub under_way : String → Bool → List Change → Bool
under_way job_id now [] = now
under_way job_id now (begin k p ∷ cs) = under_way job_id (if k == job_id then true else now) cs
under_way job_id now (finish k ∷ cs) = under_way job_id (if k == job_id then false else now) cs
under_way job_id now (_ ∷ cs) = under_way job_id false cs

holds-apply_all :
    (cs : List Change) (r : Registry) (job_id : String)
    → has_entry (lookup job_id (apply_all cs r).active_jobs)
      ≡ under_way job_id (has_entry (lookup job_id r.active_jobs)) cs
unfolding apply_all under_way apply lookup
holds-apply_all [] r job_id = refl
holds-apply_all (begin k p ∷ cs) r job_id =
    holds-apply_all cs (apply (begin k p) r) job_id
    ∙ ap (λ b. under_way job_id b cs) (ground (arith, lookup-insert k job_id p r.active_jobs))
holds-apply_all (finish k ∷ cs) r job_id =
    holds-apply_all cs (apply (finish k) r) job_id
    ∙ ap (λ b. under_way job_id b cs) (ground (arith, lookup-delete k job_id r.active_jobs))
holds-apply_all (lifecycle s h ∷ cs) r job_id = holds-apply_all cs (apply (lifecycle s h) r) job_id
holds-apply_all (shut ∷ cs) r job_id = holds-apply_all cs (apply shut r) job_id

-- After any changes, the heartbeat that the registry publishes tells its readers that a job, whose
-- id is not empty, is
-- active exactly when the last change that concerns the job began it (or none did, and the
-- registry held the job at the start), whichever entry is published as the current job.
pub heartbeat_tracks_jobs :
    (pick : List (String × String) → String × String) (cs : List Change) (r : Registry)
    (job_id : String)
    → job_id ≢ ""
    → is_active_job (publish pick (apply_all cs r)) job_id
      ≡ under_way job_id (has_entry (lookup job_id r.active_jobs)) cs
heartbeat_tracks_jobs pick cs r job_id h =
    is_active_job-publish pick (apply_all cs r) job_id h (apply_all cs r).active_jobs refl
    ∙ holds-apply_all cs r job_id

is_empty-insert : (k v : String) (m : List (String × String)) → is_empty (insert k v m) ≡ false
unfolding insert
is_empty-insert k v [] = refl
is_empty-insert k v ((j, w) ∷ m) = ground arith

finish-busy :
    (k : String) (status : Status) (jobs : List (String × String))
    → is_busy status ≡ not (is_empty jobs)
    → is_busy (if is_empty (delete k jobs) && is_busy status then idle else status)
      ≡ not (is_empty (delete k jobs))
unfolding delete
finish-busy k status [] h = ground arith
finish-busy k status ((j, v) ∷ jobs) h = ground arith

apply-busy :
    (c : Change) (r : Registry)
    → is_busy r.status ≡ not (is_empty r.active_jobs)
    → is_busy (apply c r).status ≡ not (is_empty (apply c r).active_jobs)
unfolding apply
apply-busy (begin k p) r h = rw (is_empty-insert k p r.active_jobs)
apply-busy (finish k) r h = finish-busy k r.status r.active_jobs h
apply-busy (lifecycle s e) r h = e
apply-busy shut r h = refl

-- After any changes, the worker is busy exactly when it holds a job, if that was so before.
busy_iff_jobs :
    (cs : List Change) (r : Registry)
    → is_busy r.status ≡ not (is_empty r.active_jobs)
    → is_busy (apply_all cs r).status ≡ not (is_empty (apply_all cs r).active_jobs)
unfolding apply_all
busy_iff_jobs [] r h = h
busy_iff_jobs (c ∷ cs) r h = busy_iff_jobs cs (apply c r) (apply-busy c r h)
