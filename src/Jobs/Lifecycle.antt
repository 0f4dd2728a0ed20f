-- ===== src/Jobs/Lifecycle.antt =====
-- The life of a job under any interleaving of the operations of the API, the workers and the
-- reapers.
use code_intelegence.Base.{
  ℕ, String, ◌≡◌, refl, Bool, true, false, Option, none, some, List, [], ◌∷◌, ◌==◌, lookup,
  lookup-insert, Bool-cases, inl, inr, ◌⊎◌, ◌≢◌, ◌∙◌, ap, ◌||◌, arith, eq_of_==,
}
use mathlib.Core.Path.{subst, sym}
use code_intelegence.Domain.Errors.{GoError}
use code_intelegence.Jobs.Table.{
  JobStatus, queued, running, completed, failed, IndexingJob, Jobs, same_status, update_from,
  finished, update_any, create_indexing_job, fail_stale_job, claim_queued_indexing_job,
  set_indexing_job_completed_from_running, set_indexing_job_failed_from_running,
  set_indexing_job_progress, set_indexing_job_failed,
}
use code_intelegence.Jobs.Table.Laws.{
  guarded, changed, eq_of_same_status, lookup-update_from, lookup-update_any,
}
use code_intelegence.Jobs.Repository.{
  claim_job, set_job_completed, set_job_failed, set_job_progress,
}

-- One operation on the table by some process: the API creates a job under a fresh id, a worker
-- claims, reports progress, completes or fails, and a reaper fails. The API also abandons a job whose
-- enqueueing returned an error (HandleIndex in backend-api/internal/handler/project.go); it may have
-- been enqueued all the same, so that this may come at any time. Each may be refused by the database.
pub data Op : Type 0 where
  create : String → String → String → Op
  claim : Option GoError → ℕ → String → String → Op
  complete : Option GoError → ℕ → String → Op
  fail : Option GoError → ℕ → String → String → Op
  progress : Option GoError → String → ℕ → ℕ → ℕ → Op
  reap : ℕ → String → String → Op
  abandon : Option GoError → ℕ → String → String → Op

-- A generated id is fresh: an insert on an id in use fails, by the primary key.
abbrev pub create_fresh : Option IndexingJob → String → String → String → Jobs → Jobs
create_fresh (some old) project_id job_type id jobs = jobs
create_fresh none project_id job_type id jobs = create_indexing_job project_id none job_type id jobs

unfoldable pub step : Op → Jobs → Jobs
unfolding create_indexing_job claim_job set_job_completed set_job_failed set_job_progress
    fail_stale_job claim_queued_indexing_job set_indexing_job_completed_from_running
    set_indexing_job_failed_from_running set_indexing_job_progress set_indexing_job_failed
step (create project_id job_type id) jobs =
    create_fresh (lookup id jobs) project_id job_type id jobs
step (claim refused now id worker) jobs = (claim_job refused now id worker jobs).1
step (complete refused now id) jobs = (set_job_completed refused now id jobs).1
step (fail refused now id details) jobs = (set_job_failed refused now id details jobs).1
step (progress refused id files chunks vectors) jobs =
    (set_job_progress refused id files chunks vectors jobs).1
step (reap now id details) jobs = (fail_stale_job now details id jobs).1
step (abandon none now id details) jobs = set_indexing_job_failed now details id jobs
step (abandon (some e) now id details) jobs = jobs

unfoldable pub run : List Op → Jobs → Jobs
unfolding step
run [] jobs = jobs
run (op ∷ ops) jobs = run ops (step op jobs)

-- The edges of the life of a job; a job may also stay as it is.
pub data Edge : Option JobStatus → Option JobStatus → Type 0 where
  stay : {s : Option JobStatus} → Edge s s
  born : Edge none (some queued)
  claim : Edge (some queued) (some running)
  complete : Edge (some running) (some completed)
  fail : Edge (some running) (some failed)

-- Whether an operation abandons the job.
abbrev pub abandons : String → Op → Bool
abandons id (abandon refused now k details) = k == id
abandons id _ = false

-- Along an edge; or, if it is abandoned, to failed from whatever status it has.
abbrev pub Moves : Bool → Option JobStatus → Option JobStatus → Type 0
Moves abandoned before after =
    Edge before after ⊎ (abandoned ≡ true) × (before ≢ none) × (after ≡ some failed)

abbrev pub status : Option IndexingJob → Option JobStatus
status none = none
status (some job) = some job.status

abbrev pub status_of : String → Jobs → Option JobStatus
status_of id jobs = status (lookup id jobs)

module _ (id k : String) (jobs : Jobs) where
  guarded-Edge :
      (from to : JobStatus) (change : IndexingJob → IndexingJob)
      → ((job : IndexingJob) → (change job).status ≡ to)
      → Edge (some from) (some to)
      → (found : Option IndexingJob) → Edge (status found) (status (guarded from change found))
  guarded-Edge from to change sets edge none = stay
  guarded-Edge from to change sets edge (some job) =
      elim (Bool-cases (same_status job.status from)) [
        | inl e ↦ rw e (
            subst (λ x. Edge (some x) (some (change job).status))
              (sym (eq_of_same_status job.status from e))
              (subst (λ x. Edge (some from) (some x)) (sym (sets job)) edge))
        | inr e ↦ rw e stay
      ]

  update_from-Edge :
      (from to : JobStatus) (change : IndexingJob → IndexingJob)
      → ((job : IndexingJob) → (change job).status ≡ to)
      → Edge (some from) (some to)
      → Edge (status_of id jobs) (status_of id (update_from from change k jobs).1)
  update_from-Edge from to change sets edge =
      rw (lookup-update_from from change k jobs id) (elim (Bool-cases (k == id)) [
        | inl e ↦ rw (e, eq_of_== k id e) (guarded-Edge from to change sets edge (lookup id jobs))
        | inr e ↦ rw e stay
      ])

  changed-Edge :
      (change : IndexingJob → IndexingJob)
      → ((job : IndexingJob) → (change job).status ≡ job.status)
      → (found : Option IndexingJob) → Edge (status found) (status (changed change found))
  changed-Edge change keeps none = stay
  changed-Edge change keeps (some job) =
      subst (λ x. Edge (some job.status) (some x)) (sym (keeps job)) stay

  update_any-Edge :
      (change : IndexingJob → IndexingJob)
      → ((job : IndexingJob) → (change job).status ≡ job.status)
      → Edge (status_of id jobs) (status_of id (update_any change k jobs))
  update_any-Edge change keeps =
      rw (lookup-update_any change k jobs id) (elim (Bool-cases (k == id)) [
        | inl e ↦ rw (e, eq_of_== k id e) (changed-Edge change keeps (lookup id jobs))
        | inr e ↦ rw e stay
      ])

  create-Edge :
      (found : Option IndexingJob) (project_id job_type : String)
      → lookup k jobs ≡ found
      → Edge (status_of id jobs) (status_of id (create_fresh found project_id job_type k jobs))
  unfolding create_indexing_job
  create-Edge (some old) project_id job_type h = stay
  create-Edge none project_id job_type h =
      rw (lookup-insert k id _ jobs) (elim (Bool-cases (k == id)) [
        | inl e ↦ rw (e, subst (λ x. lookup x jobs ≡ none) (eq_of_== k id e) h) born
        | inr e ↦ rw e stay
      ])

changed-Moves :
    (change : IndexingJob → IndexingJob)
    → ((job : IndexingJob) → (change job).status ≡ failed)
    → (found : Option IndexingJob) → Moves true (status found) (status (changed change found))
changed-Moves change sets none = inl stay
changed-Moves change sets (some job) = inr (refl, λ e. ground arith, ap some (sets job))

set_failed-Moves :
    (now : ℕ) (details id k : String) (jobs : Jobs)
    → Moves
        (k == id)
        (status_of id jobs)
        (status_of id (set_indexing_job_failed now details k jobs))
unfolding set_indexing_job_failed
set_failed-Moves now details id k jobs =
    rw (lookup-update_any (finished failed now details) k jobs id) (elim (Bool-cases (k == id)) [
      | inr e ↦ rw e (inl stay)
      | inl e ↦
          rw (e, eq_of_== k id e)
            (changed-Moves (finished failed now details) (λ job. refl) (lookup id jobs))
    ])

-- Every operation but the API's abandoning of the job moves its status along an edge: queued to
-- running, running to completed or failed, or not at all; and a new job is queued. An abandoned job
-- that is in the table may also go to failed from any status.
pub step-Moves :
    (op : Op) (jobs : Jobs) (id : String)
    → Moves (abandons id op) (status_of id jobs) (status_of id (step op jobs))
unfolding step
step-Moves (create project_id job_type k) jobs id =
    inl (create-Edge id k jobs (lookup k jobs) project_id job_type refl)
step-Moves (claim none now k worker) jobs id =
    inl (update_from-Edge id k jobs queued running _ (λ job. refl) Edge.claim)
step-Moves (complete none now k) jobs id =
    inl (update_from-Edge id k jobs running completed _ (λ job. refl) Edge.complete)
step-Moves (fail none now k details) jobs id =
    inl (update_from-Edge id k jobs running failed _ (λ job. refl) Edge.fail)
step-Moves (progress none k files chunks vectors) jobs id =
    inl (update_any-Edge id k jobs _ (λ job. refl))
step-Moves (reap now k details) jobs id =
    inl (update_from-Edge id k jobs running failed _ (λ job. refl) Edge.fail)
step-Moves (abandon none now k details) jobs id = set_failed-Moves now details id k jobs
step-Moves (claim (some e) now k worker) jobs id = inl stay
step-Moves (complete (some e) now k) jobs id = inl stay
step-Moves (fail (some e) now k details) jobs id = inl stay
step-Moves (progress (some e) k files chunks vectors) jobs id = inl stay
step-Moves (abandon (some e) now k details) jobs id = inl stay

-- The statuses that a job does not leave.
abbrev pub is_finished : Option JobStatus → Bool
is_finished (some completed) = true
is_finished (some failed) = true
is_finished _ = false

Edge-finished : {a b : Option JobStatus} → Edge a b → is_finished a ≡ true → b ≡ a
Edge-finished stay h = refl
Edge-finished born h = cc
Edge-finished claim h = cc
Edge-finished complete h = cc
Edge-finished fail h = cc

-- Whether some operation abandons the job.
abbrev pub any_abandons : String → List Op → Bool
any_abandons id [] = false
any_abandons id (op ∷ ops) = abandons id op || any_abandons id ops

Moves-finished :
    {a b : Option JobStatus} (abandoned : Bool)
    → Moves abandoned a b
    → is_finished a ≡ true
    → (b ≡ a) ⊎ (abandoned ≡ true) × (b ≡ some failed)
Moves-finished abandoned (inl edge) h = inl (Edge-finished edge h)
Moves-finished abandoned (inr (left, there, e)) h = inr (left, e)

-- A failed job stays failed under any further operations. A completed one stays completed, unless
-- the API abandons it: then it may become failed, and is never anything else.
pub run-finished :
    (ops : List Op) (jobs : Jobs) (id : String)
    → is_finished (status_of id jobs) ≡ true
    → (status_of id (run ops jobs) ≡ status_of id jobs)
      ⊎ (any_abandons id ops ≡ true) × (status_of id (run ops jobs) ≡ some failed)
unfolding run
run-finished [] jobs id h = inl refl
run-finished (op ∷ ops) jobs id h =
    elim (Moves-finished (abandons id op) (step-Moves op jobs id) h) [
      | inl same ↦ elim (run-finished ops (step op jobs) id (rw same h)) [
        | inl rest ↦ inl (rest ∙ same)
        | inr (left, e) ↦ inr (ground arith, e)
      ]
      | inr (now, failed_now) ↦ elim (run-finished ops (step op jobs) id (rw failed_now refl)) [
        | inl rest ↦ inr (ground arith, rest ∙ failed_now)
        | inr (left, e) ↦ inr (ground arith, e)
      ]
    ]
