-- ===== src/Jobs/Once.antt =====
-- How often a job is claimed and finished, over the operations of Lifecycle.
use code_intelegence.Base.{
  ℕ, ◌+◌, ◌≤◌, String, ◌≡◌, refl, Bool, true, Option, none, some, List, [], ◌∷◌, arith, ◌==◌,
  if◌then◌else◌, lookup, Bool-cases, inl, inr, eq_of_==,
}
use code_intelegence.Domain.Errors.{GoError, Result, ok, err}
use code_intelegence.Jobs.Table.{
  JobStatus, queued, running, completed, failed, IndexingJob, Jobs, same_status, claimed, succeeded,
  finished, update_from, fail_stale_job, claim_queued_indexing_job,
  set_indexing_job_completed_from_running, set_indexing_job_failed_from_running,
}
use code_intelegence.Jobs.Table.Laws.{
  lookup-update_from, rows-update_from, hits, guarded, eq_of_same_status,
}
use code_intelegence.Jobs.Repository.{text, claim_job, set_job_completed, set_job_failed}
use code_intelegence.Jobs.Lifecycle.{
  Op, create, claim, complete, fail, progress, reap, abandon, abandons, step, run, Edge, stay, born,
  Moves, status, status_of, step-Moves, is_finished,
}

-- Whether an operation is a claim of the job that succeeds, and whether it is one that reports to
-- have finished the job.
abbrev claim_won : Result GoError (Unit {0}) → ℕ
claim_won (ok _) = 1
claim_won (err _) = 0

abbrev finish_won : Result GoError Bool → ℕ
finish_won (ok true) = 1
finish_won _ = 0

pub claims : String → Op → Jobs → ℕ
unfolding claim_job claim_queued_indexing_job
claims id (claim refused now k worker) jobs =
    if k == id then claim_won (claim_job refused now k worker jobs).0 else 0
claims id _ jobs = 0

pub finishes : String → Op → Jobs → ℕ
unfolding set_job_completed set_job_failed fail_stale_job set_indexing_job_completed_from_running
    set_indexing_job_failed_from_running
finishes id (complete refused now k) jobs =
    if k == id then finish_won (set_job_completed refused now k jobs).0 else 0
finishes id (fail refused now k details) jobs =
    if k == id then finish_won (set_job_failed refused now k details jobs).0 else 0
finishes id (reap now k details) jobs = if k == id then (fail_stale_job now details k jobs).0 else 0
finishes id _ jobs = 0

pub total : (Op → Jobs → ℕ) → List Op → Jobs → ℕ
total won [] jobs = 0
total won (op ∷ ops) jobs = won op jobs + total won ops (step op jobs)

-- A job that is running or finished has been claimed; one that is finished has been finished.
abbrev been_claimed : Option JobStatus → ℕ
been_claimed none = 0
been_claimed (some queued) = 0
been_claimed (some _) = 1

abbrev been_finished : Option JobStatus → ℕ
been_finished s = if is_finished s then 1 else 0

been_claimed_le : (s : Option JobStatus) → been_claimed s ≤ 1
been_claimed_le s = ground arith

been_finished_le : (s : Option JobStatus) → been_finished s ≤ 1
been_finished_le s = ground arith

Edge-been_claimed : {a b : Option JobStatus} → Edge a b → been_claimed a ≤ been_claimed b
Edge-been_claimed stay = omega arith
Edge-been_claimed born = omega arith
Edge-been_claimed claim = omega arith
Edge-been_claimed complete = omega arith
Edge-been_claimed fail = omega arith

Edge-been_finished : {a b : Option JobStatus} → Edge a b → been_finished a ≤ been_finished b
Edge-been_finished {a} stay = omega arith
Edge-been_finished born = omega arith
Edge-been_finished claim = omega arith
Edge-been_finished complete = omega arith
Edge-been_finished fail = omega arith

Moves-been_claimed :
    (left : Bool) {a b : Option JobStatus} → Moves left a b → been_claimed a ≤ been_claimed b
Moves-been_claimed left (inl edge) = Edge-been_claimed edge
Moves-been_claimed left {a} (inr (now, there, e)) = rw e (been_claimed_le a)

Moves-been_finished :
    (left : Bool) {a b : Option JobStatus} → Moves left a b → been_finished a ≤ been_finished b
Moves-been_finished left (inl edge) = Edge-been_finished edge
Moves-been_finished left {a} (inr (now, there, e)) = rw e (been_finished_le a)

module _ (from to : JobStatus) (change : IndexingJob → IndexingJob)
    (sets : (job : IndexingJob) → (change job).status ≡ to) (weight : Option JobStatus → ℕ)
    (before : weight (some from) ≡ 0) (after : weight (some to) ≡ 1) where
  -- An update that takes jobs from weight 0 to weight 1 adds to the weight what it affects.
  hit_weight :
      (found : Option IndexingJob)
      → (if hits from found then 1 else 0) + weight (status found)
        ≤ weight (status (guarded from change found))
  hit_weight none = omega arith
  hit_weight (some job) = elim (Bool-cases (same_status job.status from)) [
    | inl e ↦ rw (e, sets job, after, eq_of_same_status job.status from e, before) (omega arith)
    | inr e ↦ rw e (omega arith)
  ]

  update_weight :
      (id k : String) (jobs : Jobs)
      → (if k == id then (update_from from change k jobs).0 else 0) + weight (status_of id jobs)
        ≤ weight (status_of id (update_from from change k jobs).1)
  update_weight id k jobs =
      rw (lookup-update_from from change k jobs id, rows-update_from from change k jobs)
        (elim (Bool-cases (k == id)) [
          | inl e ↦ rw (e, eq_of_== k id e) (hit_weight (lookup id jobs))
          | inr e ↦ rw e (omega arith)
        ])

claims-step :
    (id : String) (op : Op) (jobs : Jobs)
    → claims id op jobs + been_claimed (status_of id jobs)
      ≤ been_claimed (status_of id (step op jobs))
unfolding claims step
claims-step id (claim none now k worker) jobs = ground (
  arith,
  rows-update_from queued (claimed now (text worker)) k jobs,
  update_weight queued running (claimed now (text worker)) (λ job. refl) been_claimed refl refl id k
      jobs,
)
claims-step id (claim (some e) now k worker) jobs = ground arith
claims-step id (create p t k) jobs =
    omega
      (arith, Moves-been_claimed (abandons id (create p t k)) (step-Moves (create p t k) jobs id))
claims-step id (complete refused now k) jobs = omega (
  arith,
  Moves-been_claimed (abandons id (complete refused now k))
      (step-Moves (complete refused now k) jobs id),
)
claims-step id (fail refused now k d) jobs = omega (
  arith,
  Moves-been_claimed (abandons id (fail refused now k d))
      (step-Moves (fail refused now k d) jobs id),
)
claims-step id (progress refused k a b c) jobs = omega (
  arith,
  Moves-been_claimed (abandons id (progress refused k a b c))
      (step-Moves (progress refused k a b c) jobs id),
)
claims-step id (reap now k d) jobs =
    omega
      (arith, Moves-been_claimed (abandons id (reap now k d)) (step-Moves (reap now k d) jobs id))
claims-step id (abandon refused now k d) jobs = omega (
  arith,
  Moves-been_claimed (abandons id (abandon refused now k d))
      (step-Moves (abandon refused now k d) jobs id),
)

module _ (id : String) where
  abbrev finish_weight :
      (to : JobStatus) (change : IndexingJob → IndexingJob)
      → ((job : IndexingJob) → (change job).status ≡ to)
      → been_finished (some to) ≡ 1
      → (k : String) (jobs : Jobs)
      → (if k == id then (update_from running change k jobs).0 else 0)
          + been_finished (status_of id jobs)
        ≤ been_finished (status_of id (update_from running change k jobs).1)
  finish_weight to change sets after k jobs =
      update_weight running to change sets been_finished refl after id k jobs

  finishes-step :
      (op : Op) (jobs : Jobs)
      → finishes id op jobs + been_finished (status_of id jobs)
        ≤ been_finished (status_of id (step op jobs))
  unfolding finishes step
  finishes-step (complete none now k) jobs = ground (
    arith,
    rows-update_from running (succeeded now) k jobs,
    finish_weight completed (succeeded now) (λ job. refl) refl k jobs,
  )
  finishes-step (fail none now k d) jobs = ground (
    arith,
    rows-update_from running (finished failed now d) k jobs,
    finish_weight failed (finished failed now d) (λ job. refl) refl k jobs,
  )
  finishes-step (reap now k d) jobs =
      finish_weight failed (finished failed now d) (λ job. refl) refl k jobs
  finishes-step (complete (some e) now k) jobs = ground arith
  finishes-step (fail (some e) now k d) jobs = ground arith
  finishes-step (create p t k) jobs =
      omega (
        arith,
        Moves-been_finished (abandons id (create p t k)) (step-Moves (create p t k) jobs id),
      )
  finishes-step (claim refused now k worker) jobs = omega (
    arith,
    Moves-been_finished (abandons id (claim refused now k worker))
        (step-Moves (claim refused now k worker) jobs id),
  )
  finishes-step (progress refused k a b c) jobs = omega (
    arith,
    Moves-been_finished (abandons id (progress refused k a b c))
        (step-Moves (progress refused k a b c) jobs id),
  )
  finishes-step (abandon refused now k d) jobs = omega (
    arith,
    Moves-been_finished (abandons id (abandon refused now k d))
        (step-Moves (abandon refused now k d) jobs id),
  )

  total-claims :
      (ops : List Op) (jobs : Jobs)
      → total (claims id) ops jobs + been_claimed (status_of id jobs)
        ≤ been_claimed (status_of id (run ops jobs))
  unfolding total run
  total-claims [] jobs = omega arith
  total-claims (op ∷ ops) jobs =
      omega (arith, claims-step id op jobs, total-claims ops (step op jobs))

  total-finishes :
      (ops : List Op) (jobs : Jobs)
      → total (finishes id) ops jobs + been_finished (status_of id jobs)
        ≤ been_finished (status_of id (run ops jobs))
  unfolding total run
  total-finishes [] jobs = omega arith
  total-finishes (op ∷ ops) jobs =
      omega (arith, finishes-step op jobs, total-finishes ops (step op jobs))

  -- Over any interleaving of operations by the API, workers and reapers, whichever the database refuses,
  -- at most one claim of a job succeeds, and at most one of the calls that complete, fail or reap
  -- it reports that it did.
  pub claimed_and_finished_once :
      (ops : List Op) (jobs : Jobs)
      → (total (claims id) ops jobs ≤ 1) × (total (finishes id) ops jobs ≤ 1)
  claimed_and_finished_once ops jobs = (
    omega (arith, total-claims ops jobs, been_claimed_le (status_of id (run ops jobs))),
    omega (arith, total-finishes ops jobs, been_finished_le (status_of id (run ops jobs))),
  )
