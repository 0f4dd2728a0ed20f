-- ===== src/Worker/Reaper/Spares.antt =====
-- Which jobs a reap cycle touches, and what it reports.
use mathlib.Core.Path.{subst}
use code_intelegence.Base.{
  ℕ, zero, suc, ◌+◌, ◌≤◌, ◌≢◌, eq_iff, Option-cases, String, ◌≡◌, refl, true, false, Option, none,
  some, List, [], ◌∷◌, ◌==◌, arith, eq_of_==, lookup, length, length-append, All, Bool-cases, leb,
  inl, inr, ◌⊎◌,
}
use code_intelegence.Domain.Errors.{GoError, ok}
use code_intelegence.Jobs.Table.{
  Jobs, IndexingJob, running, failed, finished, is_stale, update_from, fail_stale_job,
  list_stale_running_jobs,
}
use code_intelegence.Jobs.Table.Laws.{lookup-update_from, guarded}
use code_intelegence.Jobs.Snapshots.{Snapshots}
use code_intelegence.Worker.Reaper.{
  Outside, Cycle, new_cycle, is_worker_alive, worker_of, reap_one, reap_all, run_once,
  clean_snapshots, reaper_error_details, fail_one, published,
}
use code_intelegence.Worker.Heartbeat.{WorkerStatus, redis_error, status, is_active_job}

-- The primary key: each entry is the one that its id finds.
abbrev pub Keyed : Jobs → Type 0
Keyed jobs = All (λ e. lookup e.0 jobs ≡ some e.1) jobs

module _ (out : Outside) (threshold : ℕ) where
  abbrev pub reaped : IndexingJob → IndexingJob
  reaped = finished failed out.now reaper_error_details

  -- What a cycle may have made of the row of one job.
  abbrev pub Touched : String → Option IndexingJob → Option IndexingJob → Type 0
  Touched id before after =
      (after ≡ before)
      ⊎ ((job : IndexingJob) × (before ≡ some job)
          × (is_stale out.now threshold job ≡ true)
          × (is_worker_alive out (worker_of job) id ≡ false)
          × (after ≡ some (finished failed out.now reaper_error_details job)))

  -- A stale job that the cycle comes to, and whose worker is dead.
  fail_one-Touched :
      (id k : String) (job : IndexingJob) (before after : Option IndexingJob)
      → is_stale out.now threshold job ≡ true
      → is_worker_alive out (worker_of job) id ≡ false
      → before ≡ some job
      → Touched id before after
      → Touched id before (guarded running reaped after)
  fail_one-Touched id k job before after stale dead here (inl same) =
      inr (job, here, stale, dead, rw (same, here) (ground arith))
  fail_one-Touched id k job before after stale dead here (inr (old, b, s, d, a)) =
      inr (old, b, s, d, rw a)

  pub reap_one_jobs :
      (k : String) (job : IndexingJob) (c : Cycle)
      → ((reap_one out k job c).jobs ≡ c.jobs)
        ⊎ (is_worker_alive out (worker_of job) k ≡ false)
          × ((reap_one out k job c).jobs ≡ (update_from running reaped k c.jobs).1)
  unfolding reap_one fail_stale_job
  reap_one_jobs k job c = ground arith

  reap_one-Touched :
      (id k : String) (job : IndexingJob) (jobs : Jobs) (c : Cycle)
      → is_stale out.now threshold job ≡ true
      → lookup k jobs ≡ some job
      → Touched id (lookup id jobs) (lookup id c.jobs)
      → Touched id (lookup id jobs) (lookup id (reap_one out k job c).jobs)
  reap_one-Touched id k job jobs c stale here t = elim (reap_one_jobs k job c) [
    | inl same ↦ rw same t
    | inr (dead, e) ↦
        rw (e, lookup-update_from running reaped k c.jobs id)
          (elim (Bool-cases (k == id)) [
            | inr n ↦ rw n t
            | inl y ↦
                let s : k ≡ id = eq_of_== k id y in
                rw (y, s)
                  (fail_one-Touched id k job (lookup id jobs) (lookup id c.jobs) stale
                    (subst (λ x. is_worker_alive out (worker_of job) x ≡ false) s dead)
                    (subst (λ x. lookup x jobs ≡ some job) s here) t)
          ])
  ]

  -- The stale jobs, each with the row that its id finds.
  abbrev pub Listed : Jobs → Jobs → Type 0
  Listed jobs = All (λ e. (is_stale out.now threshold e.1 ≡ true) × (lookup e.0 jobs ≡ some e.1))

  pub list_stale-Listed :
      (jobs rest : Jobs)
      → All (λ e. lookup e.0 jobs ≡ some e.1) rest
      → Listed jobs (list_stale_running_jobs out.now threshold rest)
  unfolding list_stale_running_jobs
  list_stale-Listed jobs [] h = tt
  list_stale-Listed jobs ((k, job) ∷ rest) h = elim (Bool-cases (is_stale out.now threshold job)) [
    | inl e ↦ rw e ((e, h.0), list_stale-Listed jobs rest h.1)
    | inr e ↦ rw e (list_stale-Listed jobs rest h.1)
  ]

  reap_all-Touched :
      (id : String) (jobs stale : Jobs) (c : Cycle)
      → Listed jobs stale
      → Touched id (lookup id jobs) (lookup id c.jobs)
      → Touched id (lookup id jobs) (lookup id (reap_all out stale c).jobs)
  unfolding reap_all
  reap_all-Touched id jobs [] c h t = t
  reap_all-Touched id jobs ((k, job) ∷ rest) c h t =
      reap_all-Touched id jobs rest (reap_one out k job c) h.1
        (reap_one-Touched id k job jobs c h.0.0 h.0.1 t)

  pub clean_snapshots_jobs : (c : Cycle) → (clean_snapshots out c).jobs ≡ c.jobs
  unfolding clean_snapshots
  clean_snapshots_jobs c = ground arith

  pub run_once_cycle :
      (jobs : Jobs) (snaps : Snapshots) (c : Cycle)
      → run_once out threshold jobs snaps ≡ ok c
      → clean_snapshots out
          (reap_all out (list_stale_running_jobs out.now threshold jobs) (new_cycle jobs snaps))
        ≡ c
  unfolding run_once
  run_once_cycle jobs snaps c h = ground arith

  run_once-Touched :
      (jobs : Jobs) (snaps : Snapshots) (c : Cycle) (id : String)
      → Keyed jobs
      → run_once out threshold jobs snaps ≡ ok c
      → Touched id (lookup id jobs) (lookup id c.jobs)
  run_once-Touched jobs snaps c id keyed h =
      let stale = list_stale_running_jobs out.now threshold jobs in
      let done = reap_all out stale (new_cycle jobs snaps) in
      subst (λ x. Touched id (lookup id jobs) (lookup id x.jobs)) (run_once_cycle jobs snaps c h)
        (rw (clean_snapshots_jobs done) (
          reap_all-Touched id jobs stale (new_cycle jobs snaps) (list_stale-Listed jobs jobs keyed)
            (inl refl)))

  spared :
      (id : String) (job : IndexingJob) {before after : Option IndexingJob}
      → Touched id before after
      → before ≡ some job
      → is_worker_alive out (worker_of job) id ≡ true
      → after ≡ before
  spared id job (inl same) here alive = same
  spared id job (inr (old, there, stale, dead, a)) here alive =
      let same : old ≡ job = ground (arith, there, here) in
      absurd
        (ground (arith, alive, subst (λ j. is_worker_alive out (worker_of j) id ≡ false) same dead))

  alive_of_shown :
      (id : String) (job : IndexingJob)
      → worker_of job ≢ ""
      → (out.heartbeat (worker_of job) ≡ redis_error)
        ⊎ (ws : WorkerStatus) × (out.heartbeat (worker_of job) ≡ status ws)
          × (is_active_job ws id ≡ true)
      → is_worker_alive out (worker_of job) id ≡ true
  unfolding is_worker_alive
  alive_of_shown id job named shows =
      let tracked : (worker_of job == "") ≡ false = ground (arith, eq_iff (worker_of job) "") in
      rw tracked
        (elim shows [ inl unread ↦ rw unread refl | inr (ws, read, active) ↦ rw read active ])

  -- In a table where each id finds its own row, a reap cycle leaves the row of a job as it was,
  -- unless the job was running, was started longer than the threshold ago, and isWorkerAlive
  -- answered false: then the row is that job failed, with the reaper's error. In particular the row
  -- of a job that names a worker stays as it was when the GET of that worker's heartbeat fails or
  -- gives a heartbeat that shows the job.
  pub run_once_touches :
      (jobs : Jobs) (snaps : Snapshots) (c : Cycle) (id : String)
      → Keyed jobs
      → run_once out threshold jobs snaps ≡ ok c
      → Touched id (lookup id jobs) (lookup id c.jobs)
        × ((job : IndexingJob)
            → lookup id jobs ≡ some job
            → worker_of job ≢ ""
            → (out.heartbeat (worker_of job) ≡ redis_error)
              ⊎ (ws : WorkerStatus) × (out.heartbeat (worker_of job) ≡ status ws)
                × (is_active_job ws id ≡ true)
            → lookup id c.jobs ≡ lookup id jobs)
  run_once_touches jobs snaps c id keyed h =
      let touched = run_once-Touched jobs snaps c id keyed h in
      (
        touched,
        λ job here named shows. spared id job touched here (alive_of_shown id job named shows),
      )

  -- No more events than reaped jobs, and as many if none fails to be published.
  abbrev Counted : Cycle → Type 0
  Counted c =
      (length c.events ≤ c.reaped)
      × (((id : String) → out.publish_fails id ≡ none) → c.reaped ≡ length c.events)

  length-published :
      (refused : Option GoError) (e : String × String) (events : List (String × String))
      → length (published refused e events) ≤ length events + 1
  length-published none e events = omega (arith, length-append events (e ∷ []))
  length-published (some why) e events = omega arith

  fail_one-Counted :
      (k : String) (job : IndexingJob) (rows : ℕ) (jobs : Jobs) (c : Cycle)
      → Counted c
      → Counted (fail_one out k job (rows, jobs) c)
  fail_one-Counted k job zero jobs c h = h
  fail_one-Counted k job (suc rows) jobs c (at_most, all) =
      let some_row : leb (suc rows) 0 ≡ false = ground arith in
      rw some_row (
        omega (arith, length-published (out.publish_fails k) (job.project_id, k) c.events),
        λ sent.
            rw (sent k)
              (omega (arith, all sent, length-append c.events ((job.project_id, k) ∷ []))),
      )

  reap_one-Counted :
      (k : String) (job : IndexingJob) (c : Cycle) → Counted c → Counted (reap_one out k job c)
  unfolding reap_one
  reap_one-Counted k job c h = elim (Bool-cases (is_worker_alive out (worker_of job) k)) [
    | inl alive ↦ rw alive h
    | inr dead ↦ elim (Option-cases (out.fail_stale_fails k)) [
      | inr (e, refused) ↦ rw (dead, refused) h
      | inl answered ↦
          let failed = fail_stale_job out.now reaper_error_details k c.jobs in
          rw (dead, answered) (fail_one-Counted k job failed.0 failed.1 c h)
    ]
  ]

  reap_all-Counted : (stale : Jobs) (c : Cycle) → Counted c → Counted (reap_all out stale c)
  unfolding reap_all
  reap_all-Counted [] c h = h
  reap_all-Counted ((k, job) ∷ rest) c h =
      reap_all-Counted rest (reap_one out k job c) (reap_one-Counted k job c h)

  clean_snapshots-Counted : (c : Cycle) → Counted c → Counted (clean_snapshots out c)
  unfolding clean_snapshots
  clean_snapshots-Counted c h = elim (Option-cases out.list_orphans_fails) [
    | inl answered ↦ rw answered h
    | inr (e, refused) ↦ rw refused h
  ]

  -- A cycle publishes at most as many job:failed events as the number of reaped jobs that it
  -- returns, and exactly as many when no event fails to be published.
  pub run_once_counts :
      (jobs : Jobs) (snaps : Snapshots) (c : Cycle)
      → run_once out threshold jobs snaps ≡ ok c
      → (length c.events ≤ c.reaped)
        × (((id : String) → out.publish_fails id ≡ none) → c.reaped ≡ length c.events)
  run_once_counts jobs snaps c h =
      let stale = list_stale_running_jobs out.now threshold jobs in
      subst Counted (run_once_cycle jobs snaps c h) (
        clean_snapshots-Counted (reap_all out stale (new_cycle jobs snaps))
          (reap_all-Counted stale (new_cycle jobs snaps) (omega arith, λ sent. refl)))
