-- ===== src/JobHealth/Effects.antt =====
-- What a check changes and what it reports.
use code_intelegence.Base.{
  ℕ, String, ◌≡◌, ◌≢◌, refl, Bool, true, false, none, some, ◌==◌, arith, eq_iff, lookup, Bool-cases,
  inl, inr, ◌⊎◌, eq_of_==,
}
use code_intelegence.Jobs.Table.{IndexingJob, running, same_status, fail_stale_job, update_from}
use code_intelegence.Worker.Heartbeat.{
  Reply, missing, redis_error, malformed, status, is_active_job,
}
use code_intelegence.JobHealth.{
  Outside, Check, World, reap, is_fresh, by_heartbeat, check_and_reap_if_dead, reaper_error_details,
}

-- The heartbeat shows the job, or cannot be read or decoded.
abbrev pub spared_by : Reply → String → Bool
spared_by missing job = false
spared_by redis_error job = true
spared_by malformed job = true
spared_by (status ws) job = is_active_job ws job

module _ (out : Outside) (threshold : ℕ) (c : Check) (w : World) where
  spared_heartbeat :
      (r : Reply)
      → c.current_status ≡ "running"
      → spared_by r c.job_id ≡ true
      → by_heartbeat out c r w ≡ (c.current_status, w)
  spared_heartbeat missing asked s = cc
  spared_heartbeat redis_error asked s = refl
  spared_heartbeat malformed asked s = refl
  spared_heartbeat (status ws) asked s = rw (s, asked) refl

  dead_heartbeat :
      (r : Reply) → spared_by r c.job_id ≡ false → by_heartbeat out c r w ≡ reap out c w
  dead_heartbeat missing s = refl
  dead_heartbeat redis_error s = cc
  dead_heartbeat malformed s = cc
  dead_heartbeat (status ws) s = rw s refl

  -- A check returns the status that it was asked about and changes nothing, when that status is not
  -- running, when the job was started less than the threshold ago, and when the job has a worker
  -- whose heartbeat shows the job or cannot be read or decoded.
  pub check_spares :
      (c.current_status ≢ "running")
        ⊎ ((is_fresh out.now threshold c.started_at ≡ true)
            ⊎ (c.worker_id ≢ "") × (spared_by (out.heartbeat c.worker_id) c.job_id ≡ true))
      → check_and_reap_if_dead out threshold c w ≡ (c.current_status, w)
  unfolding check_and_reap_if_dead
  check_spares (inl n) = ground (arith, eq_iff c.current_status "running")
  check_spares (inr (inl f)) = ground arith
  check_spares (inr (inr (n, s))) = elim (Bool-cases (c.current_status == "running")) [
    | inr k ↦ rw k refl
    | inl k ↦ ground (
      arith,
      eq_iff c.worker_id "",
      spared_heartbeat (out.heartbeat c.worker_id) (eq_of_== _ _ k) s,
    )
  ]

  pub check_reaps :
      c.current_status ≡ "running"
      → is_fresh out.now threshold c.started_at ≡ false
      → (c.worker_id ≢ "" → spared_by (out.heartbeat c.worker_id) c.job_id ≡ false)
      → check_and_reap_if_dead out threshold c w ≡ reap out c w
  unfolding check_and_reap_if_dead
  check_reaps asked old dead =
      let running : (c.current_status == "running") ≡ true =
        ground (arith, eq_iff c.current_status "running") in
      elim (Bool-cases (c.worker_id == "")) [
        | inl e ↦ rw (running, old, e) refl
        | inr e ↦
            rw (running, old, e)
              (dead_heartbeat (out.heartbeat c.worker_id)
                (dead λ same. ground (arith, eq_iff c.worker_id "")))
      ]

  no_rows_failed :
      (job : IndexingJob)
      → lookup c.job_id w.jobs ≡ some job
      → same_status job.status running ≡ false
      → fail_stale_job out.now reaper_error_details c.job_id w.jobs ≡ (0, w.jobs)
  unfolding fail_stale_job update_from
  no_rows_failed job here over = rw (here, update_from) (rw over refl)

  -- A check of a job that was read as running and has left that status since, with a heartbeat that
  -- was read and does not show the job, reports the job as failed and changes nothing.
  pub finished_reported_failed :
      (job : IndexingJob)
      → c.current_status ≡ "running"
      → is_fresh out.now threshold c.started_at ≡ false
      → (c.worker_id ≢ "" → spared_by (out.heartbeat c.worker_id) c.job_id ≡ false)
      → out.is_uuid c.job_id ≡ true
      → out.fail_stale_fails ≡ none
      → lookup c.job_id w.jobs ≡ some job
      → same_status job.status running ≡ false
      → check_and_reap_if_dead out threshold c w ≡ ("failed", w)
  unfolding reap
  finished_reported_failed job asked old dead valid answered here over =
      rw (check_reaps asked old dead, valid, answered, no_rows_failed job here over) refl
