-- ===== src/JobHealth/Agreement.antt =====
-- The check of a stale job against a whole cycle of the reaper over the same table.
use mathlib.Core.Path.{subst}
use code_intelegence.Base.{
  ℕ, String, ◌≡◌, ◌≢◌, refl, sym, ap, ◌∙◌, true, false, some, ◌==◌, arith, eq_iff, eq_refl, lookup,
  Bool-cases, Option-cases, inl, inr,
}
use code_intelegence.Domain.Errors.{ok}
use code_intelegence.Jobs.Table.{
  IndexingJob, Jobs, running, failed, finished, is_stale, fail_stale_job,
}
use code_intelegence.Jobs.Table.Laws.{lookup-update_from}
use code_intelegence.Jobs.Snapshots.{Snapshots}
use code_intelegence.Worker.Heartbeat.{Reply, missing, redis_error, malformed, status}
use code_intelegence.Worker.Reaper as Reaper
use code_intelegence.Worker.Reaper.Spares.{Keyed}
use code_intelegence.Worker.Reaper.Verdict.{verdict, run_once-verdict}
use code_intelegence.JobHealth.{
  Outside, Check, World, reap, reaped, is_fresh, check_and_reap_if_dead, reaper_error_details,
}
use code_intelegence.JobHealth.Effects.{spared_by, check_spares, check_reaps}

-- The clock, Redis and the database answer a check as they answer a reap cycle.
pub record SameOutside (out : Outside) (cycle : Reaper.Outside) (job_id : String) : Type 0 where
  pub clock : cycle.now ≡ out.now
  pub heartbeats : cycle.heartbeat ≡ out.heartbeat
  pub fails : cycle.fail_stale_fails job_id ≡ out.fail_stale_fails

-- A check is asked about a row of the table, read as running.
pub record AsksAbout (c : Check) (job : IndexingJob) : Type 0 where
  pub worker : c.worker_id ≡ Reaper.worker_of job
  pub asked : c.current_status ≡ "running"
  pub start : c.started_at ≡ job.started_at

alive_by-spared_by :
    (r : Reply) (job : String) → r ≢ malformed → Reaper.alive_by r job ≡ spared_by r job
alive_by-spared_by missing job h = refl
alive_by-spared_by redis_error job h = refl
alive_by-spared_by malformed job h = absurd (h refl)
alive_by-spared_by (status ws) job h = refl

-- What the listing takes for stale is not fresh.
is_stale-is_fresh :
    (now threshold : ℕ) (job : IndexingJob)
    → is_stale now threshold job ≡ true
    → is_fresh now threshold job.started_at ≡ false
is_stale-is_fresh now threshold job h = ground arith

module _ (out : Outside) (threshold : ℕ) (c : Check) (w : World) (cycle : Reaper.Outside)
    (job : IndexingJob) (same : SameOutside out cycle c.job_id) (about : AsksAbout c job)
    (tracked : c.worker_id ≢ "") (decoded : out.heartbeat c.worker_id ≢ malformed) where
  is_worker_alive-spared_by :
      Reaper.is_worker_alive cycle (Reaper.worker_of job) c.job_id
      ≡ spared_by (out.heartbeat c.worker_id) c.job_id
  unfolding Reaper.is_worker_alive
  is_worker_alive-spared_by =
      let named : (c.worker_id == "") ≡ false = ground (arith, eq_iff c.worker_id "") in
      rw⁻¹ about.worker (
        rw (named, same.heartbeats)
          (alive_by-spared_by (out.heartbeat c.worker_id) c.job_id decoded))

  reaped_jobs : (r : ℕ × Jobs) → (reaped out c r w).1.jobs ≡ r.1
  reaped_jobs (rows, jobs) = ground arith

  check-verdict :
      lookup c.job_id w.jobs ≡ some job
      → out.is_uuid c.job_id ≡ true
      → is_fresh out.now threshold c.started_at ≡ false
      → lookup c.job_id (check_and_reap_if_dead out threshold c w).1.jobs
        ≡ verdict cycle c.job_id job (some job)
  unfolding reap fail_stale_job
  check-verdict here valid old =
      rw is_worker_alive-spared_by
        (elim (Bool-cases (spared_by (out.heartbeat c.worker_id) c.job_id)) [
          | inl s ↦ rw (check_spares out threshold c w (inr (inr (tracked, s))), s) here
          | inr s ↦
              rw (check_reaps out threshold c w about.asked old (λ _. s), s, valid, same.fails)
                (elim (Option-cases out.fail_stale_fails) [
                  | inr (e, f) ↦ rw f here
                  | inl f ↦
                      rw (f, same.clock)
                        (ap (lookup c.job_id) (
                            reaped_jobs
                              (fail_stale_job out.now reaper_error_details c.job_id w.jobs))
                          ∙ lookup-update_from running
                              (finished failed out.now reaper_error_details) c.job_id w.jobs
                              c.job_id
                          ∙ rw (eq_refl c.job_id, here) refl)
                ])
        ])

  -- A check and a whole reap cycle over the same table, in which each id finds its own row, make
  -- the same of the row of a job: if both get the same answers, the check was given that row, with a
  -- valid id, and the row is stale to the cycle's listing, names a worker, and that worker's
  -- heartbeat is no malformed payload.
  pub agrees_with_reaper :
      (snaps : Snapshots) (end : Reaper.Cycle)
      → Keyed w.jobs
      → lookup c.job_id w.jobs ≡ some job
      → is_stale out.now threshold job ≡ true
      → out.is_uuid c.job_id ≡ true
      → Reaper.run_once cycle threshold w.jobs snaps ≡ ok end
      → lookup c.job_id (check_and_reap_if_dead out threshold c w).1.jobs ≡ lookup c.job_id end.jobs
  agrees_with_reaper snaps end keyed here stale valid done =
      let stale_there : is_stale cycle.now threshold job ≡ true =
        subst (λ n. is_stale n threshold job ≡ true) (sym same.clock) stale in
      let old : is_fresh out.now threshold c.started_at ≡ false =
        rw about.start (is_stale-is_fresh out.now threshold job stale) in
      check-verdict here valid old
      ∙ sym (
          run_once-verdict cycle threshold w.jobs snaps end c.job_id job keyed here stale_there
            done)
