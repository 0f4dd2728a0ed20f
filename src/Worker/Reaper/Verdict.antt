-- ===== src/Worker/Reaper/Verdict.antt =====
-- What a reap cycle makes of the row of a stale job, exactly.
use mathlib.Core.Path.{subst}
use code_intelegence.Base.{
  ℕ, String, ◌≡◌, refl, sym, ap, ◌∙◌, Bool, true, false, Option, none, some, [], ◌∷◌, ◌==◌, arith,
  ◌||◌, eq_of_==, lookup, if◌then◌else◌, Option-cases, Bool-cases, inl, inr, eq_refl,
}
use code_intelegence.Domain.Errors.{ok}
use code_intelegence.Jobs.Table.{
  Jobs, IndexingJob, running, failed, finished, is_stale, update_from, fail_stale_job,
  list_stale_running_jobs,
}
use code_intelegence.Jobs.Table.Laws.{lookup-update_from, guarded}
use code_intelegence.Jobs.Snapshots.{Snapshots}
use code_intelegence.Worker.Reaper.{
  Outside, Cycle, new_cycle, is_worker_alive, worker_of, reap_one, reap_all, run_once,
  reaper_error_details,
}
use code_intelegence.Worker.Reaper.Spares.{
  Keyed, Listed, list_stale-Listed, clean_snapshots_jobs, run_once_cycle,
}

abbrev has_id : String → Jobs → Bool
has_id id [] = false
has_id id ((k, job) ∷ jobs) = k == id || has_id id jobs

module _ (out : Outside) where
  -- The job is failed, if it still runs, unless its worker is alive or the database refuses.
  abbrev pub verdict : String → IndexingJob → Option IndexingJob → Option IndexingJob
  verdict id job row =
      if is_worker_alive out (worker_of job) id then row else (elim (out.fail_stale_fails id) [
        | some e ↦ row
        | none ↦ guarded running (finished failed out.now reaper_error_details) row
      ])

  abbrev failing : IndexingJob → IndexingJob
  failing = finished failed out.now reaper_error_details

  reap_one_exact :
      (k : String) (job : IndexingJob) (c : Cycle)
      → (reap_one out k job c).jobs ≡ (
          if is_worker_alive out (worker_of job) k then c.jobs else (elim (out.fail_stale_fails k) [
            | some e ↦ c.jobs
            | none ↦ (update_from running failing k c.jobs).1
          ]))
  unfolding reap_one fail_stale_job update_from
  reap_one_exact k job c = ground arith

  lookup-reap_one_here :
      (id : String) (job : IndexingJob) (c : Cycle)
      → lookup id (reap_one out id job c).jobs ≡ verdict id job (lookup id c.jobs)
  lookup-reap_one_here id job c =
      rw (reap_one_exact id job c) (elim (Bool-cases (is_worker_alive out (worker_of job) id)) [
        | inl alive ↦ rw alive refl
        | inr dead ↦ elim (Option-cases (out.fail_stale_fails id)) [
          | inr (e, refused) ↦ rw (dead, refused) refl
          | inl answered ↦
              rw (dead, answered)
                (rw (lookup-update_from running failing id c.jobs id, eq_refl id) refl)
        ]
      ])

  lookup-reap_one_other :
      (k : String) (job : IndexingJob) (c : Cycle) (id : String)
      → (k == id) ≡ false
      → lookup id (reap_one out k job c).jobs ≡ lookup id c.jobs
  lookup-reap_one_other k job c id n =
      rw (reap_one_exact k job c) (elim (Bool-cases (is_worker_alive out (worker_of job) k)) [
        | inl alive ↦ rw alive refl
        | inr dead ↦ elim (Option-cases (out.fail_stale_fails k)) [
          | inr (e, refused) ↦ rw (dead, refused) refl
          | inl answered ↦
              rw (dead, answered) (rw (lookup-update_from running failing k c.jobs id, n) refl)
        ]
      ])

  verdict-twice :
      (id : String) (job : IndexingJob) (row : Option IndexingJob)
      → verdict id job (verdict id job row) ≡ verdict id job row
  verdict-twice id job none = ground arith
  verdict-twice id job (some old) = ground arith

  module _ (threshold : ℕ) (jobs : Jobs) (id : String) (job : IndexingJob)
      (here : lookup id jobs ≡ some job) where
    -- A job listed under the id is the one that the id finds.
    lookup-reap_listed :
        (k : String) (j : IndexingJob) (c : Cycle)
        → (k == id) ≡ true
        → lookup k jobs ≡ some j
        → lookup id (reap_one out k j c).jobs ≡ verdict id job (lookup id c.jobs)
    lookup-reap_listed k j c y listed =
        let key : k ≡ id = eq_of_== k id y in
        let there : lookup id jobs ≡ some j = subst (λ x. lookup x jobs ≡ some j) key listed in
        let same : j ≡ job = ground (arith, there, here) in
        subst (λ x. lookup id (reap_one out x j c).jobs ≡ verdict id job (lookup id c.jobs))
          (sym key)
          (subst (λ x. lookup id (reap_one out id x c).jobs ≡ verdict id job (lookup id c.jobs))
            (sym same) (lookup-reap_one_here id job c))

    reap_all-fixed :
        (stale : Jobs) (c : Cycle)
        → Listed out threshold jobs stale
        → verdict id job (lookup id c.jobs) ≡ lookup id c.jobs
        → lookup id (reap_all out stale c).jobs ≡ lookup id c.jobs
    unfolding reap_all
    reap_all-fixed [] c listed fixed = refl
    reap_all-fixed ((k, j) ∷ rest) c listed fixed = elim (Bool-cases (k == id)) [
      | inl y ↦
          let one = lookup-reap_listed k j c y listed.0.1 ∙ fixed in
          reap_all-fixed rest (reap_one out k j c) listed.1
            (ap (verdict id job) one ∙ fixed ∙ sym one)
          ∙ one
      | inr n ↦
          let one = lookup-reap_one_other k j c id n in
          reap_all-fixed rest (reap_one out k j c) listed.1
            (ap (verdict id job) one ∙ fixed ∙ sym one)
          ∙ one
    ]

    reap_all-row :
        (stale : Jobs) (c : Cycle)
        → Listed out threshold jobs stale
        → has_id id stale ≡ true
        → lookup id (reap_all out stale c).jobs ≡ verdict id job (lookup id c.jobs)
    unfolding reap_all
    reap_all-row [] c listed has = absurd (ground arith)
    reap_all-row ((k, j) ∷ rest) c listed has = elim (Bool-cases (k == id)) [
      | inl y ↦
          let one = lookup-reap_listed k j c y listed.0.1 in
          reap_all-fixed rest (reap_one out k j c) listed.1
            (ap (verdict id job) one ∙ verdict-twice id job (lookup id c.jobs) ∙ sym one)
          ∙ one
      | inr n ↦
          reap_all-row rest (reap_one out k j c) listed.1 (rw n at has)
          ∙ ap (verdict id job) (lookup-reap_one_other k j c id n)
    ]

  has_id-list_stale :
      (threshold : ℕ) (id : String) (job : IndexingJob) (jobs : Jobs)
      → lookup id jobs ≡ some job
      → is_stale out.now threshold job ≡ true
      → has_id id (list_stale_running_jobs out.now threshold jobs) ≡ true
  unfolding list_stale_running_jobs lookup
  has_id-list_stale threshold id job [] h stale = cc
  has_id-list_stale threshold id job ((k, j) ∷ jobs) h stale = elim (Bool-cases (k == id)) [
    | inl y ↦
        let same : j ≡ job = ground arith in
        let listed : is_stale out.now threshold j ≡ true = rw same stale in rw listed (ground arith)
    | inr n ↦
        let rest = has_id-list_stale threshold id job jobs (rw n at h) stale in
        elim (Bool-cases (is_stale out.now threshold j)) [
          | inl s ↦ rw s (ground arith)
          | inr s ↦ rw s rest
        ]
  ]

  -- In a table where each id finds its own row, a cycle that is answered gives the row of a stale
  -- job the verdict on it.
  pub run_once-verdict :
      (threshold : ℕ) (jobs : Jobs) (snaps : Snapshots) (c : Cycle) (id : String)
      (job : IndexingJob)
      → Keyed jobs
      → lookup id jobs ≡ some job
      → is_stale out.now threshold job ≡ true
      → run_once out threshold jobs snaps ≡ ok c
      → lookup id c.jobs ≡ verdict id job (some job)
  run_once-verdict threshold jobs snaps c id job keyed here stale h =
      let listed = list_stale_running_jobs out.now threshold jobs in
      let done = reap_all out listed (new_cycle jobs snaps) in
      subst (λ x. lookup id x.jobs ≡ verdict id job (some job))
        (run_once_cycle out threshold jobs snaps c h)
        (rw (clean_snapshots_jobs out threshold done) (
          reap_all-row threshold jobs id job here listed (new_cycle jobs snaps)
            (list_stale-Listed out threshold jobs jobs keyed)
            (has_id-list_stale threshold id job jobs here stale)
          ∙ ap (verdict id job) here))
