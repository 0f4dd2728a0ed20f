-- ===== src/Worker/Reaper/Orphans.antt =====
-- Which snapshots a reap cycle deletes.
use mathlib.Core.Path.{subst}
use code_intelegence.Base.{
  ℕ, String, ◌≡◌, refl, true, false, Option, none, some, List, [], ◌∷◌, ◌==◌, arith, eq_of_==,
  eq_refl, lookup, insert, lookup-delete, contains, Each, Each-insert, Each-lookup, Bool-cases,
  Option-cases, inl, inr, ◌⊎◌, ◌∙◌, ap,
}
use code_intelegence.Domain.Errors.{ok}
use code_intelegence.Jobs.Table.{
  JobStatus, queued, running, Jobs, IndexingJob, update_from, update_any, create_indexing_job,
  same_status, list_stale_running_jobs,
}
use code_intelegence.Jobs.Lifecycle.{
  Op, create, claim, complete, fail, progress, reap, abandon, step, run, create_fresh,
}
use code_intelegence.Jobs.Snapshots.{
  Snapshots, IndexSnapshot, is_building, links, any_job, list_orphaned_building_snapshots,
  delete_orphaned_building_snapshot, is_orphaned,
}
use code_intelegence.Worker.Reaper.Spares.{reap_one_jobs, run_once_cycle}
use code_intelegence.Worker.Reaper.{
  Outside, Cycle, new_cycle, reap_one, reap_all, run_once, clean_snapshots, delete_all, delete_one,
}

-- No job of the table names a snapshot.
abbrev Unlinked : Jobs → Type 0
Unlinked = Each (λ job. job.index_snapshot_id ≡ none)

module _ (change : IndexingJob → IndexingJob)
    (keeps : (job : IndexingJob) → (change job).index_snapshot_id ≡ job.index_snapshot_id)
    (k : String) (jobs : Jobs) (h : Unlinked jobs) where
  change-Unlinked :
      (job : IndexingJob) → lookup k jobs ≡ some job → Unlinked (insert k (change job) jobs)
  change-Unlinked job f =
      Each-insert (λ j. j.index_snapshot_id ≡ none) k (change job) jobs
        (rw (keeps job) (Each-lookup (λ j. j.index_snapshot_id ≡ none) k job jobs f h)) h

  update_from-Unlinked : (from : JobStatus) → Unlinked (update_from from change k jobs).1
  unfolding update_from
  update_from-Unlinked from = elim (Option-cases (lookup k jobs)) [
    | inl n ↦ rw (n, update_from) h
    | inr (job, f) ↦ elim (Bool-cases (same_status job.status from)) [
      | inl e ↦ rw (f, e, update_from) (change-Unlinked job f)
      | inr e ↦ rw (f, e, update_from) h
    ]
  ]

  update_any-Unlinked : Unlinked (update_any change k jobs)
  unfolding update_any
  update_any-Unlinked = elim (Option-cases (lookup k jobs)) [
    | inl n ↦ rw (n, update_any) h
    | inr (job, f) ↦ rw (f, update_any) (change-Unlinked job f)
  ]

create-Unlinked :
    (found : Option IndexingJob) (p t k : String) (jobs : Jobs)
    → Unlinked jobs
    → Unlinked (create_fresh found p t k jobs)
unfolding create_indexing_job
create-Unlinked (some old) p t k jobs h = h
create-Unlinked none p t k jobs h = Each-insert (λ j. j.index_snapshot_id ≡ none) k _ jobs refl h

step-Unlinked : (op : Op) (jobs : Jobs) → Unlinked jobs → Unlinked (step op jobs)
unfolding step code_intelegence.Jobs.Table.set_indexing_job_failed
step-Unlinked (create p t k) jobs h = create-Unlinked (lookup k jobs) p t k jobs h
step-Unlinked (claim none now k worker) jobs h = update_from-Unlinked _ (λ j. refl) k jobs h queued
step-Unlinked (complete none now k) jobs h = update_from-Unlinked _ (λ j. refl) k jobs h running
step-Unlinked (fail none now k d) jobs h = update_from-Unlinked _ (λ j. refl) k jobs h running
step-Unlinked (progress none k a b c) jobs h = update_any-Unlinked _ (λ j. refl) k jobs h
step-Unlinked (reap now k d) jobs h = update_from-Unlinked _ (λ j. refl) k jobs h running
step-Unlinked (abandon none now k d) jobs h = update_any-Unlinked _ (λ j. refl) k jobs h
step-Unlinked (abandon (some e) now k d) jobs h = h
step-Unlinked (claim (some e) now k worker) jobs h = h
step-Unlinked (complete (some e) now k) jobs h = h
step-Unlinked (fail (some e) now k d) jobs h = h
step-Unlinked (progress (some e) k a b c) jobs h = h

run-Unlinked : (ops : List Op) (jobs : Jobs) → Unlinked jobs → Unlinked (run ops jobs)
unfolding run
run-Unlinked [] jobs h = h
run-Unlinked (op ∷ ops) jobs h = run-Unlinked ops (step op jobs) (step-Unlinked op jobs h)

any_link : (id : String) (jobs : Jobs) → Unlinked jobs → any_job (links id) jobs ≡ false
unfolding any_job
any_link id [] h = refl
any_link id ((k, job) ∷ jobs) h = ground (arith, any_link id jobs h.1, h.0)

module _ (out : Outside) where
  reap_one-Unlinked :
      (k : String) (job : IndexingJob) (c : Cycle)
      → Unlinked c.jobs
      → Unlinked (reap_one out k job c).jobs
  reap_one-Unlinked k job c h = elim (reap_one_jobs out 0 k job c) [
    | inl same ↦ rw same h
    | inr (dead, e) ↦ rw e (update_from-Unlinked _ (λ j. refl) k c.jobs h running)
  ]

  reap_one-snapshots :
      (k : String) (job : IndexingJob) (c : Cycle) → (reap_one out k job c).snapshots ≡ c.snapshots
  unfolding reap_one
  reap_one-snapshots k job c = ground arith

  reap_all-Unlinked :
      (stale : Jobs) (c : Cycle) → Unlinked c.jobs → Unlinked (reap_all out stale c).jobs
  unfolding reap_all
  reap_all-Unlinked [] c h = h
  reap_all-Unlinked ((k, job) ∷ rest) c h =
      reap_all-Unlinked rest (reap_one out k job c) (reap_one-Unlinked k job c h)

  reap_all-snapshots : (stale : Jobs) (c : Cycle) → (reap_all out stale c).snapshots ≡ c.snapshots
  unfolding reap_all
  reap_all-snapshots [] c = refl
  reap_all-snapshots ((k, job) ∷ rest) c =
      reap_all-snapshots rest (reap_one out k job c) ∙ reap_one-snapshots k job c

list_orphaned-contains :
    (jobs : Jobs) (id : String) (s : IndexSnapshot) (snaps : Snapshots)
    → lookup id snaps ≡ some s
    → is_orphaned jobs id s ≡ true
    → contains id (list_orphaned_building_snapshots jobs snaps) ≡ true
unfolding list_orphaned_building_snapshots lookup
list_orphaned-contains jobs id s [] h o = cc
list_orphaned-contains jobs id s ((k, t) ∷ rest) h o = elim (Bool-cases (k == id)) [
  | inl e ↦
      let same : t ≡ s = ground arith in
      let here : is_orphaned jobs k t ≡ true = rw (same, eq_of_== k id e) o in rw (here, e)
  | inr n ↦
      let ih = list_orphaned-contains jobs id s rest (rw n at h) o in
      elim (Bool-cases (is_orphaned jobs k t)) [ inl y ↦ rw (y, n, ih) | inr y ↦ rw (y, ih) ]
]

-- A snapshot that is building and inactive does not survive its deletion.
module _ (out : Outside) (id : String) (s : IndexSnapshot) (built : is_building s.status ≡ true)
    (inactive : s.is_active ≡ false) (answers : (k : String) → out.delete_fails k ≡ none) where
  -- The row is still there unchanged, or it is gone.
  abbrev Fate : Option IndexSnapshot → Type 0
  Fate found = (found ≡ some s) ⊎ (found ≡ none)

  delete_one-Fate :
      (k : String) (snaps : Snapshots)
      → Fate (lookup id snaps)
      → Fate (lookup id (delete_one out k snaps))
  unfolding delete_orphaned_building_snapshot
  delete_one-Fate k snaps f = ground (arith, answers k, lookup-delete k id snaps)

  delete_one_gone :
      (snaps : Snapshots) → Fate (lookup id snaps) → lookup id (delete_one out id snaps) ≡ none
  unfolding delete_orphaned_building_snapshot
  delete_one_gone snaps f = ground (arith, answers id, lookup-delete id id snaps, eq_refl id)

  stays_gone :
      (k : String) (snaps : Snapshots)
      → lookup id snaps ≡ none
      → lookup id (delete_one out k snaps) ≡ none
  unfolding delete_orphaned_building_snapshot
  stays_gone k snaps f = ground (arith, answers k, lookup-delete k id snaps)

  delete_all_stays_gone :
      (ids : List String) (snaps : Snapshots)
      → lookup id snaps ≡ none
      → lookup id (delete_all out ids snaps) ≡ none
  unfolding delete_all
  delete_all_stays_gone [] snaps f = f
  delete_all_stays_gone (k ∷ ids) snaps f =
      delete_all_stays_gone ids (delete_one out k snaps) (stays_gone k snaps f)

  delete_all_gone :
      (ids : List String) (snaps : Snapshots)
      → Fate (lookup id snaps)
      → contains id ids ≡ true
      → lookup id (delete_all out ids snaps) ≡ none
  unfolding delete_all
  delete_all_gone [] snaps f h = cc
  delete_all_gone (k ∷ ids) snaps f h = elim (Bool-cases (k == id)) [
    | inl e ↦
        delete_all_stays_gone ids (delete_one out k snaps)
          (rw (eq_of_== k id e) (delete_one_gone snaps f))
    | inr n ↦ delete_all_gone ids (delete_one out k snaps) (delete_one-Fate k snaps f) (rw n at h)
  ]

  clean_gone :
      (c : Cycle)
      → out.list_orphans_fails ≡ none
      → Unlinked c.jobs
      → lookup id c.snapshots ≡ some s
      → lookup id (clean_snapshots out c).snapshots ≡ none
  unfolding clean_snapshots
  clean_gone c listed free here =
      rw (listed, clean_snapshots)
        (delete_all_gone (list_orphaned_building_snapshots c.jobs c.snapshots) c.snapshots
          (inl here)
          (list_orphaned-contains c.jobs id s c.snapshots here
            (ground (arith, any_link id c.jobs free))))

  -- From a jobs table that came about by the operations of the program, a reap cycle whose queries
  -- are answered deletes every snapshot that is building and inactive, whether or not a job is
  -- running whose live worker is building it: no operation ever writes a job's index_snapshot_id,
  -- by which the cleanup recognises the snapshots of running jobs.
  pub building_snapshot_deleted :
      (threshold : ℕ) (ops : List Op) (snaps : Snapshots) (c : Cycle)
      → out.list_orphans_fails ≡ none
      → lookup id snaps ≡ some s
      → run_once out threshold (run ops []) snaps ≡ ok c
      → lookup id c.snapshots ≡ none
  building_snapshot_deleted threshold ops snaps c listed here h =
      let jobs = run ops [] in
      let stale = list_stale_running_jobs out.now threshold jobs in
      let start = new_cycle jobs snaps in
      let done = reap_all out stale start in
      subst (λ x. lookup id x.snapshots ≡ none) (run_once_cycle out threshold jobs snaps c h)
        (clean_gone done listed (reap_all-Unlinked out stale start (run-Unlinked ops [] tt))
          (ap (lookup id) (reap_all-snapshots out stale start) ∙ here))
