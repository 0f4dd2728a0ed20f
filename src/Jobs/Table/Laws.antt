-- ===== src/Jobs/Table/Laws.antt =====
-- What a lookup finds after each update of indexing_jobs.
use code_intelegence.Base.{
  String, ◌≡◌, Bool, true, false, Option, none, some, arith, eq_iff, ◌==◌, if◌then◌else◌, lookup,
  lookup-insert, Option-cases, inl, inr,
}
use code_intelegence.Jobs.Table.{JobStatus, IndexingJob, Jobs, same_status, update_from, update_any}

pub eq_of_same_status : (a b : JobStatus) → same_status a b ≡ true → a ≡ b
eq_of_same_status a b h = ground arith

-- A guarded update as a change to what is stored under the key.
abbrev pub guarded :
    JobStatus → (IndexingJob → IndexingJob) → Option IndexingJob → Option IndexingJob
guarded from change none = none
guarded from change (some job) = some (if same_status job.status from then change job else job)

abbrev pub changed : (IndexingJob → IndexingJob) → Option IndexingJob → Option IndexingJob
changed change none = none
changed change (some job) = some (change job)

abbrev pub hits : JobStatus → Option IndexingJob → Bool
hits from none = false
hits from (some job) = same_status job.status from

module _ (from : JobStatus) (change : IndexingJob → IndexingJob) (k : String) (jobs : Jobs) where
  pub lookup-update_from :
      (j : String)
      → lookup j (update_from from change k jobs).1
        ≡ (if k == j then guarded from change (lookup k jobs) else lookup j jobs)
  unfolding update_from
  lookup-update_from j = elim (Option-cases (lookup k jobs)) [
    | inl n ↦ ground (arith, eq_iff k j)
    | inr (job, f) ↦ ground (arith, eq_iff k j, lookup-insert k j (change job) jobs)
  ]

  -- Exactly one row is affected, or none.
  pub rows-update_from :
      (update_from from change k jobs).0 ≡ (if hits from (lookup k jobs) then 1 else 0)
  unfolding update_from
  rows-update_from = ground arith

module _ (change : IndexingJob → IndexingJob) (k : String) (jobs : Jobs) where
  pub lookup-update_any :
      (j : String)
      → lookup j (update_any change k jobs)
        ≡ (if k == j then changed change (lookup k jobs) else lookup j jobs)
  unfolding update_any
  lookup-update_any j = elim (Option-cases (lookup k jobs)) [
    | inl n ↦ ground (arith, eq_iff k j)
    | inr (job, f) ↦ ground (arith, eq_iff k j, lookup-insert k j (change job) jobs)
  ]
