-- ===== src/Workflow/Handle/Quiet.antt =====
-- The stages of a run leave the status of every job alone.
use code_intelegence.Base.{
  ℕ, zero, suc, String, ◌≡◌, refl, ap, arith, inl, inr, Option, none, some, List, [], ◌∷◌, ◌==◌,
  lookup, Bool-cases, Option-cases, eq_of_==,
}
use code_intelegence.Domain.Errors.{GoError, Result}
use code_intelegence.Jobs.Table.{
  JobStatus, IndexingJob, Jobs, update_any, set_indexing_job_progress,
}
use code_intelegence.Jobs.Table.Laws.{lookup-update_any}
use code_intelegence.Jobs.Repository.{set_job_progress}
use code_intelegence.Jobs.Lifecycle.{status_of}
use code_intelegence.Jobs.Snapshots.{SnapshotParams}
use code_intelegence.Workflow.Split.{ParsedFileResult}
use code_intelegence.Workflow.Scope.{DiffEntry}
use code_intelegence.Workflow.Steps.{Point, World}
use code_intelegence.Workflow.Steps.Laws.{
  Result-cases, Keeps, bind-Keeps, then-Keeps, when-Keeps, fails_as-Keeps,
}
use code_intelegence.Workflow.Pipeline.{
  ChunkForEmbed, Storage, PipelineInput, check, note_progress, write_file, write_files,
  embed_chunks, upsert_batch, upsert_batches, process_files, activate, run,
}
use code_intelegence.Workflow.Run.{
  ExecContext, Workspace, Calls, answer, ended, create_snapshot, delete_snapshot_artifacts,
  prepare_snapshot, parse_sources, parse_changed, full_pipeline, incremental_pipeline,
  copy_forward_files, copy_forward, note_totals, list_base, pipeline_input,
}

module _ (id : String) where
  abbrev pub seen : World → Option JobStatus
  seen w = status_of id w.jobs

  same_status_of :
      (change : IndexingJob → IndexingJob) (k : String) (jobs : Jobs)
      → ((job : IndexingJob) → (change job).status ≡ job.status)
      → status_of id (update_any change k jobs) ≡ status_of id jobs
  same_status_of change k jobs keeps =
      rw (lookup-update_any change k jobs id) (elim (Bool-cases (k == id)) [
        | inl e ↦
            rw (e, eq_of_== k id e)
              (elim (Option-cases (lookup id jobs)) [
                | inl missing ↦ rw missing refl
                | inr (job, found) ↦ rw found (ap some (keeps job))
              ])
        | inr e ↦ rw e refl
      ])

  progress_status :
      (refused : Option GoError) (k : String) (a b c : ℕ) (jobs : Jobs)
      → status_of id (set_job_progress refused k a b c jobs).1 ≡ status_of id jobs
  unfolding set_job_progress set_indexing_job_progress
  progress_status (some e) k a b c jobs = refl
  progress_status none k a b c jobs = same_status_of _ k jobs (λ job. refl)

  check-Keeps : (refused : Option GoError) → Keeps seen (check refused)
  check-Keeps none w = refl
  check-Keeps (some e) w = refl

  module _ (storage : Storage) (input : PipelineInput) where
    write_file-Keeps : (p : ParsedFileResult) → Keeps seen (write_file storage input p)
    unfolding write_file
    write_file-Keeps p w = elim (Result-cases (storage.write_file p)) [
      | inl (chunks, e) ↦ rw (write_file, e) refl
      | inr (why, e) ↦ rw (write_file, e) refl
    ]

    note_progress-Keeps :
        (refused : Option GoError) (k : String) (a b : ℕ) → Keeps seen (note_progress refused k a b)
    unfolding note_progress
    note_progress-Keeps refused k a b w = progress_status refused k a b 0 w.jobs

    write_files-Keeps :
        (i since : ℕ) (parsed : List ParsedFileResult)
        → Keeps seen (write_files storage input i since parsed)
    unfolding write_files
    write_files-Keeps i since [] = λ w. refl
    write_files-Keeps i since (p ∷ parsed) =
        bind-Keeps seen _ _ (fails_as-Keeps seen _ _ (write_file-Keeps p)) λ chunks.
          then-Keeps seen _ _ (when-Keeps seen _ _ (note_progress-Keeps _ _ _ _))
            (bind-Keeps seen _ _ (write_files-Keeps (suc i) _ parsed) λ more w. refl)

    upsert_batch-Keeps : (points : List Point) → Keeps seen (upsert_batch storage input points)
    unfolding upsert_batch
    upsert_batch-Keeps points w = elim (Option-cases (storage.upsert_points points)) [
      | inl e ↦ rw (upsert_batch, e) refl
      | inr (why, e) ↦ rw (upsert_batch, e) refl
    ]

    upsert_batches-Keeps :
        (rounds : ℕ) (points : List Point) → Keeps seen (upsert_batches storage input rounds points)
    unfolding upsert_batches
    upsert_batches-Keeps zero points = λ w. refl
    upsert_batches-Keeps (suc rounds) points = when-Keeps seen _ _ (
        then-Keeps seen _ _ (fails_as-Keeps seen _ _ (upsert_batch-Keeps _))
          (upsert_batches-Keeps rounds _))

    embed_chunks-Keeps :
        (chunks : List ChunkForEmbed) → Keeps seen (embed_chunks storage input chunks)
    unfolding embed_chunks
    embed_chunks-Keeps chunks w = ground arith

    pub process_files-Keeps : Keeps seen (process_files storage input)
    unfolding process_files
    process_files-Keeps =
        then-Keeps seen _ _ (fails_as-Keeps seen _ _ (check-Keeps storage.ensure_collection)) (
          bind-Keeps seen _ _ (write_files-Keeps 0 0 input.parsed_files) λ chunks.
            when-Keeps seen _ _ (
              bind-Keeps seen _ _ (embed_chunks-Keeps chunks) λ vectors.
                then-Keeps seen _ _ (upsert_batches-Keeps _ _) (note_progress-Keeps _ _ _ _)))

    pub activate-Keeps : Keeps seen (activate storage input)
    unfolding activate
    activate-Keeps w = refl

    pub run-Keeps : Keeps seen (run storage input)
    unfolding run
    run-Keeps = then-Keeps seen _ _ process_files-Keeps (fails_as-Keeps seen _ _ activate-Keeps)

  module _ (calls : Calls) (fuel : ℕ) (job_id : String) where
    pub answer-Keeps : {A : Type 0} (r : Result GoError A) → Keeps seen (answer r)
    unfolding answer
    answer-Keeps r w = refl

    ended-Keeps : {A : Type 0} (o : Option A) → Keeps seen (ended o)
    unfolding ended
    ended-Keeps none w = refl
    ended-Keeps (some a) w = refl

    create_snapshot-Keeps :
        (params : SnapshotParams) → Keeps seen (create_snapshot calls fuel job_id params)
    unfolding create_snapshot
    create_snapshot-Keeps params w = ground arith

    delete_snapshot_artifacts-Keeps :
        (k : String) → Keeps seen (delete_snapshot_artifacts calls fuel job_id k)
    unfolding delete_snapshot_artifacts
    delete_snapshot_artifacts-Keeps k w = ground arith

    prepare_snapshot-Keeps :
        (ctx : ExecContext) (version commit_sha : String)
        → Keeps seen (prepare_snapshot calls fuel job_id ctx version commit_sha)
    unfolding prepare_snapshot
    prepare_snapshot-Keeps ctx version commit_sha =
        bind-Keeps seen _ _ (fails_as-Keeps seen _ _ (create_snapshot-Keeps _)) λ k.
          then-Keeps seen _ _ (fails_as-Keeps seen _ _ (delete_snapshot_artifacts-Keeps k))
            λ w. refl

    parse_sources-Keeps :
        (a b : String) (files : List String)
        → Keeps seen (parse_sources calls fuel job_id a b files)
    unfolding parse_sources
    parse_sources-Keeps a b files =
        bind-Keeps seen _ _ (fails_as-Keeps seen _ _ (answer-Keeps _)) λ contents.
          bind-Keeps seen _ _ (fails_as-Keeps seen _ _ (answer-Keeps _))
            λ parsed. bind-Keeps seen _ _ (ended-Keeps _) λ raw. ended-Keeps _

    parse_changed-Keeps : (files : List String) → Keeps seen (parse_changed calls fuel job_id files)
    parse_changed-Keeps [] = λ w. refl
    parse_changed-Keeps (f ∷ files) = parse_sources-Keeps _ _ (f ∷ files)

    pub full_pipeline-Keeps :
        (ctx : ExecContext) (version : String) (ws : Workspace)
        → Keeps seen (full_pipeline calls fuel job_id ctx version ws)
    unfolding full_pipeline
    full_pipeline-Keeps ctx version ws = bind-Keeps seen _ _ (parse_sources-Keeps _ _ _) λ parsed.
        bind-Keeps seen _ _ (prepare_snapshot-Keeps _ _ _) λ k.
          fails_as-Keeps seen _ _
            (run-Keeps calls.storage (pipeline_input calls fuel job_id ctx k parsed))

    copy_forward_files-Keeps :
        (k : String) (paths : List String)
        → Keeps seen (copy_forward_files calls fuel job_id k paths)
    unfolding copy_forward_files
    copy_forward_files-Keeps k [] = λ w. refl
    copy_forward_files-Keeps k (p ∷ paths) =
        then-Keeps seen _ _ (fails_as-Keeps seen _ _ (check-Keeps (calls.copy_file p)))
          (then-Keeps seen _ _ (λ w. refl) (copy_forward_files-Keeps k paths))

    copy_forward-Keeps :
        (k : String) (parsed : List ParsedFileResult) (paths : List String)
        → Keeps seen (copy_forward calls fuel job_id k parsed paths)
    unfolding copy_forward note_totals
    copy_forward-Keeps k parsed paths =
        then-Keeps seen _ _ (fails_as-Keeps seen _ _ (copy_forward_files-Keeps k paths)) (
          then-Keeps seen _ _
            (when-Keeps seen _ _ (fails_as-Keeps seen _ _ (check-Keeps calls.copy_vectors)))
            (λ w. progress_status _ _ _ _ _ w.jobs))

    list_base-Keeps : (k : String) → Keeps seen (list_base calls fuel job_id k)
    list_base-Keeps k w = ground arith

    pub incremental_pipeline-Keeps :
        (ctx : ExecContext) (version : String) (ws : Workspace) (base_id : String)
        (diff : List DiffEntry)
        → Keeps seen (incremental_pipeline calls fuel job_id ctx version ws base_id diff)
    unfolding incremental_pipeline
    incremental_pipeline-Keeps ctx version ws base_id diff =
        bind-Keeps seen _ _ (fails_as-Keeps seen _ _ (list_base-Keeps base_id)) λ old_files.
          bind-Keeps seen _ _ (parse_changed-Keeps _) λ parsed.
            bind-Keeps seen _ _ (prepare_snapshot-Keeps _ _ _) λ k.
              then-Keeps seen _ _
                (when-Keeps seen _ _ (
                  fails_as-Keeps seen _ _ (
                    process_files-Keeps calls.storage
                      (pipeline_input calls fuel job_id ctx k parsed))))
                (then-Keeps seen _ _ (when-Keeps seen _ _ (copy_forward-Keeps _ _ _)) (
                  fails_as-Keeps seen _ _
                    (activate-Keeps calls.storage (pipeline_input calls fuel job_id ctx k parsed))))
