-- ===== src/Workflow/Pipeline.antt =====
-- backend-worker/internal/indexing/pipeline.go: the storage pipeline. The artifact writer, the
-- embedder and the vector store are interfaces, whose answers are a `Storage`; the import targets
-- that ResolveImportTargets rewrites are no part of the parsed files here.
pub mod Complete
pub mod Points
use Prim.Native.String.{◌++◌ as ◌<>◌}
use code_intelegence.Base.{
  ℕ, zero, suc, ◌+◌, String, Bool, not, ◌||◌, Option, none, some, List, [], ◌∷◌, ◌++◌, eqb, leb,
  length, take, drop, if◌then◌else◌, ◌==◌,
}
use code_intelegence.Domain.Errors.{GoError, other, wrap, Result, ok, err}
use code_intelegence.Jobs.Repository.{set_job_progress}
use code_intelegence.Jobs.Snapshots.{activate_snapshot_tx}
use code_intelegence.Postgres.Tx.{Server}
use code_intelegence.Workflow.Bytes.{Bytes}
use code_intelegence.Workflow.Split.{ParsedFileResult}
use code_intelegence.Workflow.Steps.{FileRow, Point, World, Step, pure, ◌>>=◌, ◌>>◌, fails_as, when}

-- artifact.ChunkForEmbed, with the fields that identify the chunk and its text.
pub record ChunkForEmbed : Type 0 where
  pub chunk_db_id : String
  pub content : Bytes
  pub file_path : String

-- The answers of the interfaces. `progress` is the failure of a progress update, by the files done.
pub record Storage : Type 0 where
  pub ensure_collection : Option GoError
  pub write_file : ParsedFileResult → Result GoError (List ChunkForEmbed)
  pub progress : ℕ → Option GoError
  pub embed : List Bytes → Result GoError (List (List ℕ))
  pub upsert_points : List Point → Option GoError
  pub server : Server

-- PipelineInput, with the fields that end up in the state.
pub record PipelineInput : Type 0 where
  pub project_id : String
  pub snapshot_id : String
  pub job_id : String
  pub branch : String
  pub parsed_files : List ParsedFileResult

abbrev pub vector_upsert_batch_size : ℕ
vector_upsert_batch_size = 100

abbrev pub check : Option GoError → Step GoError (Unit {0})
check none w = (ok tt, w)
check (some e) w = (err e, w)

-- queries.SetIndexingJobProgress, whose failure is only logged.
unfoldable pub note_progress : Option GoError → String → ℕ → ℕ → Step GoError (Unit {0})
unfolding set_job_progress
note_progress refused job_id files chunks w =
    (ok tt, record w { jobs = (set_job_progress refused job_id files chunks 0 w.jobs).1 })

-- Qdrant keeps one point for each id: an upsert puts the new point in the place of the old one, or
-- adds it.
unfoldable pub upsert_point : Point → List Point → List Point
upsert_point p [] = p ∷ []
upsert_point p (q ∷ points) =
    let rest = upsert_point p points in if q.id == p.id then p ∷ points else q ∷ rest

unfoldable pub upsert_all : List Point → List Point → List Point
unfolding upsert_point
upsert_all [] stored = stored
upsert_all (p ∷ points) stored = upsert_all points (upsert_point p stored)

module _ (storage : Storage) (input : PipelineInput) where
  -- writer.WriteFile
  unfoldable pub write_file : ParsedFileResult → Step GoError (List ChunkForEmbed)
  write_file parsed w = elim (storage.write_file parsed) [
    | err e ↦ (err e, w)
    | ok chunks ↦ (
      ok chunks,
      record w {
        files =
            w.files
            ++ (record { index_snapshot_id = input.snapshot_id; file_path = parsed.file_path }
                ∷ []);
      },
    )
  ]

  -- (i+1)%500 == 0 || i+1 == len(input.ParsedFiles); `since` counts from the last multiple of 500.
  abbrev pub due : ℕ → List ParsedFileResult → Bool
  due since rest = eqb since 500 || leb (length rest) 0

  -- The rest of the loop's body, and of the loop, after a file is written.
  abbrev pub then_write :
      ℕ
      → ℕ
      → List ParsedFileResult
      → Step GoError (List ChunkForEmbed)
      → List ChunkForEmbed
      → Step GoError (List ChunkForEmbed)
  then_write i since rest later chunks = do
    when (due (suc since) rest) (note_progress (storage.progress (suc i)) input.job_id (suc i) 0)
    more ← later
    pure (chunks ++ more)

  -- Phase 1: the files from number `i` on, with the chunks that they give.
  unfoldable pub write_files : ℕ → ℕ → List ParsedFileResult → Step GoError (List ChunkForEmbed)
  unfolding write_file note_progress
  write_files i since [] = pure []
  write_files i since (parsed ∷ rest) =
      let later = write_files (suc i) (if eqb (suc since) 500 then 0 else suc since) rest in
      fails_as (wrap "indexing: file") (write_file parsed) >>= then_write i since rest later

  unfoldable pub texts_of : List ChunkForEmbed → List Bytes
  texts_of [] = []
  texts_of (c ∷ chunks) = c.content ∷ texts_of chunks

  -- Phase 2
  unfoldable pub embed_chunks : List ChunkForEmbed → Step GoError (List (List ℕ))
  unfolding texts_of
  embed_chunks chunks w = elim (storage.embed (texts_of chunks)) [
    | err e ↦ (err (wrap "indexing: embed chunks" e), w)
    | ok vectors ↦
        if eqb (length vectors) (length (texts_of chunks))
        then (ok vectors, w)
        else (err (other "indexing: embed: vectors and texts differ in number"), w)
  ]

  abbrev pub point_of : ChunkForEmbed → List ℕ → Point
  point_of c vector = record {
    id = c.chunk_db_id;
    vector = vector;
    index_snapshot_id = input.snapshot_id;
    file_path = c.file_path;
  }

  unfoldable pub points_of : List ChunkForEmbed → List (List ℕ) → List Point
  points_of (c ∷ chunks) (v ∷ vectors) = point_of c v ∷ points_of chunks vectors
  points_of _ _ = []

  -- vectorDB.UpsertPoints
  unfoldable pub upsert_batch : List Point → Step GoError (Unit {0})
  unfolding upsert_all
  upsert_batch points w = elim (storage.upsert_points points) [
    | some e ↦ (err e, w)
    | none ↦ (ok tt, record w { points = upsert_all points w.points })
  ]

  -- Phase 3: points[start:end] for each batch, with the points that are left. As many rounds as
  -- there are points are enough.
  unfoldable pub upsert_batches : ℕ → List Point → Step GoError (Unit {0})
  unfolding upsert_batch
  upsert_batches zero points = pure tt
  upsert_batches (suc rounds) points =
      let rest = upsert_batches rounds (drop vector_upsert_batch_size points) in
      when (not (leb (length points) 0)) (
        fails_as (wrap "indexing: upsert vectors batch")
          (upsert_batch (take vector_upsert_batch_size points))
        >> rest)

  abbrev pub store_chunks : List ChunkForEmbed → Step GoError (Unit {0})
  store_chunks chunks = do
    vectors ← embed_chunks chunks
    upsert_batches (length chunks) (points_of chunks vectors)
    note_progress (storage.progress (length input.parsed_files)) input.job_id
        (length input.parsed_files) (length chunks)

  unfoldable pub process_files : Step GoError (Unit {0})
  unfolding write_files embed_chunks points_of upsert_batches note_progress
  process_files = do
    fails_as (wrap "indexing: ensure collection") (check storage.ensure_collection)
    chunks ← write_files 0 0 input.parsed_files
    when (not (leb (length chunks) 0)) (store_chunks chunks)

  -- p.activate, in production TxActivator
  unfoldable pub activate : Step GoError (Unit {0})
  unfolding activate_snapshot_tx
  activate w =
      let (result, snapshots) =
        activate_snapshot_tx storage.server input.project_id input.branch input.snapshot_id
          w.snapshots in
      (result, record w { snapshots = snapshots })

  -- Pipeline.Run; RunWithoutActivation is process_files.
  unfoldable pub run : Step GoError (Unit {0})
  unfolding process_files activate
  run = do process_files; fails_as (wrap "indexing: activate snapshot") activate
