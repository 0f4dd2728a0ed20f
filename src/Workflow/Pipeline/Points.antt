-- ===== src/Workflow/Pipeline/Points.antt =====
-- The points that a pipeline run leaves, found by their ids.
use code_intelegence.Base.{
  ℕ, String, ◌≡◌, refl, sym, ap, ◌∙◌, ◌⊎◌, inl, inr, false, Option, none, some, List, [], ◌∷◌, ◌++◌,
  ◌==◌, map, arith, eq_iff, eq_refl, length, contains, if◌then◌else◌,
}
use code_intelegence.Domain.Errors.{ok}
use code_intelegence.Workflow.Steps.{Point, World}
use code_intelegence.Workflow.Pipeline.{
  ChunkForEmbed, Storage, PipelineInput, texts_of, points_of, process_files, upsert_point,
  upsert_all,
}
use code_intelegence.Workflow.Pipeline.Complete.{rows_of, chunks_of, process_files-Stored}

-- The point that is stored under an id.
abbrev pub find_point : String → List Point → Option Point
find_point id [] = none
find_point id (p ∷ points) = if p.id == id then some p else find_point id points

find_point-upsert_point :
    (id : String) (p : Point) (stored : List Point)
    → find_point id (upsert_point p stored) ≡ (if p.id == id then some p else find_point id stored)
unfolding upsert_point
find_point-upsert_point id p [] = refl
find_point-upsert_point id p (q ∷ stored) =
    ground
      (arith, find_point-upsert_point id p stored, eq_iff q.id p.id, eq_iff q.id id, eq_iff p.id id)

abbrev pub chunk_ids : List ChunkForEmbed → List String
chunk_ids chunks = map (λ c. c.chunk_db_id) chunks

abbrev pub IsDistinct : List String → Type 0
IsDistinct [] = Unit
IsDistinct (x ∷ xs) = (contains x xs ≡ false) × IsDistinct xs

-- The chunk and the vector stand at the same place of the two lists.
abbrev pub Paired : List ChunkForEmbed → List (List ℕ) → ChunkForEmbed → List ℕ → Type 0
Paired (c ∷ chunks) (v ∷ vectors) chunk vector =
    (chunk ≡ c) × (vector ≡ v) ⊎ Paired chunks vectors chunk vector
Paired _ _ chunk vector = ⊥

module _ (storage : Storage) (input : PipelineInput) where
  texts_of-map :
      (chunks : List ChunkForEmbed) → texts_of storage input chunks ≡ map (λ c. c.content) chunks
  unfolding texts_of
  texts_of-map [] = refl
  texts_of-map (c ∷ chunks) = ap (λ texts. c.content ∷ texts) (texts_of-map chunks)

  abbrev point : ChunkForEmbed → List ℕ → Point
  point c v = record {
    id = c.chunk_db_id;
    vector = v;
    index_snapshot_id = input.snapshot_id;
    file_path = c.file_path;
  }

  -- An id of no chunk finds what it did.
  find_point-others :
      (id : String) (chunks : List ChunkForEmbed) (vectors : List (List ℕ)) (stored : List Point)
      → contains id (chunk_ids chunks) ≡ false
      → find_point id (upsert_all (points_of storage input chunks vectors) stored)
        ≡ find_point id stored
  unfolding upsert_all points_of
  find_point-others id [] vectors stored h = refl
  find_point-others id (c ∷ chunks) [] stored h = refl
  find_point-others id (c ∷ chunks) (v ∷ vectors) stored h =
      let other : (c.chunk_db_id == id) ≡ false = ground arith in
      find_point-others id chunks vectors (upsert_point (point c v) stored) (ground arith)
      ∙ find_point-upsert_point id (point c v) stored
      ∙ rw other refl

  first_found :
      (d : ChunkForEmbed) (chunks : List ChunkForEmbed) (u : List ℕ) (vectors : List (List ℕ))
      (stored : List Point)
      → contains d.chunk_db_id (chunk_ids chunks) ≡ false
      → find_point d.chunk_db_id
          (upsert_all (points_of storage input chunks vectors) (upsert_point (point d u) stored))
        ≡ some (point d u)
  first_found d chunks u vectors stored absent =
      find_point-others d.chunk_db_id chunks vectors (upsert_point (point d u) stored) absent
      ∙ find_point-upsert_point d.chunk_db_id (point d u) stored
      ∙ rw (eq_refl d.chunk_db_id) refl

  find_point-Paired :
      (chunks : List ChunkForEmbed) (vectors : List (List ℕ)) (stored : List Point)
      (c : ChunkForEmbed) (v : List ℕ)
      → IsDistinct (chunk_ids chunks)
      → Paired chunks vectors c v
      → find_point c.chunk_db_id (upsert_all (points_of storage input chunks vectors) stored)
        ≡ some (point c v)
  unfolding upsert_all points_of
  find_point-Paired [] vectors stored c v distinct paired = absurd paired
  find_point-Paired (d ∷ chunks) [] stored c v distinct paired = absurd paired
  find_point-Paired (d ∷ chunks) (u ∷ vectors) stored c v distinct (inr later) =
      find_point-Paired chunks vectors (upsert_point (point d u) stored) c v distinct.1 later
  find_point-Paired (d ∷ chunks) (u ∷ vectors) stored c v distinct (inl (same, equal)) =
      rw (same, equal) (first_found d chunks u vectors stored distinct.0)

  -- Suppose that the ids of the chunks that the writer returned are distinct. If the pipeline
  -- returns without an error, it has written a row for each parsed file, in their order; the
  -- embedder was asked for the texts of all chunks, unless there are none, and has given as many
  -- vectors; under the id of each chunk there is a point of the snapshot and the chunk's file with
  -- the vector that was given for the chunk; and every other id finds the point that it did.
  pub process_files_lem :
      (w : World) {after : World}
      → IsDistinct (chunk_ids (chunks_of storage input input.parsed_files))
      → process_files storage input w ≡ (ok tt, after)
      → let chunks = chunks_of storage input input.parsed_files in
        (after.files ≡ w.files ++ rows_of storage input input.parsed_files)
        × ((vectors : List (List ℕ)) × (length vectors ≡ length chunks)
            × ((chunks ≡ []) ⊎ (storage.embed (map (λ c. c.content) chunks) ≡ ok vectors))
            × ((c : ChunkForEmbed) (v : List ℕ)
                → Paired chunks vectors c v
                → find_point c.chunk_db_id after.points
                  ≡ some (record {
                    id = c.chunk_db_id;
                    vector = v;
                    index_snapshot_id = input.snapshot_id;
                    file_path = c.file_path;
                  }))
            × ((id : String)
                → contains id (chunk_ids chunks) ≡ false
                → find_point id after.points ≡ find_point id w.points))
  process_files_lem w {after} distinct h =
      let chunks = chunks_of storage input input.parsed_files in
      let (mid, points, files, (files', (vectors, sizes, asked, stored))) =
        process_files-Stored storage input w h in
      (
        files' ∙ files,
        (
          vectors,
          sizes,
          elim asked [
            | inl nothing ↦ inl nothing
            | inr answered ↦ inr (sym (ap storage.embed (texts_of-map chunks)) ∙ answered)
          ],
          λ c v paired.
              ap (find_point c.chunk_db_id) stored
              ∙ find_point-Paired chunks vectors mid.points c v distinct paired,
          λ id absent.
              ap (find_point id) stored
              ∙ find_point-others id chunks vectors mid.points absent
              ∙ ap (find_point id) points,
        ),
      )
