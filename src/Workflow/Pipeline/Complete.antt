-- ===== src/Workflow/Pipeline/Complete.antt =====
-- What a pipeline run that returns has stored.
use mathlib.Core.Path.{sym, subst, ◌∙◌}
use mathlib.Core.List.{append-nil, append_assoc}
use code_intelegence.Base.{
  ℕ, zero, suc, ◌≤◌, String, ◌≡◌, refl, ap, ◌⊎◌, inl, inr, Bool, true, false, not, Option, none,
  some, List, [], ◌∷◌, ◌++◌, arith, eqb, leb, length, take, drop, take-append-drop, length-drop_le,
  if◌then◌else◌, Bool-cases, Option-cases,
}
use code_intelegence.Domain.Errors.{GoError, wrap, Result, ok, err}
use code_intelegence.Workflow.Split.{ParsedFileResult}
use code_intelegence.Workflow.Steps.{FileRow, Point, World, pure, ◌>>=◌, ◌>>◌, fails_as, when}
use code_intelegence.Workflow.Steps.Laws.{Result-cases, bind-ok, then-ok, fails_as-ok}
use code_intelegence.Workflow.Pipeline.{
  ChunkForEmbed, Storage, PipelineInput, check, note_progress, write_file, write_files, then_write,
  due, texts_of, embed_chunks, points_of, upsert_batches, upsert_batch, store_chunks, process_files,
  vector_upsert_batch_size, upsert_point, upsert_all,
}

module _ (storage : Storage) (input : PipelineInput) where
  -- The rows of the files, and the chunks that the writer returned for them.
  unfoldable pub rows_of : List ParsedFileResult → List FileRow
  rows_of [] = []
  rows_of (p ∷ parsed) =
      record { index_snapshot_id = input.snapshot_id; file_path = p.file_path } ∷ rows_of parsed

  unfoldable pub chunks_of : List ParsedFileResult → List ChunkForEmbed
  chunks_of [] = []
  chunks_of (p ∷ parsed) = elim (storage.write_file p) [
    | ok chunks ↦ chunks ++ chunks_of parsed
    | err e ↦ chunks_of parsed
  ]

  note_progress-same :
      (refused : Option GoError) (id : String) (i n : ℕ) (w : World)
      → note_progress refused id i n w
        ≡ (ok tt, record w { jobs = (note_progress refused id i n w).1.jobs })
  unfolding note_progress
  note_progress-same refused id i n w = refl

  -- Writing one file that succeeds.
  write_file-ok :
      (p : ParsedFileResult) (w : World) {chunks : List ChunkForEmbed} {after : World}
      → write_file storage input p w ≡ (ok chunks, after)
      → (storage.write_file p ≡ ok chunks)
        × (after.files ≡ w.files ++ rows_of (p ∷ []))
        × (after.points ≡ w.points)
  unfolding write_file rows_of
  write_file-ok p w {chunks} {after} h = elim (Result-cases (storage.write_file p)) [
    | inl (made, e) ↦ ground arith
    | inr (why, e) ↦ absurd (ground arith)
  ]

  -- Keeping the job's progress touches neither the files nor the points.
  noted :
      (b : Bool) (refused : Option GoError) (id : String) (i n : ℕ) (w : World)
      → ((when b (note_progress refused id i n) w).0 ≡ ok tt)
        × ((when b (note_progress refused id i n) w).1.files ≡ w.files)
        × ((when b (note_progress refused id i n) w).1.points ≡ w.points)
  unfolding note_progress when
  noted true refused id i n w = (refl, refl, refl)
  noted false refused id i n w = (refl, refl, refl)

  result_eq :
      {a b : List ChunkForEmbed}
      → ◌≡◌ {A = Result GoError (List ChunkForEmbed)} (ok a) (ok b)
      → a ≡ b
  result_eq h = ground arith

  chunks_join :
      (p : ParsedFileResult) (parsed : List ParsedFileResult)
      {made more chunks : List ChunkForEmbed}
      → storage.write_file p ≡ ok made
      → more ≡ chunks_of parsed
      → made ++ more ≡ chunks
      → chunks ≡ chunks_of (p ∷ parsed)
  unfolding chunks_of
  chunks_join p parsed {made} done rest all = sym all ∙ rw (chunks_of, done, rest) refl

  rows_join :
      (a b c : List FileRow) (r : FileRow) (rs : List FileRow)
      → b ≡ a ++ (r ∷ [])
      → c ≡ b ++ rs
      → c ≡ a ++ (r ∷ rs)
  rows_join a b c r rs h k = k ∙ rw h (append_assoc a (r ∷ []) rs)

  write_files-ok :
      (i since : ℕ) (parsed : List ParsedFileResult) (w : World) {chunks : List ChunkForEmbed}
      {after : World}
      → write_files storage input i since parsed w ≡ (ok chunks, after)
      → (chunks ≡ chunks_of parsed)
        × (after.files ≡ w.files ++ rows_of parsed)
        × (after.points ≡ w.points)
  unfolding write_files chunks_of rows_of
  write_files-ok i since [] w {chunks} {after} h =
      (ground arith, rw append-nil (ground arith), ground arith)
  write_files-ok i since (p ∷ parsed) w {chunks} {after} h =
      let since' = if eqb (suc since) 500 then 0 else suc since in
      let later = write_files storage input (suc i) since' parsed in
      let (made, w1, wrote, h1) =
        bind-ok (fails_as (wrap "indexing: file") (write_file storage input p))
          (then_write storage input i since parsed later) w h in
      let (done, files, points) =
        write_file-ok p w
          (fails_as-ok (wrap "indexing: file") (write_file storage input p) w wrote) in
      let note =
        when (due storage input (suc since) parsed)
          (note_progress (storage.progress (suc i)) input.job_id (suc i) 0) in
      let (u, w2, progress, h2) = then-ok note (later >>= λ more. pure (made ++ more)) w1 h1 in
      let (more, w3, rest, h3) = bind-ok later (λ more. pure (made ++ more)) w2 h2 in
      let (chunks', files', points') = write_files-ok (suc i) since' parsed w2 rest in
      let (_, files'', points'') =
        noted (due storage input (suc since) parsed) (storage.progress (suc i)) input.job_id (suc i)
          0 w1 in
      let same2 = ap (λ r. r.1) progress in
      let same3 = ap (λ r. r.1) h3 in
      (
        chunks_join p parsed done chunks' (result_eq (ap (λ r. r.0) h3)),
        ap (λ x. x.files) (sym same3)
            ∙ rows_join _ _ _ _ _ files (
                files'
                ∙ ap (λ x. x.files ++ rows_of parsed) (sym same2)
                ∙ ap (λ x. x ++ rows_of parsed) files''),
        ap (λ x. x.points) (sym same3)
            ∙ points'
            ∙ ap (λ x. x.points) (sym same2)
            ∙ points''
            ∙ points,
      )

  embed_chunks-ok :
      (chunks : List ChunkForEmbed) (w : World) {vectors : List (List ℕ)} {after : World}
      → embed_chunks storage input chunks w ≡ (ok vectors, after)
      → (storage.embed (texts_of storage input chunks) ≡ ok vectors)
        × (length vectors ≡ length (texts_of storage input chunks))
        × (after ≡ w)
  unfolding embed_chunks
  embed_chunks-ok chunks w {vectors} {after} h =
      elim (Result-cases (storage.embed (texts_of storage input chunks))) [
        | inl (made, e) ↦
            elim (Bool-cases (eqb (length made) (length (texts_of storage input chunks)))) [
              | inl same ↦ ground arith
              | inr differ ↦ absurd (ground arith)
            ]
        | inr (why, e) ↦ absurd (ground arith)
      ]

  drop_shorter :
      (p : Point) (points : List Point)
      → length (drop vector_upsert_batch_size (p ∷ points)) ≤ length points
  unfolding drop
  drop_shorter p points = length-drop_le 99 points

  upsert_batch-ok :
      (batch : List Point) (w : World) {u : Unit {0}} {after : World}
      → upsert_batch storage input batch w ≡ (ok u, after)
      → (after.files ≡ w.files) × (after.points ≡ upsert_all batch w.points)
  unfolding upsert_batch
  upsert_batch-ok batch w {after} h = elim (Option-cases (storage.upsert_points batch)) [
    | inl e ↦ ground arith
    | inr (why, e) ↦ absurd (ground arith)
  ]

  upsert_all-append :
      (xs ys stored : List Point)
      → upsert_all (xs ++ ys) stored ≡ upsert_all ys (upsert_all xs stored)
  unfolding upsert_all
  upsert_all-append [] ys stored = refl
  upsert_all-append (x ∷ xs) ys stored = upsert_all-append xs ys (upsert_point x stored)

  upsert_batches-ok :
      (rounds : ℕ) (points : List Point) (w : World) {after : World}
      → length points ≤ rounds
      → upsert_batches storage input rounds points w ≡ (ok tt, after)
      → (after.files ≡ w.files) × (after.points ≡ upsert_all points w.points)
  unfolding upsert_batches upsert_all when
  upsert_batches-ok zero [] w {after} few h = (ground arith, ground arith)
  upsert_batches-ok zero (p ∷ points) w few h = absurd (omega arith)
  upsert_batches-ok (suc rounds) [] w {after} few h = (ground arith, ground arith)
  upsert_batches-ok (suc rounds) (p ∷ points) w {after} few h =
      let all = p ∷ points in
      let batch = take vector_upsert_batch_size all in
      let left = drop vector_upsert_batch_size all in
      let some_left : leb (length all) 0 ≡ false = ground arith in
      let send =
        fails_as (wrap "indexing: upsert vectors batch") (upsert_batch storage input batch) in
      let rest = upsert_batches storage input rounds left in
      let (u, w1, sent, next) = then-ok send rest w (rw some_left at h) in
      let (files, points') = upsert_batch-ok batch w (
        fails_as-ok (wrap "indexing: upsert vectors batch") (upsert_batch storage input batch) w
          sent) in
      let (files', points'') =
        upsert_batches-ok rounds left w1 (omega (arith, few, drop_shorter p points)) next in
      (
        files' ∙ files,
        points''
            ∙ ap (λ x. upsert_all left x) points'
            ∙ sym (upsert_all-append batch left w.points)
            ∙ ap (λ x. upsert_all x w.points) (take-append-drop vector_upsert_batch_size all),
      )

  length-points_of_le :
      (chunks : List ChunkForEmbed) (vectors : List (List ℕ))
      → length (points_of storage input chunks vectors) ≤ length chunks
  unfolding points_of
  length-points_of_le [] vectors = omega arith
  length-points_of_le (c ∷ chunks) [] = omega arith
  length-points_of_le (c ∷ chunks) (v ∷ vectors) = omega (arith, length-points_of_le chunks vectors)

  length-texts_of :
      (chunks : List ChunkForEmbed) → length (texts_of storage input chunks) ≡ length chunks
  unfolding texts_of
  length-texts_of [] = refl
  length-texts_of (c ∷ chunks) = omega (arith, length-texts_of chunks)

  -- The vectors that the embedder answers for the chunks, and the points made of the two.
  abbrev pub Stored : List ChunkForEmbed → World → World → Type 0
  Stored chunks w after =
      (after.files ≡ w.files)
      × ((vectors : List (List ℕ)) × (length vectors ≡ length chunks)
          × ((chunks ≡ []) ⊎ (storage.embed (texts_of storage input chunks) ≡ ok vectors))
          × (after.points ≡ upsert_all (points_of storage input chunks vectors) w.points))

  store_chunks-ok :
      (chunks : List ChunkForEmbed) (w : World) {after : World}
      → store_chunks storage input chunks w ≡ (ok tt, after)
      → Stored chunks w after
  unfolding note_progress
  store_chunks-ok chunks w {after} h =
      let note =
        note_progress (storage.progress (length input.parsed_files)) input.job_id
          (length input.parsed_files) (length chunks) in
      let (vectors, w1, embedded, h1) =
        bind-ok (embed_chunks storage input chunks)
          (λ vs.
            upsert_batches storage input (length chunks) (points_of storage input chunks vs)
            >> note)
          w h in
      let (answered, sizes, same) = embed_chunks-ok chunks w embedded in
      let points = points_of storage input chunks vectors in
      let (u, w2, sent, h2) =
        then-ok (upsert_batches storage input (length chunks) points) note w1 h1 in
      let (files, stored) =
        upsert_batches-ok (length chunks) points w1 (length-points_of_le chunks vectors) sent in
      let last = ap (λ r. r.1) h2 in
      let kept : (after.files ≡ w2.files) × (after.points ≡ w2.points) =
        (sym (ap (λ x. x.files) last), sym (ap (λ x. x.points) last)) in
      (
        kept.0 ∙ files ∙ ap (λ x. x.files) same,
        (
          vectors,
          omega (arith, sizes, length-texts_of chunks),
          inr answered,
          kept.1 ∙ stored ∙ ap (λ x. upsert_all points x.points) same,
        ),
      )

  check-ok :
      (refused : Option GoError) (w : World) {u : Unit {0}} {after : World}
      → check refused w ≡ (ok u, after)
      → after ≡ w
  check-ok none w h = ground arith
  check-ok (some e) w h = absurd (ground arith)

  tail-ok :
      (chunks : List ChunkForEmbed) (w : World) {after : World}
      → when (not (leb (length chunks) 0)) (store_chunks storage input chunks) w ≡ (ok tt, after)
      → Stored chunks w after
  unfolding points_of upsert_all when
  tail-ok [] w {after} h =
      let same : w ≡ after = ap (λ r. r.1) h in
      (sym (ap (λ x. x.files) same), ([], refl, inl refl, sym (ap (λ x. x.points) same)))
  tail-ok (c ∷ chunks) w {after} h =
      let some_left : leb (length (c ∷ chunks)) 0 ≡ false = ground arith in
      store_chunks-ok (c ∷ chunks) w (rw some_left at h)

  -- What a run that returns without an error has written.
  pub process_files-Stored :
      (w : World) {after : World}
      → process_files storage input w ≡ (ok tt, after)
      → (mid : World) × (mid.points ≡ w.points)
        × (mid.files ≡ w.files ++ rows_of input.parsed_files)
        × Stored (chunks_of input.parsed_files) mid after
  unfolding process_files
  process_files-Stored w {after} h =
      let ensure =
        fails_as (wrap "indexing: ensure collection") (check storage.ensure_collection) in
      let tail = λ (chunks : List ChunkForEmbed).
        when (not (leb (length chunks) 0)) (store_chunks storage input chunks) in
      let write = write_files storage input 0 0 input.parsed_files in
      let (u, w1, ensured, h1) = then-ok ensure (write >>= tail) w h in
      let same = check-ok storage.ensure_collection w (
        fails_as-ok (wrap "indexing: ensure collection") (check storage.ensure_collection) w
          ensured) in
      let (chunks, w2, wrote, h2) = bind-ok write tail w1 h1 in
      let (all, files, points) = write_files-ok 0 0 input.parsed_files w1 wrote in
      (
        w2,
        points ∙ ap (λ x. x.points) same,
        files ∙ ap (λ x. x.files ++ rows_of input.parsed_files) same,
        subst (λ cs. Stored cs w2 after) all (tail-ok chunks w2 h2),
      )
