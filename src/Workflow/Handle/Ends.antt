-- ===== src/Workflow/Handle/Ends.antt =====
-- The loops of a run come to an end.
use mathlib.Core.Path.{sym, ◌∙◌}
use code_intelegence.Base.{
  ℕ, ◌≤◌, String, ◌≡◌, ap, arith, Option, none, some, List, [], ◌∷◌, ◌++◌, All, length,
}
use code_intelegence.Domain.Errors.{GoError, Result, ok, err}
use code_intelegence.Parser.Batch.{FileInput}
use code_intelegence.Workflow.Bytes.{Bytes}
use code_intelegence.Workflow.Files.{raw_files, read_source_files}
use code_intelegence.Workflow.Files.Divided.{build_raw_file_results-paths, read_from-Readable}
use code_intelegence.Workflow.Scope.{DiffEntry}
use code_intelegence.Workflow.Split.{Chunk, ParsedFileResult, default_max_input_chars}
use code_intelegence.Workflow.Split.Rejoin.{Fits, Splittable, split_oversized_chunks-AllSplit}
use code_intelegence.Workflow.Steps.{World}
use code_intelegence.Workflow.Steps.Laws.{
  Avoids, bind-Avoids, then-Avoids, when-Avoids, fails_as-Avoids, fails_as-ok,
}
use code_intelegence.Workflow.Pipeline.{process_files, activate, run}
use code_intelegence.Workflow.Run.{
  ExecContext, Workspace, Failure, failed, hangs, Calls, answer, ended, prepare_snapshot,
  parse_sources, parse_changed, full_pipeline, incremental_pipeline, copy_forward, note_totals,
  pipeline_input,
}

pub failed-hangs : (category step : String) (e : GoError) → failed category e step ≡ hangs → ⊥
failed-hangs category step e h = absurd (ground arith)

ok-no_err : {A : Type 0} (a : A) (e : Failure) → ◌≡◌ {A = Result Failure A} (ok a) (err e) → ⊥
ok-no_err a e h = absurd (ground arith)

answer-ok :
    {A : Type 0} (r : Result GoError A) (w : World) {a : A} {after : World}
    → answer r w ≡ (ok a, after)
    → r ≡ ok a
unfolding answer
answer-ok r w h = ap (λ x. x.0) h

ended-ok :
    {A : Type 0} (o : Option A) (w : World) {a : A} {after : World}
    → ended o w ≡ (ok a, after)
    → o ≡ some a
unfolding ended
ended-ok none w h = absurd (ground arith)
ended-ok (some b) w h = ground arith

ended-Avoids : {A : Type 0} (o : Option A) (a : A) → o ≡ some a → Avoids hangs (ended o)
unfolding ended
ended-Avoids none a e w h = absurd (ground arith)
ended-Avoids (some b) a e w h = ok-no_err b hangs h

some_eq : {A : Type 0} {a b : A} → some a ≡ some b → a ≡ b
some_eq h = ground arith

All-append : {A : Type 0} (P : A → Type 0) (xs ys : List A) → All P xs → All P ys → All P (xs ++ ys)
All-append P [] ys h k = k
All-append P (x ∷ xs) ys (p, h) k = (p, All-append P xs ys h k)

module _ (calls : Calls) (fuel : ℕ) (job_id : String) (room : default_max_input_chars ≤ fuel)
    (bounded : (f : String) (s : Bytes) → calls.read_file f ≡ ok s → length s ≤ fuel)
    (splittable : (inputs : List FileInput) (results : List ParsedFileResult)
      → calls.parse_files inputs ≡ ok results
      → All (λ r. All (Splittable calls.library.sum256 fuel) r.chunks) results) where
  Fits-Splittable :
      (chunks : List Chunk)
      → All (Fits default_max_input_chars) chunks
      → All (Splittable calls.library.sum256 fuel) chunks
  Fits-Splittable [] h = tt
  Fits-Splittable (c ∷ chunks) (f, h) = ((omega (arith, room, f.1), f.2), Fits-Splittable chunks h)

  Fits-Splittable_each :
      (results : List ParsedFileResult)
      → All (λ r. All (Fits default_max_input_chars) r.chunks) results
      → All (λ r. All (Splittable calls.library.sum256 fuel) r.chunks) results
  Fits-Splittable_each [] h = tt
  Fits-Splittable_each (r ∷ results) (f, h) =
      (Fits-Splittable r.chunks f, Fits-Splittable_each results h)

  parse_sources-Avoids :
      (a b : String) (files : List String)
      → Avoids hangs (parse_sources calls fuel job_id a b files)
  unfolding parse_sources read_source_files
  parse_sources-Avoids a b files =
      bind-Avoids hangs _ _ (fails_as-Avoids hangs _ _ (failed-hangs _ _)) λ contents w w1 read.
        bind-Avoids hangs _ _ (fails_as-Avoids hangs _ _ (failed-hangs _ _))
          (λ parsed w' w2 made.
            let readable =
              read_from-Readable calls.read_file fuel bounded files [] tt
                (answer-ok _ _ (fails_as-ok _ _ w read)) in
            let good = splittable _ parsed (answer-ok _ _ (fails_as-ok _ _ w' made)) in
            let (raw, built, paths, fits) =
              build_raw_file_results-paths calls.library fuel (raw_files calls.library files)
                contents readable in
            let all = All-append _ parsed raw good (Fits-Splittable_each raw fits) in
            let (out, done, rest) =
              split_oversized_chunks-AllSplit calls.library.sum256 fuel default_max_input_chars
                (parsed ++ raw) (omega arith) all in
            bind-Avoids hangs _ _ (ended-Avoids _ raw built)
              (λ raw' w3 w4 got.
                let same : raw' ≡ raw = some_eq (sym (ended-ok _ w3 got) ∙ built) in
                rw same (ended-Avoids _ out done w4))
              w2)
          w1

  parse_changed-Avoids :
      (files : List String) → Avoids hangs (parse_changed calls fuel job_id files)
  parse_changed-Avoids [] w h = ok-no_err _ hangs h
  parse_changed-Avoids (f ∷ files) w h = parse_sources-Avoids _ _ (f ∷ files) w h

  prepare_snapshot-Avoids :
      (ctx : ExecContext) (version commit_sha : String)
      → Avoids hangs (prepare_snapshot calls fuel job_id ctx version commit_sha)
  unfolding prepare_snapshot
  prepare_snapshot-Avoids ctx version commit_sha =
      bind-Avoids hangs _ _ (fails_as-Avoids hangs _ _ (failed-hangs _ _)) λ k w w1 made.
        then-Avoids hangs _ _ (fails_as-Avoids hangs _ _ (failed-hangs _ _))
          (λ w' h. ok-no_err k hangs h) w1

  -- A full run does not hang, if the files that are read are no longer than the fuel, the parser
  -- gives chunks that are valid UTF-8 and no longer than that, and the fuel is at least 7500.
  pub full_pipeline-Avoids :
      (ctx : ExecContext) (version : String) (ws : Workspace)
      → Avoids hangs (full_pipeline calls fuel job_id ctx version ws)
  unfolding full_pipeline
  full_pipeline-Avoids ctx version ws =
      bind-Avoids hangs _ _ (parse_sources-Avoids _ _ _) λ parsed w w1 made.
        bind-Avoids hangs _ _ (prepare_snapshot-Avoids _ _ _)
          (λ k w' w2 created.
            fails_as-Avoids hangs _
              (run calls.storage (pipeline_input calls fuel job_id ctx k parsed))
              (λ e. failed-hangs _ _ e) w2)
          w1

  copy_forward-Avoids :
      (k : String) (parsed : List ParsedFileResult) (paths : List String)
      → Avoids hangs (copy_forward calls fuel job_id k parsed paths)
  unfolding copy_forward note_totals
  copy_forward-Avoids k parsed paths =
      then-Avoids hangs _ _ (fails_as-Avoids hangs _ _ (failed-hangs _ _)) (
        then-Avoids hangs _ _ (when-Avoids hangs _ _ (fails_as-Avoids hangs _ _ (failed-hangs _ _)))
          (λ w h. ok-no_err tt hangs h))

  pub incremental_pipeline-Avoids :
      (ctx : ExecContext) (version : String) (ws : Workspace) (base_id : String)
      (diff : List DiffEntry)
      → Avoids hangs (incremental_pipeline calls fuel job_id ctx version ws base_id diff)
  unfolding incremental_pipeline
  incremental_pipeline-Avoids ctx version ws base_id diff =
      bind-Avoids hangs _ _ (fails_as-Avoids hangs _ _ (failed-hangs _ _)) λ old_files w w1 listed.
        bind-Avoids hangs _ _ (parse_changed-Avoids _)
          (λ parsed w' w2 made.
            bind-Avoids hangs _ _ (prepare_snapshot-Avoids _ _ _)
              (λ k w'' w3 created.
                let input = pipeline_input calls fuel job_id ctx k parsed in
                then-Avoids hangs _ _
                  (when-Avoids hangs _ _ (
                    fails_as-Avoids hangs _ (process_files calls.storage input)
                      (λ e. failed-hangs _ _ e)))
                  (then-Avoids hangs _ _ (when-Avoids hangs _ _ (copy_forward-Avoids _ _ _))
                    (fails_as-Avoids hangs _ (activate calls.storage input) (failed-hangs _ _)))
                  w3)
              w2)
          w1
