-- ===== src/Examples/Runs.antt =====
-- Texts that are split, and runs of the two workflows over a small repository.
use mathlib.Core.Path.{subst}
use code_intelegence.Base.{
  ◌⊎◌, ℕ, zero, suc, length-append, ◌+◌, ◌≤◌, ◌<◌, String, ◌≡◌, refl, Bool, Bool-cases, eq_of_==,
  inl, inr, true, false, not, ◌&&◌, ◌||◌, Option, none, some, List, [], ◌∷◌, ◌++◌, map, arith, All,
  length, contains, lookup, insert, take, ◌==◌, if◌then◌else◌,
}
use code_intelegence.Domain.Errors.{GoError, other, wrap, Result, ok, err}
use code_intelegence.Jobs.Table.{IndexingJob, Jobs, queued, completed, failed}
use code_intelegence.Jobs.Lifecycle.{status_of}
use code_intelegence.Parser.Batch.{FileInput}
use code_intelegence.Postgres.Tx.{healthy}
use code_intelegence.Workflow.Bytes.{Bytes, valid}
use code_intelegence.Workflow.Split.{
  Chunk, ParsedFileResult, default_max_input_chars, raw_chunk, split_raw_chunks,
  split_chunk_content, split_oversized_chunks, line_count,
}
use code_intelegence.Workflow.Split.Rejoin.{
  Splits, AllSplit, Splittable, split_raw_chunks-Splits, split_oversized_chunks-AllSplit,
}
use code_intelegence.Workflow.Split.Lines.{short_lines, split_raw_chunks-split_chunk_content}
use code_intelegence.Workflow.Split.Numbers.{IsNumbered, split_raw_chunks-IsNumbered}
use code_intelegence.Workflow.Scope.{DiffEntry, changed_files, unchanged_paths}
use code_intelegence.Workflow.Scope.Exact.{statuses, expected, IsDiff, Lists, incremental_scope}
use code_intelegence.Workflow.Files.{
  Contents, Library, read_source_files, raw_files, parseable_files, build_file_inputs,
  build_raw_file_results, has_parser_support,
}
use code_intelegence.Workflow.Files.Divided.{input_paths, result_paths, files_divided}
use code_intelegence.Workflow.Steps.{FileRow, Point, World}
use code_intelegence.Workflow.Pipeline.{ChunkForEmbed, Storage, PipelineInput, process_files}
use code_intelegence.Workflow.Pipeline.Complete.{rows_of, chunks_of}
use code_intelegence.Workflow.Pipeline.Points.{
  find_point, chunk_ids, IsDistinct, Paired, process_files_lem,
}
use code_intelegence.Workflow.Run.{Calls, full_pipeline}
use code_intelegence.Workflow.Handle.{handle, incremental_or_full}
use code_intelegence.Workflow.Handle.Settled.{Settled}
use code_intelegence.Workflow.Handle.Retry.{handle-err}
use code_intelegence.Workflow.Handle.Finishes.{handle_finishes}

sum256 : Bytes → String
sum256 s = "hash"

-- "é\nb"
abbrev sample : Bytes
sample = 195 ∷ 169 ∷ 10 ∷ 98 ∷ []

valid_text : valid sample ≡ true
unfolding valid
valid_text = refl

short_text : short_lines 7498 7498 sample ≡ true
unfolding short_lines
short_text = refl

split_raw_chunks-Splits_example :
    Splits default_max_input_chars sample (split_raw_chunks sum256 10 sample 2)
split_raw_chunks-Splits_example =
    split_raw_chunks-Splits sum256 10 2 sample (omega arith) (omega arith) valid_text

split_raw_chunks-IsNumbered_example :
    IsNumbered 1 sample (split_raw_chunks sum256 10 sample (line_count sample))
split_raw_chunks-IsNumbered_example =
    split_raw_chunks-IsNumbered sum256 10 sample (omega arith) (omega arith) short_text

-- A file with one chunk of four bytes, and one of more than the limit of 4.
abbrev chunk : Bytes → Chunk
chunk content = record {
  chunk_type = "function";
  chunk_hash = "";
  content = content;
  start_line = 3;
  end_line = 4;
  symbol_id = "s";
  owner_qualified_name = "";
  owner_kind = "";
  is_exported_context = true;
  semantic_role = "implementation";
}

abbrev parsed : ParsedFileResult
parsed = record {
  file_path = "a.go";
  language = "go";
  file_hash = "";
  size_bytes = 9;
  line_count = 3;
  chunks = chunk sample ∷ chunk (97 ∷ sample) ∷ [];
}

valid_longer : valid (97 ∷ sample) ≡ true
unfolding valid
valid_longer = refl

split_oversized_chunks-AllSplit_example :
    (out : List ParsedFileResult) × (split_oversized_chunks sum256 10 4 (parsed ∷ []) ≡ some out)
    × AllSplit sum256 4 (parsed ∷ []) out
split_oversized_chunks-AllSplit_example =
    split_oversized_chunks-AllSplit sum256 10 4 (parsed ∷ []) (omega arith)
      ((((omega arith, valid_text), ((omega arith, valid_longer), tt)), tt))

-- A sample of 8192 bytes, doubled thirteen times from one byte.
letters : ℕ → Bytes
letters zero = 97 ∷ []
letters (suc n) = letters n ++ letters n

doubled : (n k : ℕ) → k ≤ length (letters n) → k + k ≤ length (letters (suc n))
unfolding letters
doubled n k h = omega (arith, length-append (letters n) (letters n))

one : 1 ≤ length (letters 0)
unfolding letters
one = omega arith

length-letters : default_max_input_chars < length (letters 13)
length-letters = omega (
  arith,
  doubled 12 4096 (
      doubled 11 2048 (
        doubled 10 1024 (
          doubled 9 512 (
            doubled 8 256 (
              doubled 7 128 (
                doubled 6 64 (
                  doubled 5 32 (
                    doubled 4 16
                      (doubled 3 8 (doubled 2 4 (doubled 1 2 (doubled 0 1 one)))))))))))),
)

split_raw_chunks-split_chunk_content_example :
    split_raw_chunks sum256 9000 (letters 13) 1
    ≡ split_chunk_content sum256 9000 (raw_chunk sum256 "" (letters 13) 1 1) default_max_input_chars
split_raw_chunks-split_chunk_content_example =
    split_raw_chunks-split_chunk_content sum256 9000 1 (letters 13) length-letters

-- Two commits: a.go is as it was, b.md changes, c.go goes and d.txt comes.
old_tree : String → Option String
old_tree p =
    if "a.go" == p
    then some "1"
    else if "b.md" == p
    then some "2"
    else if "c.go" == p
    then some "3"
    else none

new_tree : String → Option String
new_tree p =
    if "a.go" == p
    then some "1"
    else if "b.md" == p
    then some "4"
    else if "d.txt" == p
    then some "5"
    else none

is_source : String → Option String → Bool
is_source p none = false
is_source p (some blob) = true

abbrev diff : List DiffEntry
diff =
    record { status = "M"; path = "b.md" }
    ∷ record { status = "D"; path = "c.go" }
    ∷ record { status = "A"; path = "d.txt" }
    ∷ []

diff-IsDiff : IsDiff old_tree new_tree diff
unfolding old_tree new_tree statuses
diff-IsDiff p = elim (Bool-cases ("a.go" == p)) [
  | inl e ↦
      subst (λ q. statuses q diff ≡ expected (old_tree q) (new_tree q)) (eq_of_== "a.go" p e) refl
  | inr n0 ↦ elim (Bool-cases ("b.md" == p)) [
    | inl e ↦
        subst (λ q. statuses q diff ≡ expected (old_tree q) (new_tree q)) (eq_of_== "b.md" p e) refl
    | inr n1 ↦ elim (Bool-cases ("c.go" == p)) [
      | inl e ↦
          subst (λ q. statuses q diff ≡ expected (old_tree q) (new_tree q)) (eq_of_== "c.go" p e)
            refl
      | inr n2 ↦ elim (Bool-cases ("d.txt" == p)) [
        | inl e ↦
            subst (λ q. statuses q diff ≡ expected (old_tree q) (new_tree q)) (eq_of_== "d.txt" p e)
              refl
        | inr n3 ↦ rw (n0, n1, n2, n3) refl
      ]
    ]
  ]
]

abbrev old_files : List String
old_files = "a.go" ∷ "b.md" ∷ "c.go" ∷ []

abbrev source_files : List String
source_files = "a.go" ∷ "b.md" ∷ "d.txt" ∷ []

old_files-Lists : Lists is_source old_tree old_files
unfolding old_tree is_source
old_files-Lists p = elim (Bool-cases ("a.go" == p)) [
  | inl e ↦ subst (λ q. contains q old_files ≡ is_source q (old_tree q)) (eq_of_== "a.go" p e) refl
  | inr n0 ↦ elim (Bool-cases ("b.md" == p)) [
    | inl e ↦
        subst (λ q. contains q old_files ≡ is_source q (old_tree q)) (eq_of_== "b.md" p e) refl
    | inr n1 ↦ elim (Bool-cases ("c.go" == p)) [
      | inl e ↦
          subst (λ q. contains q old_files ≡ is_source q (old_tree q)) (eq_of_== "c.go" p e) refl
      | inr n2 ↦ rw (n0, n1, n2) refl
    ]
  ]
]

source_files-Lists : Lists is_source new_tree source_files
unfolding new_tree is_source
source_files-Lists p = elim (Bool-cases ("a.go" == p)) [
  | inl e ↦
      subst (λ q. contains q source_files ≡ is_source q (new_tree q)) (eq_of_== "a.go" p e) refl
  | inr n0 ↦ elim (Bool-cases ("b.md" == p)) [
    | inl e ↦
        subst (λ q. contains q source_files ≡ is_source q (new_tree q)) (eq_of_== "b.md" p e) refl
    | inr n1 ↦ elim (Bool-cases ("d.txt" == p)) [
      | inl e ↦
          subst (λ q. contains q source_files ≡ is_source q (new_tree q)) (eq_of_== "d.txt" p e)
            refl
      | inr n2 ↦ rw (n0, n1, n2) refl
    ]
  ]
]

nothing_absent : (p : String) → is_source p none ≡ false
unfolding is_source
nothing_absent p = refl

incremental_scope_example :
    ((contains "a.go" (changed_files diff source_files)
        || contains "a.go" (unchanged_paths diff old_files))
      ≡ contains "a.go" source_files)
    × ((contains "a.go" (changed_files diff source_files)
          && contains "a.go" (unchanged_paths diff old_files))
        ≡ false)
    × (contains "a.go" (unchanged_paths diff old_files) ≡ true → old_tree "a.go" ≡ new_tree "a.go")
incremental_scope_example =
    incremental_scope is_source nothing_absent old_tree new_tree diff old_files source_files
      diff-IsDiff old_files-Lists source_files-Lists "a.go"

-- Every file has the same four bytes; "a.go" alone counts as Go.
abbrev library : Library
library = record {
  to_lower = λ s. s;
  base = λ s. s;
  ext = λ s. if s == "a.go" then ".go" else ".txt";
  trim_dot = λ s. s;
  sum256 = sum256;
  text_of = λ s. "";
}

read_file : String → Result GoError Bytes
read_file f = ok sample

bounded : (f : String) (s : Bytes) → read_file f ≡ ok s → length s ≤ 8000
unfolding read_file
bounded f s h =
    let same : sample ≡ s = ground arith in subst (λ t. length t ≤ 8000) same (omega arith)

abbrev contents : Contents
contents = ("a.go", sample) ∷ ("d.txt", sample) ∷ []

read : read_source_files read_file ("a.go" ∷ "d.txt" ∷ []) ≡ ok contents
unfolding read_file read_source_files insert
read = refl

files_divided_example :
    (results : List ParsedFileResult) × (build_raw_file_results library 8000
        (raw_files library ("a.go" ∷ "d.txt" ∷ []))
        contents
      ≡ some results)
    × ((p : String)
        → (contains p (
              input_paths (
                build_file_inputs library
                  (parseable_files library ("a.go" ∷ "d.txt" ∷ []))
                  contents))
            ≡ (contains p ("a.go" ∷ "d.txt" ∷ []) && has_parser_support library (library.ext p)))
          × (contains p (result_paths results) ≡ (
              contains p ("a.go" ∷ "d.txt" ∷ [])
              && not (has_parser_support library (library.ext p)))))
files_divided_example =
    files_divided read_file 8000 bounded library ("a.go" ∷ "d.txt" ∷ []) contents read

-- The writer gives one chunk for each file, and the embedder a vector for each sample.
embed_texts : List Bytes → Result GoError (List (List ℕ))
embed_texts texts = ok (map (λ t. 1 ∷ []) texts)

abbrev storage : Storage
storage = record {
  ensure_collection = none;
  write_file = λ p.
      ok (record { chunk_db_id = p.file_path; content = sample; file_path = p.file_path } ∷ []);
  progress = λ i. none;
  embed = embed_texts;
  upsert_points = λ points. none;
  server = healthy;
}

abbrev job : IndexingJob
job = record {
  project_id = "p";
  index_snapshot_id = none;
  job_type = "incremental-index";
  status = queued;
  files_processed = 0;
  chunks_upserted = 0;
  vectors_deleted = 0;
  error_details = "[]";
  worker_id = none;
  started_at = none;
  finished_at = none;
}

abbrev world : World
world = record { jobs = ("j", job) ∷ []; snapshots = []; files = []; points = [] }

abbrev input : PipelineInput
input = record {
  project_id = "p";
  snapshot_id = "s";
  job_id = "j";
  branch = "main";
  parsed_files = parsed ∷ [];
}

abbrev after : World
after = record {
  jobs = ("j", record job { files_processed = 1; chunks_upserted = 1 }) ∷ [];
  snapshots = [];
  files = record { index_snapshot_id = "s"; file_path = "a.go" } ∷ [];
  points =
      record { id = "a.go"; vector = 1 ∷ []; index_snapshot_id = "s"; file_path = "a.go" } ∷ [];
}

abbrev embedded_chunk : ChunkForEmbed
embedded_chunk = record { chunk_db_id = "a.go"; content = sample; file_path = "a.go" }

stored : process_files storage input world ≡ (ok tt, after)
unfolding process_files embed_texts code_intelegence.Workflow.Steps.◌>>◌
    code_intelegence.Workflow.Steps.fails_as code_intelegence.Workflow.Steps.◌>>=◌
    code_intelegence.Workflow.Steps.when code_intelegence.Jobs.Table.set_indexing_job_progress take
    code_intelegence.Jobs.Table.update_any lookup insert
stored = refl

written : chunks_of storage input (parsed ∷ []) ≡ embedded_chunk ∷ []
unfolding chunks_of
written = refl

written-IsDistinct : IsDistinct (chunk_ids (chunks_of storage input (parsed ∷ [])))
written-IsDistinct = rw written (refl, tt)

process_files_lem_example :
    let chunks = chunks_of storage input (parsed ∷ []) in
    (after.files ≡ [] ++ rows_of storage input (parsed ∷ []))
    × ((vectors : List (List ℕ)) × (length vectors ≡ length chunks)
        × ((chunks ≡ []) ⊎ (embed_texts (map (λ c. c.content) chunks) ≡ ok vectors))
        × ((c : ChunkForEmbed) (v : List ℕ)
            → Paired chunks vectors c v
            → find_point c.chunk_db_id after.points
              ≡ some (record {
                id = c.chunk_db_id;
                vector = v;
                index_snapshot_id = "s";
                file_path = c.file_path;
              }))
        × ((id : String)
            → contains id (chunk_ids chunks) ≡ false
            → find_point id after.points ≡ find_point id world.points))
process_files_lem_example = process_files_lem storage input world written-IsDistinct stored

parse_files : List FileInput → Result GoError (List ParsedFileResult)
parse_files inputs = ok []

abbrev calls : Calls
calls = record {
  load_execution_context = ok (record { project_id = "p"; branch = "main" });
  project_lock = none;
  claim_refused = none;
  now = 5;
  resolve_version = ok "v";
  prepare = ok (record { commit_sha = "c"; source_files = "a.go" ∷ "d.txt" ∷ [] });
  active_refused = none;
  git_diff = λ base target. ok ("" ∷ []);
  list_files_refused = none;
  read_file = read_file;
  parse_files = parse_files;
  create_refused = none;
  fresh_snapshot = "s";
  delete_refused = none;
  storage = storage;
  copy_file = λ path. none;
  copy_vectors = none;
  chunks_copied = 0;
  progress_refused = none;
  complete_refused = none;
  fail_refused = none;
  library = library;
  message = λ e. "";
  marshal = λ category e step. category;
}

splittable :
    (inputs : List FileInput) (results : List ParsedFileResult)
    → parse_files inputs ≡ ok results
    → All (λ r. All (Splittable sum256 8000) r.chunks) results
unfolding parse_files
splittable inputs results h =
    let same : [] ≡ results = ground arith in
    subst (All (λ r. All (Splittable sum256 8000) r.chunks)) same tt

is_queued : status_of "j" world.jobs ≡ some queued
unfolding lookup
is_queued = refl

handle_finishes_example :
    Settled "j" (handle calls 8000 "j" (full_pipeline calls 8000 "j") "w" world)
    × Settled "j" (handle calls 8000 "j" (incremental_or_full calls 8000 "j") "w" world)
handle_finishes_example =
    handle_finishes calls 8000 "j" (omega arith) bounded splittable refl refl refl refl
      (record { project_id = "p"; branch = "main" }) refl "w" world is_queued

-- Another worker holds the project.
abbrev busy : Calls
busy = record calls { project_lock = some (other "busy") }

refused :
    (handle busy 8000 "j" (full_pipeline busy 8000 "j") "w" world).0
    ≡ some (err (wrap "project lock" (other "busy")))
unfolding handle
refused = refl

handle-err_example : (handle busy 8000 "j" (full_pipeline busy 8000 "j") "w" world).1 ≡ world
handle-err_example = handle-err busy 8000 "j" (full_pipeline busy 8000 "j") "w" world refused
