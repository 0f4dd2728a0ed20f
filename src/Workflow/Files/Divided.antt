-- ===== src/Workflow/Files/Divided.antt =====
-- Every source file goes to exactly one of the parser and the raw results.
use mathlib.Core.Path.{subst}
use code_intelegence.Base.{
  ℕ, String, ◌≡◌, refl, ap, Bool, true, false, not, ◌&&◌, some, List, [], ◌∷◌, arith, ◌≤◌, ltb,
  length, All, lookup, insert, Each, Each-lookup, Each-insert, ◌==◌, contains, eq_iff,
  if◌then◌else◌, Bool-cases, Option-cases, inl, inr,
}
use code_intelegence.Domain.Errors.{GoError, Result, ok}
use code_intelegence.Parser.Batch.{FileInput}
use code_intelegence.Parser.Registry.{get_language_by_extension, extension_map}
use code_intelegence.Workflow.Split.{Chunk, default_max_input_chars, ParsedFileResult, line_count}
use code_intelegence.Workflow.Steps.Laws.{Result-cases}
use code_intelegence.Workflow.Split.Rejoin.{Fits, split_raw_chunks-Splits}
use code_intelegence.Workflow.Bytes.{Bytes, valid}
use code_intelegence.Workflow.Files.{
  Contents, Library, has_parser_support, language_for_ext, parseable_files, raw_files,
  build_file_inputs, build_raw_file_results, content_of, raw_chunks, raw_file_result, read_from,
  is_binary, read_source_files,
}

module _ (lib : Library) where
  -- Splitting a text that is valid UTF-8 comes to an end.
  raw_chunks_total :
      (fuel : ℕ) (s : Bytes)
      → (length s ≤ fuel) × (valid s ≡ true)
      → (chunks : List Chunk) × (raw_chunks lib fuel s ≡ some chunks)
        × All (Fits default_max_input_chars) chunks
  unfolding raw_chunks
  raw_chunks_total fuel s (size, v) = elim (Bool-cases (ltb 0 (length s))) [
    | inl some_bytes ↦
        let (chunks, returns, same, fit) =
          split_raw_chunks-Splits lib.sum256 fuel (line_count s) s (ground arith) size v in
        rw some_bytes (chunks, returns, fit)
    | inr empty ↦ rw empty ([], refl, tt)
  ]

  contains-parseable_files :
      (p : String) (files : List String)
      → contains p (parseable_files lib files)
        ≡ (contains p files && has_parser_support lib (lib.ext p))
  unfolding parseable_files
  contains-parseable_files p [] = refl
  contains-parseable_files p (f ∷ files) =
      ground (arith, contains-parseable_files p files, eq_iff f p)

  contains-raw_files :
      (p : String) (files : List String)
      → contains p (raw_files lib files)
        ≡ (contains p files && not (has_parser_support lib (lib.ext p)))
  unfolding raw_files
  contains-raw_files p [] = refl
  contains-raw_files p (f ∷ files) = ground (arith, contains-raw_files p files, eq_iff f p)

-- Contents that the splitting of raw files uses up: valid UTF-8, and no longer than the fuel.
abbrev pub Readable : ℕ → Bytes → Type 0
Readable fuel s = (length s ≤ fuel) × (valid s ≡ true)

abbrev pub input_paths : List FileInput → List String
input_paths [] = []
input_paths (i ∷ inputs) = i.file_path ∷ input_paths inputs

abbrev pub result_paths : List ParsedFileResult → List String
result_paths [] = []
result_paths (r ∷ results) = r.file_path ∷ result_paths results

-- No language in the registry has an empty name.
abbrev named : List (String × String) → Bool
named [] = true
named ((k, v) ∷ m) = not (v == "") && named m

lookup-named :
    (k v : String) (m : List (String × String))
    → named m ≡ true
    → lookup k m ≡ some v
    → (v == "") ≡ false
unfolding lookup
lookup-named k v [] n h = cc
lookup-named k v ((j, w) ∷ m) n h = ground (arith, lookup-named k v m)

extension_map-named : named extension_map ≡ true
extension_map-named = refl

module _ (lib : Library) where
  language_for_ext-named :
      (e : String) → has_parser_support lib e ≡ true → (language_for_ext lib e == "") ≡ false
  unfolding has_parser_support language_for_ext get_language_by_extension
  language_for_ext-named e h = elim (Option-cases (lookup (lib.to_lower e) extension_map)) [
    | inl missing ↦ ground arith
    | inr (lang, found) ↦
        rw (language_for_ext, found)
          (lookup-named (lib.to_lower e) lang extension_map extension_map-named found)
  ]

  -- Every parseable file becomes an input of the parser.
  build_file_inputs-paths :
      (files : List String) (contents : Contents)
      → input_paths (build_file_inputs lib (parseable_files lib files) contents)
        ≡ parseable_files lib files
  unfolding build_file_inputs parseable_files
  build_file_inputs-paths [] contents = refl
  build_file_inputs-paths (f ∷ files) contents =
      elim (Bool-cases (has_parser_support lib (lib.ext f))) [
        | inl supported ↦
            rw (supported, language_for_ext-named (lib.ext f) supported)
              (ap (λ rest. f ∷ rest) (build_file_inputs-paths files contents))
        | inr raw ↦ rw raw (build_file_inputs-paths files contents)
      ]

  content_of-Readable :
      (fuel : ℕ) (f : String) (contents : Contents)
      → Each (Readable fuel) contents
      → Readable fuel (content_of f contents)
  unfolding content_of
  content_of-Readable fuel f contents h = elim (Option-cases (lookup f contents)) [
    | inl missing ↦ rw (content_of, missing) (omega arith, unfold valid in refl)
    | inr (s, found) ↦ rw (content_of, found) (Each-lookup (Readable fuel) f s contents found h)
  ]

  pub build_raw_file_results-paths :
      (fuel : ℕ) (files : List String) (contents : Contents)
      → Each (Readable fuel) contents
      → (results : List ParsedFileResult) × (build_raw_file_results lib fuel files contents
          ≡ some results)
        × (result_paths results ≡ files)
        × All (λ r. All (Fits default_max_input_chars) r.chunks) results
  unfolding build_raw_file_results
  build_raw_file_results-paths fuel [] contents h = ([], refl, refl, tt)
  build_raw_file_results-paths fuel (f ∷ files) contents h =
      let (results, returns, paths, fits) = build_raw_file_results-paths fuel files contents h in
      let (chunks, split, fit) =
        raw_chunks_total lib fuel _ (content_of-Readable fuel f contents h) in
      (
        raw_file_result lib f (content_of f contents) chunks ∷ results,
        rw (build_raw_file_results, split, returns) refl,
        unfold raw_file_result in ap (λ rest. f ∷ rest) paths,
        (unfold raw_file_result in fit, fits),
      )

valid-is_binary : (s : Bytes) → is_binary s ≡ false → valid s ≡ true
unfolding is_binary
valid-is_binary s text = elim (Bool-cases (valid s)) [
  | inl v ↦ v
  | inr broken ↦ absurd (ground arith)
]

-- What is read is valid UTF-8 of bounded size.
module _ (read_file : String → Result GoError Bytes) (fuel : ℕ)
    (bounded : (f : String) (s : Bytes) → read_file f ≡ ok s → length s ≤ fuel) where
  added-Readable :
      (f : String) (s : Bytes) (contents : Contents)
      → read_file f ≡ ok s
      → Each (Readable fuel) contents
      → Each (Readable fuel) (if is_binary s then contents else insert f s contents)
  unfolding is_binary
  added-Readable f s contents found h = elim (Bool-cases (is_binary s)) [
    | inl binary ↦ rw binary h
    | inr text ↦
        rw text
          (Each-insert (Readable fuel) f s contents (bounded f s found, valid-is_binary s text) h)
  ]

  pub read_from-Readable :
      (files : List String) (contents : Contents) {out : Contents}
      → Each (Readable fuel) contents
      → read_from read_file contents files ≡ ok out
      → Each (Readable fuel) out
  unfolding read_from
  read_from-Readable [] contents {out} h e =
      let same : contents ≡ out = ground arith in subst (Each (Readable fuel)) same h
  read_from-Readable (f ∷ files) contents {out} h e = elim (Result-cases (read_file f)) [
    | inl (s, found) ↦
        let next : read_from read_file (if is_binary s then contents else insert f s contents) files
            ≡ ok out =
          ground arith in
        read_from-Readable files _ (added-Readable f s contents found h) next
    | inr (why, failed) ↦ absurd (ground arith)
  ]

  -- Suppose that the source files are read without an error and none has more than `fuel` bytes.
  -- Then the raw results are built, and of the source files exactly those that have an extension
  -- with parser support become inputs of the parser, and exactly the others raw results.
  pub files_divided :
      (lib : Library) (files : List String) (contents : Contents)
      → read_source_files read_file files ≡ ok contents
      → (results : List ParsedFileResult) × (build_raw_file_results lib fuel
            (raw_files lib files)
            contents
          ≡ some results)
        × ((p : String)
            → (contains p (input_paths (build_file_inputs lib (parseable_files lib files) contents))
                ≡ (contains p files && has_parser_support lib (lib.ext p)))
              × (contains p (result_paths results)
                  ≡ (contains p files && not (has_parser_support lib (lib.ext p)))))
  unfolding read_source_files
  files_divided lib files contents read =
      let (results, returns, paths, fits) =
        build_raw_file_results-paths lib fuel (raw_files lib files) contents
          (read_from-Readable files [] tt read) in
      (
        results,
        returns,
        λ p.
            rw (build_file_inputs-paths, paths)
              (contains-parseable_files lib p files, contains-raw_files lib p files),
      )
