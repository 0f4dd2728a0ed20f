-- ===== src/Workflow/Files.antt =====
-- backend-worker/internal/workflow/{fullindex,incremental}/handler.go: reading the source files,
-- and dividing them between the parser and raw content.

pub mod Divided
use code_intelegence.Base.{
  ℕ, String, Bool, true, false, not, ◌&&◌, ◌||◌, Option, none, some, List, [], ◌∷◌, eqb, ltb,
  if◌then◌else◌, length, lookup, insert, ◌==◌,
}
use Prim.Native.String.{◌++◌ as ◌<>◌}
use code_intelegence.Domain.Errors.{GoError, wrap, Result, ok, err}
use code_intelegence.Parser.Batch.{FileInput}
use code_intelegence.Parser.Registry.{get_language_by_extension, detect_language}
use code_intelegence.Workflow.Bytes.{Bytes, valid}
use code_intelegence.Workflow.Split.{
  Chunk, ParsedFileResult, line_count, split_raw_chunks, default_max_input_chars,
}

abbrev pub Contents : Type 0
Contents = List (String × Bytes)

-- bytes.ContainsRune(bytes, 0)
unfoldable pub has_nul : Bytes → Bool
has_nul [] = false
has_nul (b ∷ s) = eqb b 0 || has_nul s

-- !utf8.Valid(bytes) || bytes.ContainsRune(bytes, 0)
unfoldable pub is_binary : Bytes → Bool
unfolding valid has_nul
is_binary bytes = not (valid bytes) || has_nul bytes

-- The loop, with the map so far. A binary file is left out of the map.
unfoldable pub read_from :
    (String → Result GoError Bytes) → Contents → List String → Result GoError Contents
unfolding is_binary
read_from read_file contents [] = ok contents
read_from read_file contents (f ∷ files) = elim (read_file f) [
  | err e ↦ err (wrap ("read " <> f) e)
  | ok bytes ↦
      read_from read_file (if is_binary bytes then contents else insert f bytes contents) files
]

unfoldable pub read_source_files :
    (String → Result GoError Bytes) → List String → Result GoError Contents
unfolding read_from
read_source_files read_file files = read_from read_file [] files

-- contents[f], the empty text for a file that is not there
unfoldable pub content_of : String → Contents → Bytes
content_of f contents = elim (lookup f contents) [ none ↦ [] | some bytes ↦ bytes ]

-- The functions of `strings` and `path/filepath`, the hash, and the text with the given bytes.
pub record Library : Type 0 where
  pub to_lower : String → String
  pub base : String → String
  pub ext : String → String
  pub trim_dot : String → String
  pub sum256 : Bytes → String
  pub text_of : Bytes → String

module _ (lib : Library) where
  -- workspace.HasParserSupport
  unfoldable pub has_parser_support : String → Bool
  unfolding get_language_by_extension
  has_parser_support ext = elim (get_language_by_extension lib.to_lower ext) [
    | none ↦ false
    | some lang ↦ true
  ]

  unfoldable pub language_for_ext : String → String
  unfolding get_language_by_extension
  language_for_ext ext = elim (get_language_by_extension lib.to_lower ext) [
    | none ↦ ""
    | some lang ↦ lang
  ]

  -- The two halves of splitByParserSupport.
  unfoldable pub parseable_files : List String → List String
  unfolding has_parser_support
  parseable_files [] = []
  parseable_files (f ∷ files) =
      let rest = parseable_files files in if has_parser_support (lib.ext f) then f ∷ rest else rest

  unfoldable pub raw_files : List String → List String
  unfolding has_parser_support
  raw_files [] = []
  raw_files (f ∷ files) =
      let rest = raw_files files in if has_parser_support (lib.ext f) then rest else f ∷ rest

  unfoldable pub build_file_inputs : List String → Contents → List FileInput
  unfolding language_for_ext content_of
  build_file_inputs [] contents = []
  build_file_inputs (f ∷ files) contents =
      let rest = build_file_inputs files contents in
      if language_for_ext (lib.ext f) == ""
      then rest
      else record {
        file_path = f;
        content = lib.text_of (content_of f contents);
        language = language_for_ext (lib.ext f);
      }
        ∷ rest

  -- Use the registry's language, fall back to the extension.
  abbrev raw_language : String → String
  raw_language f = elim (detect_language lib.to_lower lib.base lib.ext f) [
    | ok detected ↦ detected
    | err e ↦ lib.trim_dot (lib.ext f)
  ]

  -- The chunks of one raw file: none for an empty one.
  unfoldable pub raw_chunks : ℕ → Bytes → Option (List Chunk)
  unfolding split_raw_chunks line_count
  raw_chunks fuel content =
      if ltb 0 (length content)
      then split_raw_chunks lib.sum256 fuel content (line_count content)
      else some []

  unfoldable pub raw_file_result : String → Bytes → List Chunk → ParsedFileResult
  unfolding line_count detect_language
  raw_file_result f content chunks = record {
    file_path = f;
    language = raw_language f;
    file_hash = lib.sum256 content;
    size_bytes = length content;
    line_count = line_count content;
    chunks = chunks;
  }

  unfoldable pub build_raw_file_results :
      ℕ → List String → Contents → Option (List ParsedFileResult)
  unfolding raw_chunks raw_file_result content_of
  build_raw_file_results fuel [] contents = some []
  build_raw_file_results fuel (f ∷ files) contents =
      let rest = build_raw_file_results fuel files contents in
      elim (raw_chunks fuel (content_of f contents)) [
        | none ↦ none
        | some chunks ↦ (elim rest [
          | none ↦ none
          | some results ↦ some (raw_file_result f (content_of f contents) chunks ∷ results)
        ])
      ]
