-- ===== src/Workflow/Split.antt =====
-- backend-worker/internal/workflow/fullindex/handler.go and incremental/handler.go (the two have
-- the same functions): splitting a text into chunks at most `max` bytes long. Go's int32 line
-- numbers are natural numbers here: a text of fewer than 2^31 lines does not wrap them.
pub mod Progress
pub mod Rejoin
pub mod Lines
pub mod Numbers
use code_intelegence.Base.{
  ℕ, zero, suc, ◌+◌, ◌-◌, String, Bool, false, not, ◌&&◌, ◌||◌, Option, none, some, List, [], ◌∷◌,
  ◌++◌, leb, ltb, eqb, if◌then◌else◌, length, take, drop,
}
use code_intelegence.Workflow.Bytes.{Bytes, get, last_index, count, newline, rune_start}

-- embedding.DefaultMaxInputChars
abbrev pub default_max_input_chars : ℕ
default_max_input_chars = 7500

-- parser.Chunk; the fields that no operation here reads or sets are left out.
pub record Chunk : Type 0 where
  pub chunk_type : String
  pub chunk_hash : String
  pub content : Bytes
  pub start_line : ℕ
  pub end_line : ℕ
  pub symbol_id : String
  pub owner_qualified_name : String
  pub owner_kind : String
  pub is_exported_context : Bool
  pub semantic_role : String

-- parser.ParsedFileResult, with the fields that the workflows read or set.
pub record ParsedFileResult : Type 0 where
  pub file_path : String
  pub language : String
  pub file_hash : String
  pub size_bytes : ℕ
  pub line_count : ℕ
  pub chunks : List Chunk

-- for end > 0 && end < len(s) && s[end-1] >= 0x80 { if RuneStart(s[end]) { break }; end-- }
unfoldable pub back_off : ℕ → Bytes → ℕ
back_off zero s = zero
back_off (suc e) s =
    let rest = back_off e s in
    if leb (length s) (suc e) || ltb (get e s) 128 || rune_start (get (suc e) s)
    then suc e
    else rest

-- if cut > 0 { end = cut + 1 } else { ... }
abbrev pub cut_at : Option ℕ → ℕ → ℕ
cut_at (some (suc cut)) long_line = suc (suc cut)
cut_at (some zero) long_line = long_line
cut_at none long_line = long_line

unfoldable pub chunk_end : ℕ → Bytes → ℕ
unfolding back_off last_index take
chunk_end max s =
    if leb (length s) max
    then length s
    else cut_at (last_index newline (take max s)) (back_off max s)

-- chunk[len(chunk)-1] != '\n'
unfoldable pub last_is_not_newline : Bytes → Bool
unfolding get
last_is_not_newline chunk = not (eqb (get (length chunk - 1) chunk) newline)

abbrev pub no_bytes : Bytes → Bool
no_bytes s = leb (length s) 0

-- A last piece without a newline at its end has its partial line counted.
abbrev partial_last : Bytes → Bytes → Bool
partial_last chunk remaining =
    no_bytes remaining && (ltb 0 (length chunk) && last_is_not_newline chunk)

-- endLine of splitChunkContent
unfoldable pub end_line_of : ℕ → Bytes → Bytes → ℕ
unfolding count last_is_not_newline
end_line_of line chunk remaining =
    if partial_last chunk remaining
    then line + count newline chunk
    else if ltb 0 (count newline chunk)
    then line + count newline chunk - 1
    else line + count newline chunk

-- endLine of splitRawChunks
unfoldable pub raw_end_line : ℕ → Bytes → Bytes → ℕ
unfolding count last_is_not_newline
raw_end_line line chunk remaining =
    if ltb 0 (count newline chunk) || no_bytes remaining
    then (if partial_last chunk remaining
        then line + count newline chunk
        else if ltb 0 (count newline chunk)
        then line + count newline chunk - 1
        else line + count newline chunk)
    else line + count newline chunk

-- lineCount of buildRawFileResults; a text with no bytes has no lines.
unfoldable pub line_count : Bytes → ℕ
unfolding count last_is_not_newline
line_count s = if no_bytes s then 0 else count newline s + (if last_is_not_newline s then 1 else 0)

-- `sum256` is the hexadecimal SHA-256 of a text.
module _ (sum256 : Bytes → String) where
  -- The loop of the two functions, which differ in how they number the last line of a piece. It is
  -- out of fuel when the text is not used up, as Go's loop goes on for ever when `end` is 0.
  unfoldable pub split_loop :
      (ℕ → Bytes → Bytes → ℕ)
      → (String → Bytes → ℕ → ℕ → Chunk)
      → ℕ
      → ℕ
      → ℕ
      → Bytes
      → Option (List Chunk)
  split_loop end_line chunk_of zero max line remaining =
      if no_bytes remaining then some [] else none
  split_loop end_line chunk_of (suc fuel) max line remaining =
      let piece = take (chunk_end max remaining) remaining in
      let left = drop (chunk_end max remaining) remaining in
      let last = end_line line piece left in
      let rest = split_loop end_line chunk_of fuel max (last + 1) left in
      if no_bytes remaining then some [] else (elim rest [
        | none ↦ none
        | some chunks ↦ some (chunk_of (sum256 piece) piece line last ∷ chunks)
      ])

  abbrev pub raw_chunk : String → Bytes → ℕ → ℕ → Chunk
  raw_chunk hash content start_line end_line = record {
    chunk_type = "raw";
    chunk_hash = hash;
    content = content;
    start_line = start_line;
    end_line = end_line;
    symbol_id = "";
    owner_qualified_name = "";
    owner_kind = "";
    is_exported_context = false;
    semantic_role = "";
  }

  abbrev pub sub_chunk : Chunk → String → Bytes → ℕ → ℕ → Chunk
  sub_chunk orig hash content start_line end_line = record orig {
    chunk_hash = hash;
    content = content;
    start_line = start_line;
    end_line = end_line;
  }

  unfoldable pub split_raw_chunks : ℕ → Bytes → ℕ → Option (List Chunk)
  unfolding split_loop raw_end_line
  split_raw_chunks fuel content total_lines =
      if leb (length content) default_max_input_chars
      then some (raw_chunk (sum256 content) content 1 total_lines ∷ [])
      else split_loop raw_end_line raw_chunk fuel default_max_input_chars 1 content

  unfoldable pub split_chunk_content : ℕ → Chunk → ℕ → Option (List Chunk)
  unfolding split_loop end_line_of
  split_chunk_content fuel orig max =
      split_loop end_line_of (sub_chunk orig) fuel max orig.start_line orig.content

  -- The chunks of one file, each that is too long replaced by its pieces.
  unfoldable pub split_chunks : ℕ → ℕ → List Chunk → Option (List Chunk)
  split_chunks fuel max [] = some []
  split_chunks fuel max (c ∷ chunks) =
      let rest = split_chunks fuel max chunks in
      let subs = split_chunk_content fuel c max in
      if leb (length c.content) max
      then (elim rest [ none ↦ none | some out ↦ some (c ∷ out) ])
      else (elim subs [
        | none ↦ none
        | some pieces ↦ (elim rest [ none ↦ none | some out ↦ some (pieces ++ out) ])
      ])

  unfoldable pub split_oversized_chunks :
      ℕ → ℕ → List ParsedFileResult → Option (List ParsedFileResult)
  unfolding split_chunks
  split_oversized_chunks fuel max [] = some []
  split_oversized_chunks fuel max (r ∷ results) =
      let rest = split_oversized_chunks fuel max results in
      elim (split_chunks fuel max r.chunks) [
        | none ↦ none
        | some out ↦ (elim rest [ none ↦ none | some rs ↦ some (record r { chunks = out } ∷ rs) ])
      ]
