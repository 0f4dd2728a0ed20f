-- ===== src/Workflow/Split/Rejoin.antt =====
-- What the splitting functions return: the pieces, in order, are the text again.
use mathlib.Core.List.{append-nil, append_assoc}
use mathlib.Core.Path.{sym, ◌∙◌}
use code_intelegence.Base.{
  ℕ, zero, suc, ◌+◌, ◌≤◌, ◌<◌, String, ◌≡◌, refl, ap, inl, inr, true, false, Option, some, List, [],
  ◌∷◌, ◌++◌, arith, leb, length, All, Bool-cases, Option-cases, take, drop, take-append-drop,
  length-take, length-drop,
}
use code_intelegence.Workflow.Bytes.{Bytes, lead, lead_bounds, valid_from, valid}
use code_intelegence.Workflow.Split.{
  Chunk, ParsedFileResult, chunk_end, split_loop, raw_end_line, end_line_of, raw_chunk, sub_chunk,
  split_raw_chunks, split_chunk_content, split_chunks, split_oversized_chunks,
  default_max_input_chars,
}
use code_intelegence.Workflow.Split.Progress.{chunk_end_le, chunk_end_pos, valid-drop}

-- A text that is cut where a rune starts leaves whole runes.
valid_from-take :
    (n lo hi e : ℕ) (s : Bytes)
    → 128 ≤ lo
    → hi < 192
    → valid_from n lo hi s ≡ true
    → valid (drop e s) ≡ true
    → valid_from n lo hi (take e s) ≡ true
unfolding valid valid_from take drop
valid_from-take zero lo hi zero s p q v w = refl
valid_from-take (suc n) lo hi zero [] p q v w = v
valid_from-take (suc n) lo hi zero (b ∷ s) p q v w = absurd (ground arith)
valid_from-take n lo hi (suc e) [] p q v w = v
valid_from-take zero lo hi (suc e) (b ∷ s) p q v w = elim (Option-cases (lead b)) [
  | inl none_read ↦ absurd (ground arith)
  | inr ((n, lo', hi'), read) ↦
      let bounds = lead_bounds b n lo' hi' read in
      ground (arith, valid_from-take n lo' hi' e s bounds.1 bounds.2)
]
valid_from-take (suc n) lo hi (suc e) (b ∷ s) p q v w =
    ground (arith, valid_from-take n 128 191 e s (omega arith) (omega arith))

pub valid-take_end :
    (max : ℕ) (s : Bytes) → valid s ≡ true → valid (take (chunk_end max s) s) ≡ true
unfolding valid
valid-take_end max s v =
    valid_from-take 0 128 191 (chunk_end max s) s (omega arith) (omega arith) v (valid-drop max s v)

pub contents : List Chunk → Bytes
contents [] = []
contents (c ∷ chunks) = c.content ++ contents chunks

pub contents-append : (cs ds : List Chunk) → contents (cs ++ ds) ≡ contents cs ++ contents ds
unfolding contents
contents-append [] ds = refl
contents-append (c ∷ cs) ds =
    ap (λ t. c.content ++ t) (contents-append cs ds) ∙ sym (append_assoc c.content _ _)

-- Not empty, within the limit, and a text that a TEXT column takes.
abbrev pub Fits : ℕ → Chunk → Type 0
Fits max c = (0 < length c.content) × (length c.content ≤ max) × (valid c.content ≡ true)

-- Pieces that fit and that give the text again.
abbrev pub Splits : ℕ → Bytes → Option (List Chunk) → Type 0
Splits max s o =
    (chunks : List Chunk) × (o ≡ some chunks) × (contents chunks ≡ s) × All (Fits max) chunks

module _ (sum256 : Bytes → String) where
  module _ (end_line : ℕ → Bytes → Bytes → ℕ) (chunk_of : String → Bytes → ℕ → ℕ → Chunk)
      (keeps : (h : String) (b : Bytes) (x y : ℕ) → (chunk_of h b x y).content ≡ b) where
    split_loop-Splits :
        (fuel max line : ℕ) (s : Bytes)
        → 4 ≤ max
        → length s ≤ fuel
        → valid s ≡ true
        → Splits max s (split_loop sum256 end_line chunk_of fuel max line s)
    unfolding split_loop contents
    split_loop-Splits zero max line [] m h v = ([], refl, refl, tt)
    split_loop-Splits zero max line (b ∷ s) m h v = absurd (omega arith)
    split_loop-Splits (suc fuel) max line [] m h v = ([], refl, refl, tt)
    split_loop-Splits (suc fuel) max line (b ∷ s) m h v =
        let text = b ∷ s in
        let end = chunk_end max text in
        let piece = take end text in
        let last = end_line line piece (drop end text) in
        let some_left : leb (length text) 0 ≡ false = ground arith in
        let (under, inside) = chunk_end_le max text in
        let pos = chunk_end_pos max text m (omega arith) v in
        let size = length-take end text inside in
        let (chunks, done, same, fit) =
          split_loop-Splits fuel max (last + 1) (drop end text) m
            (omega (arith, length-drop end text inside)) (valid-drop max text v) in
        (
          chunk_of (sum256 piece) piece line last ∷ chunks,
          rw (some_left, done) refl,
          rw (keeps, same) (take-append-drop end text),
          (rw keeps (omega (arith, size), omega (arith, size), valid-take_end max text v), fit),
        )

  pub split_chunk_content-Splits :
      (fuel max : ℕ) (orig : Chunk)
      → 4 ≤ max
      → length orig.content ≤ fuel
      → valid orig.content ≡ true
      → Splits max orig.content (split_chunk_content sum256 fuel orig max)
  unfolding split_chunk_content
  split_chunk_content-Splits fuel max orig m h v =
      split_loop-Splits end_line_of (sub_chunk sum256 orig) (λ h b x y. refl) fuel max _ _ m h v

  -- The raw content of a file that is valid UTF-8 is split into chunks in finitely many steps, no
  -- more than it has bytes: none is empty or longer than 7500 bytes, each is valid UTF-8 by itself,
  -- and their contents, one after another, are the file's content.
  pub split_raw_chunks-Splits :
      (fuel total_lines : ℕ) (content : Bytes)
      → 0 < length content
      → length content ≤ fuel
      → valid content ≡ true
      → Splits default_max_input_chars content (split_raw_chunks sum256 fuel content total_lines)
  unfolding split_raw_chunks contents
  split_raw_chunks-Splits fuel total_lines content pos h v =
      elim (Bool-cases (leb (length content) default_max_input_chars)) [
        | inl short ↦ rw short (
          raw_chunk sum256 (sum256 content) content 1 total_lines ∷ [],
          refl,
          append-nil content,
          ((pos, ground arith, v), tt),
        )
        | inr long ↦ rw long (
            split_loop-Splits raw_end_line (raw_chunk sum256) (λ h b x y. refl) fuel _ _ _
              (omega arith) h v)
      ]

  -- What splitting leaves of a file: all but the chunks is as it was, the chunks hold the same text
  -- in the same order, and none is over the limit.
  abbrev pub Within : ℕ → Chunk → Type 0
  Within max c = length c.content ≤ max

  abbrev pub Splittable : ℕ → Chunk → Type 0
  Splittable fuel c = (length c.content ≤ fuel) × (valid c.content ≡ true)

  Fits-Within : (max : ℕ) (chunks : List Chunk) → All (Fits max) chunks → All (Within max) chunks
  Fits-Within max [] fit = tt
  Fits-Within max (c ∷ chunks) (f, fit) = (f.1, Fits-Within max chunks fit)

  Within-append :
      (max : ℕ) (cs ds : List Chunk)
      → All (Within max) cs
      → All (Within max) ds
      → All (Within max) (cs ++ ds)
  Within-append max [] ds p q = q
  Within-append max (c ∷ cs) ds (w, p) q = (w, Within-append max cs ds p q)

  abbrev pub Same : ℕ → List Chunk → List Chunk → Type 0
  Same max before after = (contents after ≡ contents before) × All (Within max) after

  pub split_chunks-Same :
      (fuel max : ℕ) (chunks : List Chunk)
      → 4 ≤ max
      → All (Splittable fuel) chunks
      → (out : List Chunk) × (split_chunks sum256 fuel max chunks ≡ some out) × Same max chunks out
  unfolding split_chunks contents
  split_chunks-Same fuel max [] m h = ([], refl, (refl, tt))
  split_chunks-Same fuel max (c ∷ chunks) m ((size, v), h) =
      let (out, done, (same, within)) = split_chunks-Same fuel max chunks m h in
      elim (Bool-cases (leb (length c.content) max)) [
        | inl short ↦ (
          c ∷ out,
          rw (short, done) refl,
          (ap (λ t. c.content ++ t) same, (ground arith, within)),
        )
        | inr long ↦
            let (pieces, found, joined, fit) = split_chunk_content-Splits fuel max c m size v in
            (
              pieces ++ out,
              rw (long, found, done) refl,
              (
                rw (contents-append, joined, same) refl,
                Within-append max pieces out (Fits-Within max pieces fit) within,
              ),
            )
      ]

  -- Every file of one list is the file of the other with its chunks split.
  abbrev pub AllSplit : ℕ → List ParsedFileResult → List ParsedFileResult → Type 0
  AllSplit max [] [] = Unit
  AllSplit max (r ∷ rs) (q ∷ qs) =
      ((q ≡ record r { chunks = q.chunks }) × Same max r.chunks q.chunks) × AllSplit max rs qs
  AllSplit max _ _ = ⊥

  -- With fuel for the longest chunk, splitOversizedChunks returns for every list of files whose
  -- chunks are valid UTF-8 and every limit of at least 4 bytes: each file keeps all but its
  -- chunks, the new chunks give the same text in the same order, and none is over the limit.
  pub split_oversized_chunks-AllSplit :
      (fuel max : ℕ) (results : List ParsedFileResult)
      → 4 ≤ max
      → All (λ r. All (Splittable fuel) r.chunks) results
      → (out : List ParsedFileResult) × (split_oversized_chunks sum256 fuel max results ≡ some out)
        × AllSplit max results out
  unfolding split_oversized_chunks
  split_oversized_chunks-AllSplit fuel max [] m h = ([], refl, tt)
  split_oversized_chunks-AllSplit fuel max (r ∷ results) m (here, h) =
      let (out, done, same) = split_chunks-Same fuel max r.chunks m here in
      let (rest, finished, split) = split_oversized_chunks-AllSplit fuel max results m h in
      (
        record r { chunks = out } ∷ rest,
        rw (split_oversized_chunks, done, finished) refl,
        ((refl, same), split),
      )
