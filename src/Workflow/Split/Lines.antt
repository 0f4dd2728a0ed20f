-- ===== src/Workflow/Split/Lines.antt =====
-- The line numbers of the pieces, and the two ways of numbering them.
use code_intelegence.Base.{
  ℕ, zero, suc, ◌+◌, ◌≤◌, ◌<◌, String, ◌≡◌, refl, ap, inl, inr, Bool, true, false, some, [], ◌∷◌,
  arith, leb, eqb, length, if◌then◌else◌, Bool-cases, Option-cases, take, drop, length-take,
}
use code_intelegence.Workflow.Bytes.{Bytes, get, last_index, newline, get-take}
use code_intelegence.Workflow.Split.{
  chunk_end, split_loop, raw_end_line, end_line_of, raw_chunk, split_raw_chunks,
  split_chunk_content, default_max_input_chars,
}
use code_intelegence.Workflow.Split.Progress.{chunk_end_at, newline_found}

raw_end_line-end_line_of :
    (line : ℕ) (chunk left : Bytes) → raw_end_line line chunk left ≡ end_line_of line chunk left
unfolding raw_end_line end_line_of
raw_end_line-end_line_of line chunk left = ground arith

module _ (sum256 : Bytes → String) where
  -- Raw content over the limit is split exactly as a chunk of type "raw" with that content that
  -- begins at line 1: the two functions number the lines alike on every text.
  pub split_raw_chunks-split_chunk_content :
      (fuel total_lines : ℕ) (content : Bytes)
      → default_max_input_chars < length content
      → split_raw_chunks sum256 fuel content total_lines
        ≡ split_chunk_content sum256 fuel
            (raw_chunk sum256 "" content 1 total_lines)
            default_max_input_chars
  unfolding split_raw_chunks split_chunk_content
  split_raw_chunks-split_chunk_content fuel total_lines content long =
      let not_short : leb (length content) default_max_input_chars ≡ false = ground arith in
      rw not_short (
        ap
          (λ end_line.
            split_loop sum256 end_line (raw_chunk sum256) fuel default_max_input_chars 1 content)
          (λ i line chunk left. raw_end_line-end_line_of line chunk left i))

-- No line has more than `limit` bytes before its newline; `k` are left of the current one.
unfoldable pub short_lines : ℕ → ℕ → Bytes → Bool
short_lines limit k [] = true
short_lines limit zero (b ∷ s) = if eqb b newline then short_lines limit limit s else false
short_lines limit (suc k) (b ∷ s) =
    if eqb b newline then short_lines limit limit s else short_lines limit k s

newline_within :
    (limit k : ℕ) (s : Bytes)
    → k < length s
    → short_lines limit k s ≡ true
    → (i : ℕ) × (i ≤ k) × (get i s ≡ newline)
unfolding short_lines get
newline_within limit k [] h v = absurd (omega arith)
newline_within limit zero (b ∷ s) h v = (0, omega arith, ground arith)
newline_within limit (suc k) (b ∷ s) h v = elim (Bool-cases (eqb b newline)) [
  | inl e ↦ (0, omega arith, ground arith)
  | inr e ↦
      let (i, below, at) = newline_within limit k s (omega arith) (ground arith) in
      (suc i, omega arith, at)
]

pub short_lines-drop :
    (limit k i : ℕ) (s : Bytes)
    → get i s ≡ newline
    → short_lines limit k s ≡ true
    → short_lines limit limit (drop (suc i) s) ≡ true
unfolding short_lines get drop
short_lines-drop limit k zero [] h v = refl
short_lines-drop limit k (suc i) [] h v = refl
short_lines-drop limit zero zero (b ∷ s) h v = ground arith
short_lines-drop limit (suc k) zero (b ∷ s) h v = ground arith
short_lines-drop limit zero (suc i) (b ∷ s) h v = ground (arith, short_lines-drop limit limit i s)
short_lines-drop limit (suc k) (suc i) (b ∷ s) h v =
    ground (arith, short_lines-drop limit limit i s, short_lines-drop limit k i s)

last_index_ge :
    (c j : ℕ) (s : Bytes)
    → j < length s
    → get j s ≡ c
    → (i : ℕ) × (j ≤ i) × (last_index c s ≡ some i)
unfolding get last_index
last_index_ge c j [] h e = absurd (omega arith)
last_index_ge c zero (b ∷ s) h e = elim (Option-cases (last_index c s)) [
  | inl missing ↦ (0, omega arith, ground arith)
  | inr (i, found) ↦ (suc i, omega arith, rw found refl)
]
last_index_ge c (suc j) (b ∷ s) h e =
    let (i, below, found) = last_index_ge c j s (omega arith) e in
    (suc i, omega arith, rw found refl)

get-pos : (b i : ℕ) (s : Bytes) → eqb b newline ≡ false → get i (b ∷ s) ≡ newline → 0 < i
unfolding get
get-pos b zero s other at = absurd (ground arith)
get-pos b (suc j) s other at = omega arith

-- One of the first two newlines is not the first byte.
later_newline :
    (limit : ℕ) (s : Bytes)
    → limit + 1 < length s
    → short_lines limit limit s ≡ true
    → (j : ℕ) × (0 < j) × (j ≤ limit + 1) × (get j s ≡ newline)
unfolding get drop
later_newline limit [] h v = absurd (omega arith)
later_newline limit (b ∷ s) h v = elim (Bool-cases (eqb b newline)) [
  | inl first ↦
      let (i, few, next) =
        newline_within limit limit s (omega arith)
          (short_lines-drop limit limit 0 (b ∷ s) (ground arith) v) in
      (suc i, omega arith, omega arith, next)
  | inr other ↦
      let (i, few, at) = newline_within limit limit (b ∷ s) (omega arith) v in
      (i, get-pos b i s other at, omega arith, at)
]

-- With short lines a piece that leaves bytes behind ends with a newline, and the next piece starts
-- with a whole line.
pub cut_at_newline :
    (max limit : ℕ) (s : Bytes)
    → limit + 2 ≤ max
    → max < length s
    → short_lines limit limit s ≡ true
    → (i : ℕ) × (chunk_end max s ≡ suc i) × (i < max) × (get i s ≡ newline)
cut_at_newline max limit s room long v =
    let (j, pos, few, at) = later_newline limit s (omega arith) v in
    let seen = get-take j max s (omega arith) in
    let (i, above, found) =
      last_index_ge newline j (take max s) (omega (arith, length-take max s (omega arith)))
        (omega (arith, seen, at)) in
    let (below, byte) = newline_found max i s (omega arith) found in
    (i, chunk_end_at max i s long (omega arith) found, below, byte)
