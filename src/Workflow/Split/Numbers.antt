-- ===== src/Workflow/Split/Numbers.antt =====
-- The line numbers of the pieces count the lines of the text.
use mathlib.Core.Path.{subst}
use code_intelegence.Base.{
  ℕ, zero, suc, ◌+◌, ◌-◌, ◌≤◌, ◌<◌, String, ◌≡◌, refl, ap, ◌⊎◌, inl, inr, true, false, Option, some,
  List, [], ◌∷◌, ◌++◌, arith, leb, length, length-append, Bool-cases, take, drop, take-append-drop,
  length-take, length-drop,
}
use code_intelegence.Workflow.Bytes.{Bytes, get, count, newline, get-take}
use code_intelegence.Workflow.Split.{
  Chunk, chunk_end, split_loop, end_line_of, last_is_not_newline, raw_chunk, line_count,
  split_raw_chunks, split_chunk_content, default_max_input_chars,
}
use code_intelegence.Workflow.Split.Progress.{chunk_end_fits}
use code_intelegence.Workflow.Split.Lines.{
  short_lines, short_lines-drop, cut_at_newline, split_raw_chunks-split_chunk_content,
}

-- Each piece starts where the piece before it ended, and its last line counts those that it has.
pub data Numbered : ℕ → List Chunk → ℕ → Type 0 where
  done : {line : ℕ} → Numbered line [] line
  piece :
      {line next after : ℕ} {c : Chunk} {chunks : List Chunk}
      → c.start_line ≡ line
      → c.end_line + 1 ≡ next
      → next ≡ line + line_count c.content
      → Numbered next chunks after
      → Numbered line (c ∷ chunks) after

count-append : (c : ℕ) (s t : Bytes) → count c (s ++ t) ≡ count c s + count c t
unfolding count
count-append c [] t = omega arith
count-append c (b ∷ s) t = omega (arith, count-append c s t)

count_pos : (c i : ℕ) (s : Bytes) → i < length s → get i s ≡ c → 0 < count c s
unfolding count get
count_pos c i [] h e = absurd (omega arith)
count_pos c zero (b ∷ s) h e = ground arith
count_pos c (suc i) (b ∷ s) h e = ground (arith, count_pos c i s)

get-append : (s t : Bytes) (i : ℕ) → get (length s + i) (s ++ t) ≡ get i t
unfolding get
get-append [] t i = let start : 0 + i ≡ i = omega arith in rw start refl
get-append (b ∷ s) t i =
    let next : suc (length s) + i ≡ suc (length s + i) = omega arith in rw next (get-append s t i)

last_is_not_newline-append :
    (s t : Bytes) → 0 < length t → last_is_not_newline (s ++ t) ≡ last_is_not_newline t
unfolding last_is_not_newline
last_is_not_newline-append s t h =
    let at : length (s ++ t) - 1 ≡ length s + (length t - 1) = omega (arith, length-append s t) in
    rw (at, get-append s t (length t - 1)) refl

-- A piece that is followed by more ends with a newline.
piece_lines :
    (line : ℕ) (chunk left : Bytes)
    → 0 < length chunk
    → (length left ≡ 0) ⊎ (last_is_not_newline chunk ≡ false)
    → end_line_of line chunk left + 1 ≡ line + line_count chunk
unfolding end_line_of line_count last_is_not_newline
piece_lines line chunk left h ends = ground (arith, count_pos newline (length chunk - 1) chunk)

line_count-append :
    (s t : Bytes)
    → 0 < length s
    → 0 < length t
    → last_is_not_newline s ≡ false
    → line_count (s ++ t) ≡ line_count s + line_count t
unfolding line_count
line_count-append s t p q h =
    ground (arith, last_is_not_newline-append s t q, count-append newline s t, length-append s t)

-- What a cut of a text with short lines leaves.
record Cut (limit line end : ℕ) (s : Bytes) : Type 0 where
  moves : 0 < end
  inside : end ≤ length s
  short : short_lines limit limit (drop end s) ≡ true
  last : end_line_of line (take end s) (drop end s) + 1 ≡ line + line_count (take end s)
  sum : line_count s ≡ line_count (take end s) + line_count (drop end s)

line_count_nil : line_count [] ≡ 0
unfolding line_count
line_count_nil = refl

-- The whole rest is one piece.
take_all : (s : Bytes) → take (length s) s ≡ s
unfolding take
take_all [] = refl
take_all (b ∷ s) = ap (λ t. b ∷ t) (take_all s)

drop_all : (s : Bytes) → drop (length s) s ≡ []
unfolding drop
drop_all [] = refl
drop_all (b ∷ s) = drop_all s

Cut-length : (limit line : ℕ) (s : Bytes) → 0 < length s → Cut limit line (length s) s
unfolding short_lines
Cut-length limit line s h = record {
  moves = h;
  inside = omega arith;
  short = rw drop_all refl;
  last = rw (take_all, drop_all) (piece_lines line s [] h (inl refl));
  sum = rw (take_all, drop_all) (omega (arith, line_count_nil));
}

Cut-suc :
    (limit line i : ℕ) (s : Bytes)
    → suc i < length s
    → get i s ≡ newline
    → short_lines limit limit s ≡ true
    → Cut limit line (suc i) s
Cut-suc limit line i s h at v =
    let size = length-take (suc i) s (omega arith) in
    let rest = length-drop (suc i) s (omega arith) in
    let ends : last_is_not_newline (take (suc i) s) ≡ false =
      unfold last_is_not_newline in ground (arith, get-take i (suc i) s (omega arith)) in
    record {
      moves = omega arith;
      inside = omega arith;
      short = short_lines-drop limit limit i s at v;
      last = piece_lines line (take (suc i) s) (drop (suc i) s) (omega (arith, size)) (inr ends);
      sum = omega (
        arith,
        ap line_count (take-append-drop (suc i) s),
        line_count-append (take (suc i) s) (drop (suc i) s) (omega (arith, size))
            (omega (arith, rest)) ends,
      );
    }

Cut-chunk_end :
    (max limit line : ℕ) (s : Bytes)
    → limit + 2 ≤ max
    → 0 < length s
    → short_lines limit limit s ≡ true
    → Cut limit line (chunk_end max s) s
Cut-chunk_end max limit line s m h v = elim (Bool-cases (leb (length s) max)) [
  | inl fits ↦ rw (chunk_end_fits max s (ground arith)) (Cut-length limit line s h)
  | inr long ↦
      let (i, cut, below, at) = cut_at_newline max limit s m (ground arith) v in
      rw cut (Cut-suc limit line i s (ground arith) at v)
]

abbrev pub IsNumbered : ℕ → Bytes → Option (List Chunk) → Type 0
IsNumbered line s o =
    (chunks : List Chunk) × (o ≡ some chunks) × Numbered line chunks (line + line_count s)

Numbered-nil : (line : ℕ) → Numbered line [] (line + line_count [])
Numbered-nil line = subst (Numbered line []) (omega (arith, line_count_nil)) done

module _ (sum256 : Bytes → String) where
  module _ (chunk_of : String → Bytes → ℕ → ℕ → Chunk)
      (content : (h : String) (b : Bytes) (x y : ℕ) → (chunk_of h b x y).content ≡ b)
      (start : (h : String) (b : Bytes) (x y : ℕ) → (chunk_of h b x y).start_line ≡ x)
      (ends_at : (h : String) (b : Bytes) (x y : ℕ) → (chunk_of h b x y).end_line ≡ y) where
    split_loop-IsNumbered :
        (fuel max limit line : ℕ) (s : Bytes)
        → limit + 2 ≤ max
        → length s ≤ fuel
        → short_lines limit limit s ≡ true
        → IsNumbered line s (split_loop sum256 end_line_of chunk_of fuel max line s)
    unfolding split_loop
    split_loop-IsNumbered zero max limit line [] m h v = ([], refl, Numbered-nil line)
    split_loop-IsNumbered (suc fuel) max limit line [] m h v = ([], refl, Numbered-nil line)
    split_loop-IsNumbered zero max limit line (b ∷ s) m h v = absurd (omega arith)
    split_loop-IsNumbered (suc fuel) max limit line (b ∷ s) m h v =
        let text = b ∷ s in
        let end = chunk_end max text in
        let left = drop end text in
        let last = end_line_of line (take end text) left in
        let cut = Cut-chunk_end max limit line text m (omega arith) v in
        let some_left : leb (length text) 0 ≡ false = ground arith in
        let (chunks, returns, numbered) =
          split_loop-IsNumbered fuel max limit (last + 1) left m
            (omega (arith, cut.moves, length-drop end text cut.inside)) cut.short in
        (
          chunk_of (sum256 (take end text)) (take end text) line last ∷ chunks,
          rw (some_left, returns) refl,
          piece (start _ _ _ _) (ap (λ n. n + 1) (ends_at _ _ _ _)) (rw content cut.last)
              (subst (Numbered (last + 1) chunks) (omega (arith, cut.sum, cut.last)) numbered),
        )

  -- If no line of the content has more than 7498 bytes before its newline, the chunks of a raw file
  -- have exact line numbers: the first starts at line 1, each of the others where the one before it
  -- ended, each counts the lines that it has, and the last ends at the line count of the file.
  pub split_raw_chunks-IsNumbered :
      (fuel : ℕ) (content : Bytes)
      → 0 < length content
      → length content ≤ fuel
      → short_lines 7498 7498 content ≡ true
      → IsNumbered 1 content (split_raw_chunks sum256 fuel content (line_count content))
  split_raw_chunks-IsNumbered fuel content pos h v =
      elim (Bool-cases (leb (length content) default_max_input_chars)) [
        | inl short ↦
            unfold split_raw_chunks in
            rw short (
              raw_chunk sum256 (sum256 content) content 1 (line_count content) ∷ [],
              refl,
              piece refl refl (omega arith)
                  (subst (Numbered (line_count content + 1) []) (omega arith) done),
            )
        | inr long ↦
            rw
              (split_raw_chunks-split_chunk_content sum256 fuel (line_count content) content
                (ground arith))
              (unfold split_chunk_content in
                split_loop-IsNumbered (raw_chunk sum256) (λ h b x y. refl) (λ h b x y. refl)
                  (λ h b x y. refl) fuel default_max_input_chars 7498 1 content (omega arith) h v)
      ]
