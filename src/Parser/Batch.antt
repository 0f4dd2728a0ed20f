-- ===== src/Parser/Batch.antt =====
-- backend-worker/internal/parser/batch.go: BatchFileInputs.
use code_intelegence.Base.{
  ℕ, ◌+◌, ◌≤◌, ◌<◌, String, ◌≡◌, ◌⊎◌, inl, inr, refl, Bool, false, ◌&&◌, ◌||◌, List, [], ◌∷◌, ◌++◌,
  arith, ltb, leb, length, length-append, All, if◌then◌else◌, Bool-cases,
}
use mathlib.Core.List.{append-nil, append_assoc}
use mathlib.Core.Path.{sym, ◌∙◌}

abbrev pub max_files_per_batch : ℕ
max_files_per_batch = 50

-- 5 MB
abbrev pub max_bytes_per_batch : ℕ
max_bytes_per_batch = 5242880

pub record FileInput : Type 0 where
  pub file_path : String
  pub content : String
  pub language : String

abbrev flush : List FileInput → List (List FileInput)
flush [] = []
flush (f ∷ fs) = (f ∷ fs) ∷ []

pub concat : List (List FileInput) → List FileInput
concat [] = []
concat (b ∷ bs) = b ++ concat bs

-- `len` is Go's length of a string in bytes.
module _ (len : String → ℕ) where
  -- Whether the current batch is flushed before the file.
  abbrev pub is_full : List FileInput → ℕ → FileInput → Bool
  is_full current current_bytes f =
      ltb 0 (length current)
      && (leb max_files_per_batch (length current)
          || ltb max_bytes_per_batch (current_bytes + len f.content))

  -- The loop, with the current batch and its bytes; the result is the batches from the current one on.
  unfoldable pub batch_from : List FileInput → List FileInput → ℕ → List (List FileInput)
  batch_from [] current current_bytes = flush current
  batch_from (f ∷ files) current current_bytes =
      let flushed = batch_from files (f ∷ []) (len f.content) in
      let added = batch_from files (current ++ f ∷ []) (current_bytes + len f.content) in
      if is_full current current_bytes f then current ∷ flushed else added

  unfoldable pub batch_file_inputs : List FileInput → List (List FileInput)
  unfolding batch_from
  batch_file_inputs [] = []
  batch_file_inputs (f ∷ files) = batch_from (f ∷ files) [] 0

  pub bytes : List FileInput → ℕ
  bytes [] = 0
  bytes (f ∷ fs) = len f.content + bytes fs

  -- A batch has at least one and at most 50 files, and at most 5 MB, unless it is a single file.
  abbrev pub Within : List FileInput → Type 0
  Within b =
      (0 < length b)
      × (length b ≤ max_files_per_batch)
      × ((bytes b ≤ max_bytes_per_batch) ⊎ (length b ≡ 1))

  -- The same of the current batch, which may be empty.
  abbrev Pending : List FileInput → Type 0
  Pending b = (length b ≤ max_files_per_batch) × ((bytes b ≤ max_bytes_per_batch) ⊎ (length b ≡ 1))

  bytes-append : (xs ys : List FileInput) → bytes (xs ++ ys) ≡ bytes xs + bytes ys
  unfolding bytes
  bytes-append [] ys = omega arith
  bytes-append (x ∷ xs) ys = omega (arith, bytes-append xs ys)

  bytes_one : (f : FileInput) → bytes (f ∷ []) ≡ len f.content
  unfolding bytes
  bytes_one f = omega arith

  bytes_none : 0 ≡ bytes []
  unfolding bytes
  bytes_none = refl

  concat-flush : (fs : List FileInput) → concat (flush fs) ≡ fs
  unfolding concat
  concat-flush [] = refl
  concat-flush (f ∷ fs) = append-nil (f ∷ fs)

  batch_from-concat :
      (files current : List FileInput) (n : ℕ)
      → concat (batch_from files current n) ≡ current ++ files
  unfolding batch_from concat
  batch_from-concat [] current n = concat-flush current ∙ sym (append-nil current)
  batch_from-concat (f ∷ files) current n = elim (Bool-cases (is_full current n f)) [
    | inl e ↦ rw (e, batch_from-concat files (f ∷ []) (len f.content)) refl
    | inr e ↦
        rw (e, batch_from-concat files (current ++ f ∷ []) (n + len f.content))
          (append_assoc current (f ∷ []) files)
  ]

  added-Pending :
      (f : FileInput) (current : List FileInput) (n : ℕ)
      → n ≡ bytes current
      → is_full current n f ≡ false
      → Pending (current ++ f ∷ [])
  added-Pending f current n h e =
      ground (arith, length-append current (f ∷ []), bytes-append current (f ∷ []), bytes_one f)

  flush-Within : (current : List FileInput) → Pending current → All Within (flush current)
  flush-Within [] p = tt
  flush-Within (f ∷ fs) p = ((omega arith, p.0, p.1), tt)

  batch_from-Within :
      (files current : List FileInput) (n : ℕ)
      → n ≡ bytes current
      → Pending current
      → All Within (batch_from files current n)
  unfolding batch_from
  batch_from-Within [] current n h p = flush-Within current p
  batch_from-Within (f ∷ files) current n h p = elim (Bool-cases (is_full current n f)) [
    | inl e ↦ rw e (
      (ground arith, p.0, p.1),
      batch_from-Within files (f ∷ []) (len f.content) (sym (bytes_one f)) (omega arith, inr refl),
    )
    | inr e ↦ rw e (
        batch_from-Within files (current ++ f ∷ []) (n + len f.content)
          (omega (arith, bytes-append current (f ∷ []), bytes_one f))
          (added-Pending f current n h e))
  ]

  -- The batches hold exactly the given files, in the given order, and none is lost or repeated; no
  -- batch is empty or has more than 50 files, and only a batch of a single file is over 5 MB.
  pub batch_file_inputs_lem :
      (files : List FileInput)
      → (concat (batch_file_inputs files) ≡ files) × All Within (batch_file_inputs files)
  unfolding batch_file_inputs concat
  batch_file_inputs_lem [] = (refl, tt)
  batch_file_inputs_lem (f ∷ files) = (
    batch_from-concat (f ∷ files) [] 0,
    batch_from-Within (f ∷ files) [] 0 bytes_none (omega arith, inl (omega (arith, bytes_none))),
  )
