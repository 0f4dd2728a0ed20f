-- ===== src/Workflow/Embedding/Ordered.antt =====
-- backend-worker/internal/embedding/client.go: one vector for each text, in the same order.
use mathlib.Core.Path.{subst}
use code_intelegence.Base.{
  ℕ, zero, suc, ◌+◌, ◌≤◌, ◌≡◌, refl, sym, ap, ◌∙◌, true, List, [], ◌∷◌, ◌++◌, arith, length,
  length-append, length-drop_le, take, drop, take-append-drop, ◌⊎◌, inl, inr,
}
use code_intelegence.Domain.Errors.{GoError, Result, ok, err}
use code_intelegence.Workflow.Bytes.{Bytes}
use code_intelegence.Workflow.Embedding.{
  Vector, OllamaClient, default_embed_batch_size, truncate_all, have_dimensions, embed_batch,
  embed_batches, embed,
}

abbrev pub vectors_of : (Bytes → Vector) → List Bytes → List Vector
vectors_of vec [] = []
vectors_of vec (t ∷ texts) = vec t ∷ vectors_of vec texts

vectors_of-append :
    (vec : Bytes → Vector) (xs ys : List Bytes)
    → vectors_of vec (xs ++ ys) ≡ vectors_of vec xs ++ vectors_of vec ys
vectors_of-append vec [] ys = refl
vectors_of-append vec (x ∷ xs) ys = ap (λ r. vec x ∷ r) (vectors_of-append vec xs ys)

length-vectors_of :
    (vec : Bytes → Vector) (xs : List Bytes) → length (vectors_of vec xs) ≡ length xs
length-vectors_of vec [] = refl
length-vectors_of vec (x ∷ xs) = ap suc (length-vectors_of vec xs)

length-drop_50 :
    (t : Bytes) (texts : List Bytes)
    → length (drop default_embed_batch_size (t ∷ texts)) ≤ length texts
unfolding drop
length-drop_50 t texts = length-drop_le 49 texts

module _ {A : Type 0} where
  Result-cases : (r : Result GoError A) → ((e : GoError) × (r ≡ err e)) ⊎ ((a : A) × (r ≡ ok a))
  Result-cases (err e) = inl (e, refl)
  Result-cases (ok a) = inr (a, refl)

abbrev or_nothing : Result GoError (List Vector) → List Vector
or_nothing (err e) = []
or_nothing (ok vectors) = vectors

ok_injective :
    {xs ys : List Vector} → ◌≡◌ {A = Result GoError (List Vector)} (ok xs) (ok ys) → xs ≡ ys
ok_injective h = ap or_nothing h

module _ (c : OllamaClient) where
  length-truncate_all : (texts : List Bytes) → length (truncate_all c texts) ≡ length texts
  unfolding truncate_all
  length-truncate_all [] = refl
  length-truncate_all (t ∷ texts) = ap suc (length-truncate_all texts)

  -- One vector of the client's dimensions for each of so many texts.
  abbrev IsFor : ℕ → List Vector → Type 0
  IsFor n vectors = (length vectors ≡ n) × (have_dimensions c vectors ≡ true)

  have_dimensions-append :
      (xs ys : List Vector)
      → have_dimensions c xs ≡ true
      → have_dimensions c ys ≡ true
      → have_dimensions c (xs ++ ys) ≡ true
  unfolding have_dimensions
  have_dimensions-append [] ys h k = k
  have_dimensions-append (x ∷ xs) ys h k =
      ground (arith, have_dimensions-append xs ys (ground arith) k)

  embed_batch-IsFor :
      (texts : List Bytes) (vectors : List Vector)
      → embed_batch c texts ≡ ok vectors
      → IsFor (length texts) vectors
  unfolding embed_batch
  embed_batch-IsFor texts vectors h = (ground arith, ground arith)

  embed_batches-step :
      (rounds : ℕ) (t : Bytes) (texts : List Bytes) {vectors more : List Vector}
      → embed_batch c (take default_embed_batch_size (t ∷ texts)) ≡ ok vectors
      → embed_batches c rounds (drop default_embed_batch_size (t ∷ texts)) ≡ ok more
      → embed_batches c (suc rounds) (t ∷ texts) ≡ ok (vectors ++ more)
  unfolding embed_batches
  embed_batches-step rounds t texts first later = rw (embed_batches, first, later) refl

  IsFor-append :
      (t : Bytes) (texts : List Bytes) (firsts more : List Vector)
      → IsFor (length (take default_embed_batch_size (t ∷ texts))) firsts
      → IsFor (length (drop default_embed_batch_size (t ∷ texts))) more
      → IsFor (length (t ∷ texts)) (firsts ++ more)
  IsFor-append t texts firsts more (n, d) (m, f) =
      let all = t ∷ texts in
      let first = take default_embed_batch_size all in
      let others = drop default_embed_batch_size all in
      let parts : length first + length others ≡ length all =
        sym (length-append first others)
        ∙ ap (λ xs. length xs) (take-append-drop default_embed_batch_size all) in
      let whole = length-append firsts more in (omega arith, have_dimensions-append firsts more d f)

  embed_batches-IsFor :
      (rounds : ℕ) (texts : List Bytes) (vectors : List Vector)
      → embed_batches c rounds texts ≡ ok vectors
      → IsFor (length texts) vectors
  unfolding embed_batches
  embed_batches-IsFor rounds [] vectors h = (ground arith, ground arith)
  embed_batches-IsFor zero (t ∷ texts) vectors h = absurd (ground arith)
  embed_batches-IsFor (suc rounds) (t ∷ texts) vectors h =
      let all = t ∷ texts in
      let first = take default_embed_batch_size all in
      let others = drop default_embed_batch_size all in
      elim (Result-cases (embed_batch c first)) [
        | inl (e, failed) ↦ absurd (ground (arith, failed))
        | inr (firsts, done) ↦ elim (Result-cases (embed_batches c rounds others)) [
          | inl (e, failed) ↦ absurd (ground (arith, failed, done))
          | inr (more, later) ↦
              let joined : firsts ++ more ≡ vectors =
                ok_injective (sym (embed_batches-step rounds t texts done later) ∙ h) in
              subst (λ vs. IsFor (length all) vs) joined
                (IsFor-append t texts firsts more (embed_batch-IsFor first firsts done)
                  (embed_batches-IsFor rounds others more later))
        ]
      ]

  -- Vectors that are returned are one for each text, and each has the client's dimensions, whatever
  -- the service answers.
  embed-IsFor :
      (texts : List Bytes) (vectors : List Vector)
      → embed c texts ≡ ok vectors
      → IsFor (length texts) vectors
  unfolding embed
  embed-IsFor texts vectors h =
      subst (λ n. IsFor n vectors) (length-truncate_all texts)
        (embed_batches-IsFor (length texts) (truncate_all c texts) vectors h)

  -- Suppose that the service answers a batch with the vectors of its texts, each of the client's
  -- dimensions.
  module _ (vec : Bytes → Vector)
      (answers : (texts : List Bytes) → c.request texts ≡ ok (vectors_of vec texts))
      (sized : (t : Bytes) → length (vec t) ≡ c.dimensions) where
    have_dimensions-vectors_of :
        (texts : List Bytes) → have_dimensions c (vectors_of vec texts) ≡ true
    unfolding have_dimensions
    have_dimensions-vectors_of [] = refl
    have_dimensions-vectors_of (t ∷ texts) =
        ground (arith, sized t, have_dimensions-vectors_of texts)

    embed_batch_lem : (texts : List Bytes) → embed_batch c texts ≡ ok (vectors_of vec texts)
    unfolding embed_batch
    embed_batch_lem texts =
        ground (arith, answers texts, have_dimensions-vectors_of texts, length-vectors_of vec texts)

    embed_batches_lem :
        (rounds : ℕ) (texts : List Bytes)
        → length texts ≤ rounds
        → embed_batches c rounds texts ≡ ok (vectors_of vec texts)
    unfolding embed_batches
    embed_batches_lem rounds [] h = refl
    embed_batches_lem zero (t ∷ texts) h = absurd (omega arith)
    embed_batches_lem (suc rounds) (t ∷ texts) h =
        let all = t ∷ texts in
        let first = take default_embed_batch_size all in
        let others = drop default_embed_batch_size all in
        let fewer = length-drop_50 t texts in
        let later = embed_batches_lem rounds others (omega arith) in
        embed_batches-step rounds t texts (embed_batch_lem first) later
        ∙ ap (λ r. ok r) (sym (vectors_of-append vec first others))
        ∙ ap (λ r. ok (vectors_of vec r)) (take-append-drop default_embed_batch_size all)

    -- A service that answers each batch with the vectors of its texts, of the client's dimensions,
    -- gives the texts, cut to the limit, one vector each in the same order, whatever their number.
    pub embed_lem :
        (texts : List Bytes) → embed c texts ≡ ok (vectors_of vec (truncate_all c texts))
    unfolding embed
    embed_lem texts =
        embed_batches_lem (length texts) (truncate_all c texts)
          (rw (length-truncate_all texts) (omega arith))
