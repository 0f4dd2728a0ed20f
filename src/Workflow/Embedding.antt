-- ===== src/Workflow/Embedding.antt =====
-- backend-worker/internal/embedding/client.go: texts cut to the model's limit and embedded in
-- batches. The HTTP request for a batch, with the decoding of its response, is an argument; the
-- numbers of a vector are never looked at.
pub mod Ordered
use code_intelegence.Base.{
  ℕ, zero, suc, Bool, true, not, ◌&&◌, List, [], ◌∷◌, ◌++◌, leb, eqb, if◌then◌else◌, length, take,
  drop,
}
use code_intelegence.Domain.Errors.{GoError, other, wrap, Result, ok, err}
use code_intelegence.Workflow.Bytes.{Bytes}
use code_intelegence.Workflow.Split.{default_max_input_chars}

abbrev pub default_embed_batch_size : ℕ
default_embed_batch_size = 50

abbrev pub Vector : Type 0
Vector = List ℕ

-- OllamaClient; its constructor sets the size of a batch. `request` is what the service answers.
pub record OllamaClient : Type 0 where
  pub dimensions : ℕ
  pub max_input_chars : ℕ
  pub request : List Bytes → Result GoError (List Vector)

abbrev pub new_ollama_client : ℕ → ℕ → (List Bytes → Result GoError (List Vector)) → OllamaClient
new_ollama_client dimensions max_tokens request = record {
  dimensions = dimensions;
  max_input_chars = if leb max_tokens 0 then default_max_input_chars else max_tokens;
  request = request;
}

module _ (c : OllamaClient) where
  unfoldable pub truncated : Bytes → Bytes
  truncated t = if leb (length t) c.max_input_chars then t else take c.max_input_chars t

  unfoldable pub truncate_all : List Bytes → List Bytes
  unfolding truncated
  truncate_all [] = []
  truncate_all (t ∷ texts) = truncated t ∷ truncate_all texts

  unfoldable pub have_dimensions : List Vector → Bool
  have_dimensions [] = true
  have_dimensions (v ∷ vectors) = eqb (length v) c.dimensions && have_dimensions vectors

  unfoldable pub embed_batch : List Bytes → Result GoError (List Vector)
  unfolding have_dimensions
  embed_batch texts = elim (c.request texts) [
    | err e ↦ err (wrap "embedding: request" e)
    | ok vectors ↦
        if not (eqb (length vectors) (length texts))
        then err (other "embedding: embeddings and texts differ in number")
        else if have_dimensions vectors
        then ok vectors
        else err (other "embedding: dimension mismatch")
  ]

  -- The loop over the batches, with a bound on its rounds.
  unfoldable pub embed_batches : ℕ → List Bytes → Result GoError (List Vector)
  unfolding embed_batch
  embed_batches rounds [] = ok []
  embed_batches zero (t ∷ texts) = err (other "embedding: no rounds are left")
  embed_batches (suc rounds) (t ∷ texts) =
      elim (embed_batch (take default_embed_batch_size (t ∷ texts))) [
        | err e ↦ err e
        | ok vectors ↦ elim (embed_batches rounds (drop default_embed_batch_size (t ∷ texts))) [
          | err e ↦ err e
          | ok more ↦ ok (vectors ++ more)
        ]
      ]

  -- As many rounds as there are texts are enough.
  unfoldable pub embed : List Bytes → Result GoError (List Vector)
  unfolding truncate_all embed_batches
  embed texts = embed_batches (length texts) (truncate_all texts)
